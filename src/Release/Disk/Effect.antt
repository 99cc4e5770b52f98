-- ===== src/Release/Disk/Effect.antt =====
-- What a command of release.py does to the disk, call by call: a call that raises leaves what the calls
-- before it have done.
use aura_server.Base.{
  ◌≡◌, refl, ap, ◌⊎◌, inl, inr, String, Bool, Bool-cases, true, Option, none, some, List, [], ◌∷◌,
  string_eq, if◌then◌else◌, Error, Result, ok, err, os_error, ok-injective,
}
use mathlib.Core.Path.{◌∙◌}
use aura_server.Base.Dict.{lookup, insert}
use aura_server.Release.Disk.{Disk, Entry, directory, is_directory}
use aura_server.Release.Disk.Parents.{mkdirs, mkdirs_free, mkdirs_there}

-- What a command did: its result, and the disk that it leaves.
pub record Outcome (A : Type 0) : Type 0 where
  pub result : Result A
  pub disk : Disk

abbrev pub Effect : Type 0 → Type 0
Effect A = Disk → Outcome A

module _ {A B : Type 0} where
  abbrev pub proceed : (A → Effect B) → Result A → Effect B
  proceed f (ok a) d = f a d
  proceed f (err e) d = record { result = err e; disk = d }

  infixl 5 ◌>>=◌ ◌>>◌
  -- One call, and the rest of the command where it raises nothing.
  abbrev pub ◌>>=◌ : Effect A → (A → Effect B) → Effect B
  ◌>>=◌ m f d = proceed f (m d).result (m d).disk

  abbrev pub ◌>>◌ : Effect A → Effect B → Effect B
  m >> n = m >>= λ _. n

-- What a command of release.py does not decide. Other processes act on the disk `meanwhile`: during a
-- download, or from the digest of an archive to its second opening; and `later`: from then on, until
-- the last look at the destination. They leave the temporary directory where it was made, or not. The
-- operating system may refuse to make a directory.
pub record Others : Type 0 where
  pub meanwhile : Disk → Disk
  pub later : Disk → Disk
  pub leaves : Bool
  pub refuses : String → Bool

-- A look at the disk, or a computation, which may raise.
abbrev pub look : {A : Type 0} → (Disk → Result A) → Effect A
look f d = record { result = f d; disk = d }

-- What other processes do meanwhile.
abbrev pub interfere : (Disk → Disk) → Effect (Unit {0})
interfere g d = record { result = ok tt; disk = g d }

abbrev pub called : Disk → Result Disk → Outcome (Unit {0})
called d (ok d') = record { result = ok tt; disk = d' }
called d (err e) = record { result = err e; disk = d }

-- One call of the operating system that changes the disk, or raises and changes nothing.
abbrev pub call : (Disk → Result Disk) → Effect (Unit {0})
call f d = called d (f d)

-- `mkdir(exist_ok=True)` of one directory; the operating system may refuse to make it.
abbrev pub make_dir_at : (String → Bool) → String → Disk → Option Entry → Result Disk
make_dir_at refuses p d none =
    if refuses p then err (os_error "OSError") else ok (insert p (directory []) d)
make_dir_at refuses p d (some entry) =
    if is_directory entry then ok d else err (os_error "FileExistsError")

abbrev pub make_dir : (String → Bool) → String → Disk → Result Disk
make_dir refuses p d = make_dir_at refuses p d (lookup p d)

-- `path.parent.mkdir(parents=True, exist_ok=True)` on the directories above a path, outermost first:
-- those that were made stay where a later one is refused.
unfoldable pub make_parents : (String → Bool) → List String → Effect (Unit {0})
make_parents refuses [] = look (λ _. ok tt)
make_parents refuses (p ∷ ps) = call (make_dir refuses p) >>= λ _. make_parents refuses ps

module _ {A B : Type 0} where
  proceed-ok :
      (f : A → Effect B) (r : Result A) (d : Disk) {b : B}
      → (proceed f r d).result ≡ ok b
      → (a : A) × (r ≡ ok a) × ((f a d).result ≡ ok b) × (proceed f r d ≡ f a d)
  proceed-ok f (ok a) d h = (a, refl, h, refl)
  proceed-ok f (err e) d h = absurd (cc h)

  proceed-err :
      (f : A → Effect B) (r : Result A) (d : Disk) {e : Error}
      → (proceed f r d).result ≡ err e
      → ((r ≡ err e) × ((proceed f r d).disk ≡ d))
        ⊎ ((a : A) × (r ≡ ok a) × ((f a d).result ≡ err e) × (proceed f r d ≡ f a d))
  proceed-err f (ok a) d h = inr (a, refl, h, refl)
  proceed-err f (err e) d h = inl (cc, refl)

  -- A command that succeeds has made its first call, and then the rest.
  pub action-ok :
      (m : Effect A) (f : A → Effect B) (d : Disk) {b : B}
      → ((m >>= f) d).result ≡ ok b
      → (a : A) × ((m d).result ≡ ok a)
        × ((f a (m d).disk).result ≡ ok b)
        × ((m >>= f) d ≡ f a (m d).disk)
  action-ok m f d h = proceed-ok f (m d).result (m d).disk h

  -- A command that fails has failed at its first call, or later.
  pub action-err :
      (m : Effect A) (f : A → Effect B) (d : Disk) {e : Error}
      → ((m >>= f) d).result ≡ err e
      → (((m d).result ≡ err e) × (((m >>= f) d).disk ≡ (m d).disk))
        ⊎ ((a : A) × ((m d).result ≡ ok a)
            × ((f a (m d).disk).result ≡ err e)
            × ((m >>= f) d ≡ f a (m d).disk))
  action-err m f d h = proceed-err f (m d).result (m d).disk h

called-ok : (d : Disk) (r : Result Disk) → (called d r).result ≡ ok tt → r ≡ ok (called d r).disk
called-ok d (ok d') h = refl
called-ok d (err e) h = absurd (cc h)

called-err :
    (d : Disk) (r : Result Disk) {e : Error} → (called d r).result ≡ err e → (called d r).disk ≡ d
called-err d (ok d') h = absurd (cc h)
called-err d (err e) h = refl

pub call-ok :
    (f : Disk → Result Disk) (d : Disk) → (call f d).result ≡ ok tt → f d ≡ ok (call f d).disk
call-ok f d h = called-ok d (f d) h

pub call-err :
    (f : Disk → Result Disk) (d : Disk) {e : Error}
    → (call f d).result ≡ err e
    → (call f d).disk ≡ d
call-err f d h = called-err d (f d) h

module _ (refuses : String → Bool) where
  pub make_dir_cases :
      (p : String) (d d' : Disk) (o : Option Entry)
      → lookup p d ≡ o
      → make_dir_at refuses p d o ≡ ok d'
      → ((lookup p d ≡ none) × (insert p (directory []) d ≡ d'))
        ⊎ ((entry : Entry) × (lookup p d ≡ some entry) × (is_directory entry ≡ true) × (d ≡ d'))
  make_dir_cases p d d' none e h = elim (Bool-cases (refuses p)) [
    | inl r ↦ absurd (cc (rw r at h))
    | inr r ↦ inl (e, ok-injective (rw r at h))
  ]
  make_dir_cases p d d' (some entry) e h = elim (Bool-cases (is_directory entry)) [
    | inl is ↦ inr (entry, e, is, ok-injective (rw is at h))
    | inr r ↦ absurd (cc (rw r at h))
  ]

  -- The first directory of a run, and the rest.
  make_parents_first :
      (p : String) (ps : List String) (d : Disk)
      → (make_parents refuses (p ∷ ps) d).result ≡ ok tt
      → (d' : Disk) × (make_dir refuses p d ≡ ok d')
        × ((make_parents refuses ps d').result ≡ ok tt)
        × (make_parents refuses (p ∷ ps) d ≡ make_parents refuses ps d')
  unfolding make_parents
  make_parents_first p ps d h =
      let (_, first, rest, same) =
        action-ok (call (make_dir refuses p)) (λ _. make_parents refuses ps) d h in
      ((call (make_dir refuses p) d).disk, call-ok (make_dir refuses p) d first, rest, same)

  -- Where no call is refused, the directories are those of `mkdirs`.
  pub make_parents_made :
      (ps : List String) (d : Disk)
      → (make_parents refuses ps d).result ≡ ok tt
      → mkdirs is_directory (directory []) ps d ≡ ok (make_parents refuses ps d).disk
  make_parents_made [] d h = unfold make_parents mkdirs in refl
  make_parents_made (p ∷ ps) d h =
      let (d', made, rest, same) = make_parents_first p ps d h in
      let tail : mkdirs is_directory (directory []) ps d'
          ≡ ok (make_parents refuses (p ∷ ps) d).disk =
        rw same (make_parents_made ps d' rest) in
      elim (make_dir_cases p d d' (lookup p d) refl made) [
        | inl (free, put) ↦
            mkdirs_free is_directory (directory []) p ps d free
            ∙ (ap (mkdirs is_directory (directory []) ps) put ∙ tail)
        | inr (entry, taken, is, kept) ↦
            mkdirs_there is_directory (directory []) p ps d entry taken is
            ∙ (ap (mkdirs is_directory (directory []) ps) kept ∙ tail)
      ]
