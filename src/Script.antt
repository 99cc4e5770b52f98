-- ===== src/Script.antt =====
-- Scripts that change files and run commands. A script is an action on a world: what it has written
-- before an exception stays written.
pub mod Rules
pub mod Finally
pub mod Total
pub mod Commands
pub mod Runs
use aura_server.Base.{
  ℕ, String, Bool, true, false, Option, none, some, List, [], ◌∷◌, ◌++◌, length, if◌then◌else◌,
  Error, Result, ok, err, os_error, process_error,
}

-- The files now, as they were before each call that was to change them (the latest first), whether it
-- changed them or not, and the commands run (the first first). After a crash or to another process,
-- the files are at one of these states.
pub record World (S : Type 0) : Type 0 where
  pub now : S
  pub past : List S
  pub commands : List (List String)

-- What the machine decides: whether the operating system refuses a call that is to change the files, by
-- the number of such calls before it, refused ones included (a call after a refused one may pass), and
-- whether a command succeeds, by the commands run before it.
pub record Machine : Type 0 where
  pub refuses : ℕ → Bool
  pub succeeds : List (List String) → List String → Bool

abbrev pub Script : Type 0 → Type 0 → Type 0
Script S A = World S → Result A × World S

module _ {S : Type 0} where
  unfoldable pub pure : {A : Type 0} → A → Script S A
  pure a w = (ok a, w)

  unfoldable pub throw : {A : Type 0} → Error → Script S A
  throw e w = (err e, w)

  unfoldable pub lift : {A : Type 0} → Result A → Script S A
  lift r w = (r, w)

  -- a look at the files
  unfoldable pub gets : {A : Type 0} → (S → A) → Script S A
  gets f w = (ok (f w.now), w)

  abbrev pub continue : {A B : Type 0} → (A → Script S B) → Result A → Script S B
  continue f (ok a) w = f a w
  continue f (err e) w = (err e, w)

  infixl 5 ◌>>=◌ ◌>>◌
  unfoldable pub ◌>>=◌ : {A B : Type 0} → Script S A → (A → Script S B) → Script S B
  ◌>>=◌ m f w = let (r, w') = m w in continue f r w'

  abbrev pub ◌>>◌ : {A B : Type 0} → Script S A → Script S B → Script S B
  m >> n = m >>= λ _. n

  abbrev pub recover : {A : Type 0} → (Error → Script S A) → Result A → Script S A
  recover f (ok a) w = (ok a, w)
  recover f (err e) w = f e w

  -- `try: m except Exception: …`
  unfoldable pub try_except : {A : Type 0} → Script S A → (Error → Script S A) → Script S A
  try_except m f w = let (r, w') = m w in recover f r w'

  abbrev pub after_all : {A : Type 0} → Result A → Result (Unit {0}) × World S → Result A × World S
  after_all r (ok _, w) = (r, w)
  after_all r (err e, w) = (err e, w)

  -- `try: m finally: f`
  unfoldable pub try_finally : {A : Type 0} → Script S A → Script S (Unit {0}) → Script S A
  try_finally m f w = let (r, w') = m w in after_all r (f w')

  -- `for x in xs: body x`
  unfoldable pub for_each : {A : Type 0} → (A → Script S (Unit {0})) → List A → Script S (Unit {0})
  for_each body [] = pure tt
  for_each body (x ∷ xs) = body x >> for_each body xs

  abbrev pub when : Bool → Script S (Unit {0}) → Script S (Unit {0})
  when true m = m
  when false m = pure tt

  abbrev pub applied : Result S → World S → Result (Unit {0}) × World S
  applied (ok s) w = (ok tt, record w { now = s; past = w.now ∷ w.past })
  applied (err e) w = (err e, record w { past = w.now ∷ w.past })

  -- One call that changes the files, or leaves them as they are: the operating system may refuse it,
  -- and it fails where the files do not allow it.
  unfoldable pub change : Machine → (S → Result S) → Script S (Unit {0})
  change h f w = applied (if h.refuses (length w.past) then err (os_error "OSError") else f w.now) w

  -- `command(args)`
  unfoldable pub command : Machine → List String → Script S (Unit {0})
  command h args w = (
    (if h.succeeds w.commands args then ok tt else err process_error),
    record w { commands = w.commands ++ (args ∷ []) },
  )
