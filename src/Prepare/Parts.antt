-- ===== src/Prepare/Parts.antt =====
-- The directory that prepare.py's `write` makes, while it is being written.
use aura_server.Base.{
  ℕ, ◌≡◌, refl, sym, ◌⊎◌, inl, inr, String, false, Option-cases, none, some, List, [], ◌∷◌, ◌==◌,
  string_eq, contains, All, All-map, Result, ok, Result-cases, ok-injective, arith, Bool-cases,
}
use mathlib.Core.Path.{subst}
use text.Mathlib.TextEquality.{eq_iff}
use aura_server.Base.Dict.{Dict, keys, lookup, insert, lookup-insert, insert_cases}
use aura_server.Release.Disk.Parents.{mkdirs, mkdirs-new}
use aura_server.Prepare.Write.{
  Item, folder, file, Place, free, taken, made, is_folder, make_root, below, create,
}

abbrev pub Files : Type 0
Files = List (String × String)

-- The file is there, closed to others, with its whole text.
abbrev pub IsWritten : Dict Item → String × String → Type 0
IsWritten t (name, content) = lookup name t ≡ some (file 0o600 content)

-- A file that is found is one of the files, empty or with its whole text.
abbrev pub IsPart : Files → Dict Item → Type 0
IsPart files t =
    (name : String) (mode : ℕ) (content : String)
    → lookup name t ≡ some (file mode content)
    → (whole : String) × (lookup name files ≡ some whole) × ((content ≡ "") ⊎ (content ≡ whole))

-- The destination is as it was, or it was free and holds no more than parts of the files.
abbrev pub IsPartial : Place → Files → Place → Type 0
IsPartial before files s =
    (s ≡ before) ⊎ ((before ≡ free) × (t : Dict Item) × (s ≡ made t) × IsPart files t)

-- The directory while the files are written, `done` of them so far.
abbrev pub Doing : Place → Files → Files → Place → Type 0
Doing before files done s =
    (before ≡ free) × (t : Dict Item) × (s ≡ made t) × IsPart files t × All (IsWritten t) done

-- The same, with a file under a name of its own.
abbrev pub Begun : Place → Files → Files → String → String → Place → Type 0
Begun before files done name text s =
    (before ≡ free)
    × (t : Dict Item) × (s ≡ made t)
    × IsPart files t
    × All (IsWritten t) done
    × ((mode : ℕ) × (lookup name t ≡ some (file mode text)))
    × (contains (keys done) name ≡ false)

pub IsWritten-keeps :
    (t t' : Dict Item) (done : Files)
    → ((k : String) (v : Item) → lookup k t ≡ some v → lookup k t' ≡ some v)
    → All (IsWritten t) done
    → All (IsWritten t') done
IsWritten-keeps t t' done keeps =
    All-map (IsWritten t) (IsWritten t') (λ (n, c) e. keeps n (file 0o600 c) e) done

pub IsWritten-insert :
    (t : Dict Item) (done : Files) (name : String) (v : Item)
    → contains (keys done) name ≡ false
    → All (IsWritten t) done
    → All (IsWritten (insert name v t)) done
IsWritten-insert t [] name v c h = tt
IsWritten-insert t ((n, x) ∷ done) name v c (h, hs) = (
  rw lookup-insert (ground (arith, c, eq_iff n name, eq_iff name n, h)),
  IsWritten-insert t done name v (ground (arith, c)) hs,
)

pub not_written :
    (t : Dict Item) (done : Files) (name : String)
    → lookup name t ≡ none
    → All (IsWritten t) done
    → contains (keys done) name ≡ false
not_written t [] name e h = refl
not_written t ((n, x) ∷ done) name e (h, hs) = elim (Bool-cases (n == name)) [
  | inr f ↦ rw f (not_written t done name e hs)
  | inl f ↦ absurd (cc (e, rw ((eq_iff n name).0 f) at h))
]

pub IsPart-insert :
    (files : Files) (t : Dict Item) (name : String) (mode : ℕ) (text whole : String)
    → lookup name files ≡ some whole
    → (text ≡ "") ⊎ (text ≡ whole)
    → IsPart files t
    → IsPart files (insert name (file mode text) t)
IsPart-insert files t name mode text whole there part h n m c e =
    elim (insert_cases name n (file mode text) (file m c) t e) [
      | inr old ↦ h n m c old
      | inl (same, v) ↦
          let is : text ≡ c = cc v in
          (whole, rw same at there, subst (λ c. (c ≡ "") ⊎ (c ≡ whole)) is part)
    ]

pub IsPart-mkdirs :
    (files : Files) (ps : List String) (t t' : Dict Item)
    → mkdirs is_folder folder ps t ≡ ok t'
    → IsPart files t
    → IsPart files t'
IsPart-mkdirs files ps t t' e h n m c there =
    elim (mkdirs-new is_folder folder ps t t' n (file m c) e there) [
      | inl old ↦ h n m c old
      | inr new ↦ absurd (cc new)
    ]

-- What a change below the destination gives.
pub below-eq-ok :
    (f : Dict Item → Result (Dict Item)) (t : Dict Item) (s s' : Place)
    → s ≡ made t
    → below f s ≡ ok s'
    → (t' : Dict Item) × (f t ≡ ok t') × (s' ≡ made t')
below-eq-ok f t s s' e h = elim (Result-cases (f t)) [
  | inr (x, g) ↦ absurd (cc (rw (e, g) at h))
  | inl (t', g) ↦ (t', g, sym (ok-injective (rw (e, g) at h)))
]

pub create-eq-ok :
    (mode : ℕ) (name : String) (t t' : Dict Item)
    → create mode name t ≡ ok t'
    → (lookup name t ≡ none) × (t' ≡ insert name (file mode "") t)
create-eq-ok mode name t t' h = elim (Option-cases (lookup name t)) [
  | inr (v, e) ↦ absurd (cc (rw e at h))
  | inl e ↦ (e, sym (ok-injective (rw e at h)))
]

nothing_found : (files : Files) → IsPart files []
unfolding lookup
nothing_found files n m c h = absurd (cc h)

pub root_made :
    (files : Files) (s s' before : Place)
    → s ≡ before
    → make_root s ≡ ok s'
    → Doing before files [] s'
root_made files free s' before e g = (sym e, [], sym (ok-injective g), nothing_found files, tt)
root_made files taken s' before e g = absurd (cc g)
root_made files (made t) s' before e g = absurd (cc g)
