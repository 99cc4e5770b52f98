-- ===== src/Release/Disk/Extended.antt =====
-- What making directories changes on disk, and what a command of release.py that fails leaves.
use aura_server.Base.{
  ◌≡◌, refl, sym, ◌∙◌, ◌⊎◌, inl, inr, String, Bool, Bool-cases, true, false, none, some, List, [],
  ◌∷◌, contains, ◌==◌, string_eq, Result-cases, ok, arith,
}
use text.Mathlib.TextEquality.{eq_iff}
use aura_server.Base.Dict.{lookup, lookup-insert}
use aura_server.Release.Disk.{Disk, directory, is_directory}
use aura_server.Release.Disk.Parents.{parents, parents_self, mkdirs}
use aura_server.Release.Disk.Effect.{
  call, make_dir, make_dir_cases, make_parents, make_parents_made,
}

-- Some of the directories `ps` that were missing are there, empty, and all else is as it was.
pub record IsExtended (ps : List String) (d d' : Disk) : Type 0 where
  pub at :
      (k : String)
      → (lookup k d' ≡ lookup k d)
        ⊎ ((lookup k d ≡ none) × (contains ps k ≡ true) × (lookup k d' ≡ some (directory [])))

IsExtended-refl : (ps : List String) (d : Disk) → IsExtended ps d d
IsExtended-refl ps d = record { at = λ k. inl refl }

-- Nothing else changes.
IsExtended-elsewhere :
    (ps : List String) (d d' : Disk) (k : String)
    → IsExtended ps d d'
    → contains ps k ≡ false
    → lookup k d' ≡ lookup k d
IsExtended-elsewhere ps d d' k e out = elim (e.at k) [
  | inl same ↦ same
  | inr (_, there, _) ↦ absurd (cc (there, out))
]

module _ (refuses : String → Bool) where
  -- However it ends, nothing but missing directories is made.
  make_dir-IsExtended :
      (p : String) (ps : List String) (d : Disk)
      → IsExtended (p ∷ ps) d (call (make_dir refuses p) d).disk
  make_dir-IsExtended p ps d = elim (Result-cases (make_dir refuses p d)) [
    | inr (e, f) ↦ rw f (IsExtended-refl (p ∷ ps) d)
    | inl (d', f) ↦ elim (make_dir_cases refuses p d d' (lookup p d) refl f) [
      | inr (entry, taken, is, kept) ↦ rw (f, ← kept) (IsExtended-refl (p ∷ ps) d)
      | inl (free, put) ↦
          rw (f, ← put)
            (record {
              at = λ k. elim (Bool-cases (p == k)) [
                | inl same ↦
                    let here = (eq_iff p k).0 same in
                    inr (rw (← here) free, rw same, rw (lookup-insert, same))
                | inr apart ↦ inl (rw (lookup-insert, apart))
              ];
            })
    ]
  ]

  IsExtended-trans :
      (p : String) (ps : List String) (d d' d'' : Disk)
      → IsExtended (p ∷ ps) d d'
      → IsExtended ps d' d''
      → IsExtended (p ∷ ps) d d''
  IsExtended-trans p ps d d' d'' one more = record {
    at = λ k. elim (more.at k) [
      | inl same ↦ elim (one.at k) [
        | inl same' ↦ inl (same ∙ same')
        | inr (free, listed, there) ↦ inr (free, listed, same ∙ there)
      ]
      | inr (free, listed, there) ↦ elim (one.at k) [
        | inl same' ↦ inr (sym same' ∙ free, ground (arith, listed), there)
        | inr (free', listed', there') ↦ inr (free', listed', there)
      ]
    ];
  }

  make_parents-IsExtended :
      (ps : List String) (d : Disk) → IsExtended ps d (make_parents refuses ps d).disk
  unfolding make_parents
  make_parents-IsExtended [] d = IsExtended-refl [] d
  make_parents-IsExtended (p ∷ ps) d = elim (Result-cases (make_dir refuses p d)) [
    | inr (e, f) ↦ rw f (IsExtended-refl (p ∷ ps) d)
    | inl (d', f) ↦
        let one : IsExtended (p ∷ ps) d d' = rw f at (make_dir-IsExtended p ps d) in
        rw f (IsExtended-trans p ps d d' _ one (make_parents-IsExtended ps d'))
  ]

-- A command that makes the directories above `path` and then fails has made some of them, and changed
-- nothing at `path`; either that is all, or all of them are made, and other processes `did` the rest.
pub record IsLeft (path : String) (d after : Disk) (did : Disk → Type 0) : Type 0 where
  pub grown : Disk
  pub extended : IsExtended (parents path) d grown
  pub untouched : lookup path grown ≡ lookup path d
  pub rest :
      (after ≡ grown)
      ⊎ ((mkdirs is_directory (directory []) (parents path) d ≡ ok grown) × did grown)

pub IsLeft-unchanged :
    (path : String) (d after : Disk) (did : Disk → Type 0) → after ≡ d → IsLeft path d after did
IsLeft-unchanged path d after did same = record {
  grown = d;
  extended = IsExtended-refl (parents path) d;
  untouched = refl;
  rest = inl same;
}

pub IsLeft-grown :
    (refuses : String → Bool) (path : String) (d after : Disk) (did : Disk → Type 0)
    → let made = make_parents refuses (parents path) d in
      (after ≡ made.disk) ⊎ ((made.result ≡ ok tt) × did made.disk) → IsLeft path d after did
IsLeft-grown refuses path d after did rest =
    let grown = (make_parents refuses (parents path) d).disk in
    let extended = make_parents-IsExtended refuses (parents path) d in
    record {
      grown = grown;
      extended = extended;
      untouched = IsExtended-elsewhere (parents path) d grown path extended (parents_self path);
      rest = elim rest [
        | inl same ↦ inl same
        | inr (whole, done) ↦ inr (make_parents_made refuses (parents path) d whole, done)
      ];
    }
