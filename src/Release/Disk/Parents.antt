-- ===== src/Release/Disk/Parents.antt =====
-- `path.parent.mkdir(parents=True, exist_ok=True)`, on disk and in a staging directory.
use Prim.Native.Char.{code}
use aura_server.Base.{
  ◌≡◌, String, ◌<>◌, Bool, true, false, none, some, List, [], ◌∷◌, ◌==◌, nat_eq, string_eq,
  contains, if◌then◌else◌, Result, ok, err, os_error, arith, ok-injective, Option-cases, Bool-cases,
  All, All-map, length, codes, ◌+◌, ◌<◌, suc, inl, inr, ◌⊎◌,
}
use mathlib.Core.Path.{subst, ◌∙◌}
use text.Mathlib.TextEquality.{eq_iff}
use aura_server.Base.Dict.{Dict, lookup, insert, lookup-insert}
use aura_server.Base.Length.{codes-append}

-- The proper directories above a path, outermost first: for `a/b/c` they are `a` and `a/b`. The root
-- is left out.
unfoldable pub above : String → String → List String
above seen String.[] = []
above seen (String.◌∷◌ c s) =
    let rest = above (seen <> (String.◌∷◌ c String.[])) s in
    if code c == b'/' then (if seen == "" then rest else seen ∷ rest) else rest

abbrev pub parents : String → List String
parents path = above "" path

module _ {V : Type 0} (is_folder : V → Bool) (fresh : V) where
  -- A missing directory is made; a file in the way is an error, before which nothing is made.
  unfoldable pub mkdirs : List String → Dict V → Result (Dict V)
  mkdirs [] d = ok d
  mkdirs (p ∷ ps) d = elim (lookup p d) [
    | none ↦ mkdirs ps (insert p fresh d)
    | some v ↦ elim (is_folder v) [ true ↦ mkdirs ps d | false ↦ err (os_error "FileExistsError") ]
  ]

  pub mkdirs_free :
      (p : String) (ps : List String) (d : Dict V)
      → lookup p d ≡ none
      → mkdirs (p ∷ ps) d ≡ mkdirs ps (insert p fresh d)
  unfolding mkdirs
  mkdirs_free p ps d free = rw (free, mkdirs)

  pub mkdirs_there :
      (p : String) (ps : List String) (d : Dict V) (v : V)
      → lookup p d ≡ some v
      → is_folder v ≡ true
      → mkdirs (p ∷ ps) d ≡ mkdirs ps d
  unfolding mkdirs
  mkdirs_there p ps d v taken is = rw (taken, mkdirs, is)

  mkdirs-step :
      (p : String) (ps : List String) (d d' : Dict V)
      → mkdirs (p ∷ ps) d ≡ ok d'
      → ((lookup p d ≡ none) × (mkdirs ps (insert p fresh d) ≡ ok d'))
        ⊎ ((w : V) × (is_folder w ≡ true) × (mkdirs ps d ≡ ok d'))
  unfolding mkdirs
  mkdirs-step p ps d d' h = elim (Option-cases (lookup p d)) [
    | inl free ↦ inl (free, rw (free, mkdirs) at h)
    | inr (w, taken) ↦ elim (Bool-cases (is_folder w)) [
      | inl good ↦ inr (w, good, rw (taken, mkdirs, good) at h)
      | inr bad ↦ absurd (cc (rw (taken, mkdirs, bad) at h))
    ]
  ]

  -- What stood keeps standing.
  pub mkdirs-keeps :
      (ps : List String) (d d' : Dict V) (k : String) (v : V)
      → mkdirs ps d ≡ ok d'
      → lookup k d ≡ some v
      → lookup k d' ≡ some v
  mkdirs-keeps [] d d' k v h e = unfold mkdirs in rw (← ok-injective h) e
  mkdirs-keeps (p ∷ ps) d d' k v h e = elim (mkdirs-step p ps d d' h) [
    | inl (free, g) ↦
        mkdirs-keeps ps (insert p fresh d) d' k v g (rw lookup-insert (ground (arith, eq_iff p k)))
    | inr (w, _, g) ↦ mkdirs-keeps ps d d' k v g e
  ]

  -- What is new is an empty directory.
  pub mkdirs-new :
      (ps : List String) (d d' : Dict V) (k : String) (v : V)
      → mkdirs ps d ≡ ok d'
      → lookup k d' ≡ some v
      → (lookup k d ≡ some v) ⊎ (v ≡ fresh)
  mkdirs-new [] d d' k v h e = unfold mkdirs in inl (rw (ok-injective h) e)
  mkdirs-new (p ∷ ps) d d' k v h e = elim (mkdirs-step p ps d d' h) [
    | inl (free, g) ↦ elim (mkdirs-new ps (insert p fresh d) d' k v g e) [
      | inl old ↦ ground (arith, lookup-insert p k fresh d)
      | inr new ↦ inr new
    ]
    | inr (w, _, g) ↦ mkdirs-new ps d d' k v g e
  ]

-- A proper directory above a path is shorter than the path.
above-shorter :
    (seen path : String)
    → All (λ p. length (codes p) < length (codes seen) + length (codes path)) (above seen path)
unfolding above
above-shorter seen String.[] = tt
above-shorter seen (String.◌∷◌ c s) =
    let one = String.◌∷◌ c String.[] in
    let rest =
      All-map (λ p. length (codes p) < length (codes (seen <> one)) + length (codes s))
        (λ p. length (codes p) < length (codes seen) + suc (length (codes s)))
        (λ p h. omega (arith, h, codes-append seen one)) _ (above-shorter (seen <> one) s) in
    elim (Bool-cases (code c == b'/')) [
      | inr e ↦ rw e rest
      | inl e ↦ elim (Bool-cases (seen == "")) [
        | inl f ↦ rw (e, f) rest
        | inr f ↦ rw (e, f) (omega arith, rest)
      ]
    ]

contains-All :
    (P : String → Type 0) (xs : List String) (s : String) → All P xs → contains xs s ≡ true → P s
contains-All P [] s h c = absurd (cc c)
contains-All P (x ∷ xs) s (h, hs) c = elim (Bool-cases (x == s)) [
  | inl e ↦ subst P ((eq_iff x s).0 e) h
  | inr e ↦ contains-All P xs s hs (rw e at c)
]

-- A path is not among the directories above it.
pub parents_self : (path : String) → contains (parents path) path ≡ false
parents_self path = elim (Bool-cases (contains (parents path) path)) [
  | inr e ↦ e
  | inl e ↦ absurd (
      omega (
        arith,
        contains-All (λ p. length (codes p) < length (codes "") + length (codes path))
            (parents path) path (above-shorter "" path) e,
      ))
]

module _ {V : Type 0} (is_folder : V → Bool) (fresh : V) where
  -- Making the directories changes nothing anywhere else.
  pub mkdirs-elsewhere :
      (ps : List String) (d d' : Dict V) (k : String)
      → contains ps k ≡ false
      → mkdirs is_folder fresh ps d ≡ ok d'
      → lookup k d' ≡ lookup k d
  mkdirs-elsewhere [] d d' k c h = unfold mkdirs in rw (ok-injective h)
  mkdirs-elsewhere (p ∷ ps) d d' k c h = elim (mkdirs-step is_folder fresh p ps d d' h) [
    | inl (free, g) ↦
        mkdirs-elsewhere ps (insert p fresh d) d' k (ground arith) g
        ∙ (rw lookup-insert (ground arith))
    | inr (w, _, g) ↦ mkdirs-elsewhere ps d d' k (ground arith) g
  ]
