-- ===== src/Base/Dict.antt =====
-- Python dicts with `str` keys, in insertion order.
use mathlib.Core.Path.{◌≡◌, refl, subst₂}
use mathlib.Core.Logic.{◌⊎◌, inl, inr}
use mathlib.Core.Bool.{Bool, true, ◌&&◌, ◌||◌}
use mathlib.Core.Option.{Option, none, some}
use mathlib.Core.List.{List, [], ◌∷◌}
use native.Mathlib.Omega.{arith}
use Prim.Native.String.{String}
use aura_server.Base.Tests.{Bool-cases, ◌==◌, string_eq, contains, if◌then◌else◌, eq_self}
use aura_server.Base.Lists.{All, all}
use text.Mathlib.TextEquality.{eq_iff}

abbrev pub Dict {ℓ} : Type ℓ → Type ℓ
Dict V = List (String × V)

-- `a == b` between sets, as lists
abbrev pub same_set : List String → List String → Bool
same_set xs ys = all (contains ys) xs && all (contains xs) ys

module _ {ℓ} {V : Type ℓ} where
  -- `list(d)`
  abbrev pub keys : Dict V → List String
  keys [] = []
  keys ((k, _) ∷ d) = k ∷ keys d

  -- `d.get(k)`
  unfoldable pub lookup : String → Dict V → Option V
  lookup k [] = none
  lookup k ((j, v) ∷ d) = if j == k then some v else lookup k d

  -- `d[k] = v`
  unfoldable pub insert : String → V → Dict V → Dict V
  insert k v [] = (k, v) ∷ []
  insert k v ((j, w) ∷ d) = if j == k then (k, v) ∷ d else (j, w) ∷ insert k v d

  pub lookup-insert :
      (k j : String) (v : V) (d : Dict V)
      → lookup j (insert k v d) ≡ (if k == j then some v else lookup j d)
  unfolding lookup insert
  lookup-insert k j v [] = refl
  lookup-insert k j v ((i, w) ∷ d) =
      ground (arith, eq_iff k j, eq_iff i k, eq_iff i j, lookup-insert k j v d)

  pub lookup-insert_self : (k : String) (v : V) (d : Dict V) → lookup k (insert k v d) ≡ some v
  lookup-insert_self k v d = ground (arith, lookup-insert k k v d, eq_self k)

  contains-cons :
      (k j : String) (v : V) (d : Dict V)
      → contains (keys ((j, v) ∷ d)) k ≡ (j == k || contains (keys d) k)
  contains-cons k j v d = refl

  -- A key that is found is one of the keys, and the other way round.
  pub contains-keys :
      (k : String) (d : Dict V) → contains (keys d) k ≡ true → (v : V) × (lookup k d ≡ some v)
  unfolding lookup
  contains-keys k [] h = ground arith
  contains-keys k ((j, v) ∷ d) h = elim (Bool-cases (j == k)) [
    | inl e ↦ (v, rw e)
    | inr e ↦ rw e (contains-keys k d (rw e at h))
  ]

  pub lookup-contains :
      (k : String) (d : Dict V) {v : V} → lookup k d ≡ some v → contains (keys d) k ≡ true
  unfolding lookup
  lookup-contains k [] h = ground arith
  lookup-contains k ((j, v) ∷ d) {v = v'} h =
      ground (arith, contains-cons k j v d, lookup-contains k d {v = v'})

module _ {ℓ κ} {V : Type ℓ} (P : String × V → Type κ) where
  -- What holds of every item holds of an item that is looked up.
  pub All-lookup : (k : String) (d : Dict V) {v : V} → All P d → lookup k d ≡ some v → P (k, v)
  unfolding lookup
  All-lookup k [] a h = ground arith
  All-lookup k ((j, w) ∷ d) {v} (p, a) h = elim (Bool-cases (j == k)) [
    | inl e ↦
        let same : (j ≡ k) × (w ≡ v) = ground (arith, eq_iff j k) in
        subst₂ (λ k v. P (k, v)) same.0 same.1 p
    | inr e ↦ All-lookup k d a (ground arith)
  ]

module _ {ℓ} {V : Type ℓ} where
  -- What is found after an assignment was assigned, or was there.
  pub insert_cases :
      (k j : String) (v w : V) (d : Dict V)
      → lookup j (insert k v d) ≡ some w
      → ((k ≡ j) × (v ≡ w)) ⊎ (lookup j d ≡ some w)
  insert_cases k j v w d h = elim (Bool-cases (k == j)) [
    | inl e ↦ inl ((eq_iff k j).0 e, ground (arith, lookup-insert k j v d))
    | inr e ↦ inr (ground (arith, lookup-insert k j v d))
  ]

  -- `del d[k]`
  unfoldable pub erase : String → Dict V → Dict V
  erase k [] = []
  erase k ((j, w) ∷ d) = let rest = erase k d in if j == k then rest else (j, w) ∷ rest

  pub lookup-erase :
      (k j : String) (d : Dict V) → lookup j (erase k d) ≡ (if k == j then none else lookup j d)
  unfolding lookup erase
  lookup-erase k j [] = ground arith
  lookup-erase k j ((i, w) ∷ d) =
      ground (arith, eq_iff k j, eq_iff i k, eq_iff i j, lookup-erase k j d)
