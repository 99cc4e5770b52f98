-- ===== src/Base/Text/Split.antt =====
-- `split` and `join` undo one another, where no part holds the separator.
use Prim.Native.Nat.{ℕ}
use mathlib.Core.Path.{◌≡◌, refl, ap, ◌∙◌}
use mathlib.Core.Logic.{inl, inr}
use mathlib.Core.Bool.{false}
use mathlib.Core.List.{List, [], ◌∷◌, ◌++◌}
use native.Mathlib.Omega.{arith}
use aura_server.Base.Tests.{Bool-cases, ◌==◌, nat_eq, nat_equals_iff}
use aura_server.Base.Lists.{All, All-append}
use aura_server.Base.Text.{split, join, prepend}

abbrev pub NoSep : ℕ → List ℕ → Type 0
NoSep sep = All (λ c. (c == sep) ≡ false)

module _ (sep : ℕ) where
  join-prepend : (x : ℕ) (ss : List (List ℕ)) → join sep (prepend x ss) ≡ x ∷ join sep ss
  unfolding join
  join-prepend x [] = refl
  join-prepend x (s ∷ []) = refl
  join-prepend x (s ∷ t ∷ ss) = refl

  split-ne-nil : (xs : List ℕ) → (s : List ℕ) × (ss : List (List ℕ)) × (split sep xs ≡ s ∷ ss)
  unfolding split
  split-ne-nil [] = ([], [], refl)
  split-ne-nil (x ∷ xs) = elim (Bool-cases (x == sep)) [
    | inl e ↦ ([], split sep xs, rw e)
    | inr e ↦ let (s, ss, p) = split-ne-nil xs in (x ∷ s, ss, rw (e, p))
  ]

  join-nil-cons : (xs : List ℕ) → join sep ([] ∷ split sep xs) ≡ sep ∷ join sep (split sep xs)
  join-nil-cons xs = let (s, ss, p) = split-ne-nil xs in rw p (unfold join in refl)

  pub join-split : (xs : List ℕ) → join sep (split sep xs) ≡ xs
  unfolding split
  join-split [] = unfold join in refl
  join-split (x ∷ xs) = elim (Bool-cases (x == sep)) [
    | inl e ↦ rw (e, join-nil-cons, join-split xs, (nat_equals_iff x sep).0 e)
    | inr e ↦ rw (e, join-prepend, join-split xs)
  ]

  NoSep-prepend :
      (x : ℕ) (ss : List (List ℕ))
      → (x == sep) ≡ false
      → All (NoSep sep) ss
      → All (NoSep sep) (prepend x ss)
  NoSep-prepend x [] h a = ((h, tt), tt)
  NoSep-prepend x (s ∷ ss) h (a, as') = ((h, a), as')

  pub NoSep-split : (xs : List ℕ) → All (NoSep sep) (split sep xs)
  unfolding split
  NoSep-split [] = (tt, tt)
  NoSep-split (x ∷ xs) = ground (arith, NoSep-prepend x (split sep xs), NoSep-split xs)

  split-append : (s xs : List ℕ) → NoSep sep s → split sep (s ++ (sep ∷ xs)) ≡ s ∷ split sep xs
  unfolding split
  split-append [] xs h = ground (arith, nat_equals_iff sep sep)
  split-append (x ∷ s) xs (h, hs) = rw (h, split-append s xs hs) refl

  split-NoSep : (s : List ℕ) → NoSep sep s → split sep s ≡ s ∷ []
  unfolding split
  split-NoSep [] h = refl
  split-NoSep (x ∷ s) (h, hs) = rw (h, split-NoSep s hs) refl

  pub split-join :
      (s : List ℕ) (ss : List (List ℕ))
      → All (NoSep sep) (s ∷ ss)
      → split sep (join sep (s ∷ ss)) ≡ s ∷ ss
  unfolding join
  split-join s [] (h, _) = split-NoSep s h
  split-join s (t ∷ ss) (h, hs) =
      split-append s (join sep (t ∷ ss)) h ∙ ap (λ r. s ∷ r) (split-join t ss hs)

  -- What holds of every character of a joined text holds of those of its parts, and back.
  pub All-join : (P : ℕ → Type 0) (ss : List (List ℕ)) → All P (join sep ss) → All (All P) ss
  unfolding join
  All-join P [] h = tt
  All-join P (s ∷ []) h = (h, tt)
  All-join P (s ∷ t ∷ ss) h =
      let (a, b) = (All-append P s (sep ∷ join sep (t ∷ ss))).0 h in (a, All-join P (t ∷ ss) b.1)

  pub join-All :
      (P : ℕ → Type 0) (ss : List (List ℕ)) → P sep → All (All P) ss → All P (join sep ss)
  unfolding join
  join-All P [] q h = tt
  join-All P (s ∷ []) q h = h.0
  join-All P (s ∷ t ∷ ss) q (h, hs) =
      (All-append P s (sep ∷ join sep (t ∷ ss))).1 (h, (q, join-All P (t ∷ ss) q hs))
