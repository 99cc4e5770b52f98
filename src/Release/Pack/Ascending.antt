-- ===== src/Release/Pack/Ascending.antt =====
-- The names in an archive come in one order, whatever the order of the manifest.
use aura_server.Base.{
  ℕ, ◌≡◌, ◌⊎◌, refl, sym, ◌∙◌, inl, inr, String, true, false, List, [], ◌∷◌, ◌==◌, nat_eq,
  string_eq, codes, contains, All, All-map, Bool-cases, arith,
}
use mathlib.Core.Path.{subst}
use text.Mathlib.TextEquality.{eq_iff, Char-path}
use aura_server.Json.Unique.{Distinct}
use aura_server.Release.Pack.{precedes, insert_name, sorted_set}

precedes_trans :
    (xs ys zs : List ℕ) → precedes xs ys ≡ true → precedes ys zs ≡ true → precedes xs zs ≡ true
precedes_trans [] ys zs h k = refl
precedes_trans (x ∷ xs) [] zs h k = cc
precedes_trans (x ∷ xs) (y ∷ ys) [] h k = cc
precedes_trans (x ∷ xs) (y ∷ ys) (z ∷ zs) h k = ground (arith, precedes_trans xs ys zs)

precedes_antisymm : (xs ys : List ℕ) → precedes xs ys ≡ true → precedes ys xs ≡ true → xs ≡ ys
precedes_antisymm [] [] h k = refl
precedes_antisymm [] (y ∷ ys) h k = cc
precedes_antisymm (x ∷ xs) [] h k = cc
precedes_antisymm (x ∷ xs) (y ∷ ys) h k = ground (arith, precedes_antisymm xs ys)

precedes_total : (xs ys : List ℕ) → precedes xs ys ≡ false → precedes ys xs ≡ true
precedes_total [] ys h = cc
precedes_total (x ∷ xs) [] h = refl
precedes_total (x ∷ xs) (y ∷ ys) h = ground (arith, precedes_total xs ys)

codes_injective : (s t : String) → codes s ≡ codes t → s ≡ t
codes_injective String.[] String.[] h = refl
codes_injective String.[] (String.◌∷◌ c t) h = absurd (cc h)
codes_injective (String.◌∷◌ c s) String.[] h = absurd (cc h)
codes_injective (String.◌∷◌ c s) (String.◌∷◌ d t) h = cc (Char-path c d cc, codes_injective s t cc)

abbrev pub Before : String → String → Type 0
Before x y = (precedes (codes x) (codes y) ≡ true) × ((x == y) ≡ false)

Before-trans : (x y z : String) → Before x y → Before y z → Before x z
Before-trans x y z (h, apart) (k, _) = (
  precedes_trans (codes x) (codes y) (codes z) h k,
  elim (Bool-cases (x == z)) [
    | inr e ↦ e
    | inl e ↦
        let back = rw (← (eq_iff x z).0 e) at k in
        let same = codes_injective x y (precedes_antisymm (codes x) (codes y) h back) in
        absurd (cc (apart, (eq_iff x y).1 same))
  ],
)

-- Each name stands before all that follow it.
abbrev pub IsAscending : List String → Type 0
IsAscending [] = Unit
IsAscending (x ∷ xs) = All (Before x) xs × IsAscending xs

insert_name-All :
    (P : String → Type 0) (x : String) (ys : List String)
    → P x
    → All P ys
    → All P (insert_name x ys)
unfolding insert_name
insert_name-All P x [] h hs = (h, tt)
insert_name-All P x (y ∷ ys) h (k, ks) = elim (Bool-cases (x == y)) [
  | inl e ↦ rw e (k, ks)
  | inr e ↦ elim (Bool-cases (precedes (codes x) (codes y))) [
    | inl f ↦ rw (e, f) (h, (k, ks))
    | inr f ↦ rw (e, f) (k, insert_name-All P x ys h ks)
  ]
]

insert_name-IsAscending :
    (x : String) (ys : List String) → IsAscending ys → IsAscending (insert_name x ys)
unfolding insert_name
insert_name-IsAscending x [] h = (tt, tt)
insert_name-IsAscending x (y ∷ ys) (k, ks) = elim (Bool-cases (x == y)) [
  | inl e ↦ rw e (k, ks)
  | inr e ↦ elim (Bool-cases (precedes (codes x) (codes y))) [
    | inl f ↦
        rw (e, f)
          (((f, e), All-map (Before y) (Before x) (λ z. Before-trans x y z (f, e)) ys k), (k, ks))
    | inr f ↦
        let apart : (y == x) ≡ false = ground (arith, e, eq_iff x y, eq_iff y x) in
        rw (e, f)
          (
            insert_name-All (Before y) x ys (precedes_total (codes x) (codes y) f, apart) k,
            insert_name-IsAscending x ys ks,
          )
  ]
]

pub sorted_set-IsAscending : (xs : List String) → IsAscending (sorted_set xs)
unfolding sorted_set
sorted_set-IsAscending [] = tt
sorted_set-IsAscending (x ∷ xs) =
    insert_name-IsAscending x (sorted_set xs) (sorted_set-IsAscending xs)

Before-contains :
    (x n : String) (xs : List String) → All (Before x) xs → contains xs n ≡ true → Before x n
Before-contains x n [] h c = absurd (cc c)
Before-contains x n (y ∷ ys) (h, hs) c = elim (Bool-cases (y == n)) [
  | inl e ↦ subst (Before x) ((eq_iff y n).0 e) h
  | inr e ↦ Before-contains x n ys hs (rw e at c)
]

not_after_self : (x : String) (xs : List String) → All (Before x) xs → contains xs x ≡ false
not_after_self x xs h = elim (Bool-cases (contains xs x)) [
  | inr e ↦ e
  | inl e ↦ absurd (cc ((Before-contains x x xs h e).1, (eq_iff x x).1 refl))
]

pub IsAscending-Distinct : (xs : List String) → IsAscending xs → Distinct xs
IsAscending-Distinct [] h = tt
IsAscending-Distinct (x ∷ xs) (h, hs) = (not_after_self x xs h, IsAscending-Distinct xs hs)

head_cases :
    (x y : String) (xs ys : List String)
    → ((n : String) → contains (x ∷ xs) n ≡ contains (y ∷ ys) n)
    → All (Before y) ys
    → ((x == y) ≡ true) ⊎ Before y x
head_cases x y xs ys same h = elim (Bool-cases (x == y)) [
  | inl e ↦ inl e
  | inr e ↦
      inr (Before-contains y x ys h (ground (arith, same x, eq_iff x x, eq_iff x y, eq_iff y x)))
]

first_same :
    (x y : String) → ((x == y) ≡ true) ⊎ Before y x → ((y == x) ≡ true) ⊎ Before x y → x ≡ y
first_same x y (inl e) _ = (eq_iff x y).0 e
first_same x y (inr b) (inl e) = sym ((eq_iff y x).0 e)
first_same x y (inr b) (inr c) = absurd (cc ((Before-trans x y x c b).1, (eq_iff x x).1 refl))

rest_same :
    (x y : String) (xs ys : List String)
    → x ≡ y
    → All (Before x) xs
    → All (Before y) ys
    → (n : String) → contains (x ∷ xs) n ≡ contains (y ∷ ys) n
    → contains xs n ≡ contains ys n
rest_same x y xs ys e h k n same = elim (Bool-cases (x == n)) [
  | inl f ↦
      let g = (eq_iff x n).0 f in
      subst (λ z. contains xs z ≡ contains ys z) g
        (not_after_self x xs h ∙ sym (rw e (not_after_self y ys k)))
  | inr f ↦ ground (arith, f, same, rw e at f)
]

-- A set has one ascending list.
pub IsAscending-unique :
    (xs ys : List String)
    → IsAscending xs
    → IsAscending ys
    → ((n : String) → contains xs n ≡ contains ys n)
    → xs ≡ ys
IsAscending-unique [] [] h k same = refl
IsAscending-unique [] (y ∷ ys) h k same = absurd (ground (arith, same y, eq_iff y y))
IsAscending-unique (x ∷ xs) [] h k same = absurd (ground (arith, same x, eq_iff x x))
IsAscending-unique (x ∷ xs) (y ∷ ys) (h, hs) (k, ks) same =
    let first : x ≡ y =
      first_same x y (head_cases x y xs ys same k) (head_cases y x ys xs (λ n. sym (same n)) h) in
    cc (first, IsAscending-unique xs ys hs ks (λ n. rest_same x y xs ys first h k n (same n)))
