-- ===== src/Base/Length.antt =====
-- How long a text is, and a name that no key of a dictionary has, as `mkstemp` chooses one.
use aura_server.Base.{
  ◌≡◌, refl, ap, inl, inr, ℕ, zero, suc, ◌+◌, ◌<◌, String, ◌<>◌, Bool-cases, ◌==◌, string_eq, none,
  [], ◌∷◌, length, codes, arith,
}
use text.Mathlib.TextEquality.{eq_iff}
use text.Mathlib.TextLemmas.{nil-append, cons-append}
use aura_server.Base.Dict.{Dict, lookup}

pub codes-append : (s t : String) → length (codes (s <> t)) ≡ length (codes s) + length (codes t)
codes-append String.[] t = rw nil-append (omega arith)
codes-append (String.◌∷◌ c s) t = rw cons-append (omega (arith, codes-append s t))

unfoldable pub total_length : {V : Type 0} → Dict V → ℕ
total_length [] = 0
total_length ((k, _) ∷ d) = length (codes k) + total_length d

unfoldable pub long_name : ℕ → String
long_name zero = "t"
long_name (suc n) = String.◌∷◌ "t" (long_name n)

pub length-long_name : (n : ℕ) → length (codes (long_name n)) ≡ suc n
unfolding long_name
length-long_name zero = refl
length-long_name (suc n) = ap suc (length-long_name n)

pub lookup-long :
    {V : Type 0} (name : String) (d : Dict V)
    → total_length d < length (codes name)
    → lookup name d ≡ none
unfolding total_length lookup
lookup-long name [] h = refl
lookup-long name ((k, v) ∷ d) h = elim (Bool-cases (k == name)) [
  | inl e ↦
      let same : length (codes k) ≡ length (codes name) =
        ap (λ s. length (codes s)) ((eq_iff k name).0 e) in
      absurd (omega (arith, h, same))
  | inr e ↦ rw e (lookup-long name d (omega (arith, h)))
]
