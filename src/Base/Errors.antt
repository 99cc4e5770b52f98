-- ===== src/Base/Errors.antt =====
-- Exceptions as values. A pure function that may raise returns a `Result`.
use Prim.Native.String.{String}
use mathlib.Core.Path.{◌≡◌, refl}
use mathlib.Core.Logic.{◌⊎◌, inl, inr}
use mathlib.Core.Bool.{Bool, true, false}

-- `invalid_release` is release.py's subclass of `ValueError`; the text is the message.
pub data Error : Type 0 where
  invalid_release value_error os_error : String → Error
  type_error key_error attribute_error tar_error : Error
  -- `subprocess.CalledProcessError`, and its timeout
  process_error : Error

pub data Result {ℓ} (A : Type ℓ) : Type ℓ where
  err : Error → Result A
  ok : A → Result A

module _ {ℓ κ} {A : Type ℓ} {B : Type κ} where
  infixl 5 ◌>>=◌ ◌>>◌
  abbrev pub ◌>>=◌ : Result A → (A → Result B) → Result B
  err raised >>= rest = err raised
  ok value >>= rest = rest value

  abbrev pub ◌>>◌ : Result A → Result B → Result B
  first >> second = first >>= λ _. second

  -- Where a sequence returns, its first part did, and the rest did from there.
  pub bind-eq-ok :
      (first : Result A) (rest : A → Result B) {result : B}
      → (first >>= rest) ≡ ok result
      → (value : A) × (first ≡ ok value) × (rest value ≡ ok result)
  bind-eq-ok (err raised) rest h = absurd (cc h)
  bind-eq-ok (ok value) rest h = (value, refl, h)

-- `if test: raise e`
abbrev pub raise_if : Bool → Error → Result (Unit {0})
raise_if test e = elim test [ true ↦ err e | false ↦ ok tt ]

pub raise_if-ok : (test : Bool) (e : Error) → raise_if test e ≡ ok tt → test ≡ false
raise_if-ok true e h = absurd (cc h)
raise_if-ok false e h = refl

module _ {ℓ} {A : Type ℓ} where
  -- What follows a guard runs only if the guard lets it.
  pub raise_if-then :
      (test : Bool) (e : Error) (rest : Result A) {result : A}
      → (raise_if test e >> rest) ≡ ok result
      → (test ≡ false) × (rest ≡ ok result)
  raise_if-then true e rest h = absurd (cc h)
  raise_if-then false e rest h = (refl, h)

  pub ok-injective : {a b : A} → ok a ≡ ok b → a ≡ b
  ok-injective h = cc

  pub Result-cases : (r : Result A) → ((a : A) × (r ≡ ok a)) ⊎ ((e : Error) × (r ≡ err e))
  Result-cases (ok a) = inl (a, refl)
  Result-cases (err e) = inr (e, refl)
