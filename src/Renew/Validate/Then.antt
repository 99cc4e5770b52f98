-- ===== src/Renew/Validate/Then.antt =====
-- What a command of infrastructure/ does once `validate_pair` accepts.
use aura_server.Base.{
  ◌≡◌, refl, sym, ◌⊎◌, inl, inr, String, Bool, Bool-cases, List, [], ◌∷◌, ◌++◌, Error, Result, ok,
  err,
}
use mathlib.Core.Path.{subst}
use aura_server.Script.{World, Machine, Script, pure, command, try_except, ◌>>=◌, continue}
use aura_server.Script.Commands.{RanTo}
use aura_server.Renew.Validate.{Library, Snapshot, check_pair, verify_command, expiry_command}
use aura_server.Renew.Validate.Commands.{
  validate_pair, is_active, question, IsChecked, validation, validate_pair_cases,
}

abbrev pub start_of : {S : Type 0} → S → List (List String) → World S
start_of s commands = record { now = s; past = []; commands = commands }

pub is_active_lem :
    {S : Type 0} (h : Machine) (service : String) (w : World S)
    → is_active h service w ≡ (
      ok (h.succeeds w.commands (question service)),
      record w { commands = w.commands ++ (question service ∷ []) },
    )
unfolding is_active command try_except pure ◌>>=◌
is_active_lem h service w = elim (Bool-cases (h.succeeds w.commands (question service))) [
  | inl e ↦ rw e refl
  | inr e ↦ rw e refl
]

module _ {S : Type 0} (h : Machine) (L : Library) (pair : Snapshot) (host : String)
    (ip_identifier : Bool) (s0 : S)
    (Good : List (List String) → Result (Unit {0}) × World S → Type 0) where
  -- The commands run once `validate_pair` has returned.
  abbrev checked_by : List (List String) → String → List (List String)
  checked_by before name =
      before
      ++ (verify_command pair ip_identifier name ∷ [])
      ++ (expiry_command pair ip_identifier ∷ [])

  -- The run stopped in `validate_pair`, with every file as it was and no command but those of
  -- `validate_pair` run; or it went through, and the rest of the run starts after its commands.
  pub data IsAfter (before : List (List String)) (r : Result (Unit {0}) × World S) : Type 0 where
    refused :
        (e : Error)
        → r.0 ≡ err e
        → r.1.now ≡ s0
        → r.1.past ≡ []
        → RanTo before (validation pair ip_identifier (check_pair L pair host ip_identifier)) r
        → IsAfter before r
    passed :
        (name : String)
        → IsChecked h L pair host ip_identifier before name
        → Good (checked_by before name) r
        → IsAfter before r

  Validated : List (List String) → Result (Unit {0}) × World S → Type 0
  Validated before r =
      ((e : Error) × (r.0 ≡ err e)
        × RanTo before (validation pair ip_identifier (check_pair L pair host ip_identifier)) r)
      ⊎ ((name : String) × (r.0 ≡ ok tt)
          × IsChecked h L pair host ip_identifier before name
          × (r.1.commands ≡ checked_by before name))

  IsAfter-of_continue :
      (m : Script S (Unit {0})) (before : List (List String)) (r : Result (Unit {0}) × World S)
      → ((commands : List (List String)) → Good commands (m (start_of s0 commands)))
      → r.1.now ≡ s0
      → r.1.past ≡ []
      → Validated before r
      → IsAfter before (continue (λ _. m) r.0 r.1)
  unfolding Validated
  IsAfter-of_continue m before (err e, w) good same none_yet (inl (_, f, ran)) =
      refused e refl same none_yet ran
  IsAfter-of_continue m before (err e, w) good same none_yet (inr (name, f, _, _)) = absurd (cc f)
  IsAfter-of_continue m before (ok _, w) good same none_yet (inl (e, f, _)) = absurd (cc f)
  IsAfter-of_continue m before (ok _, w) good same none_yet (inr (name, f, checked, ran)) =
      let there : w ≡ start_of s0 (checked_by before name) = rw (same, none_yet, ran) refl in
      passed name checked (
        subst (λ w. Good (checked_by before name) (m w)) (sym there)
          (good (checked_by before name)))

  pub validate_pair-IsAfter :
      (m : Script S (Unit {0})) (before : List (List String))
      → ((commands : List (List String)) → Good commands (m (start_of s0 commands)))
      → IsAfter before ((validate_pair h L pair host ip_identifier >>= λ _. m) (start_of s0 before))
  unfolding ◌>>=◌ Validated
  validate_pair-IsAfter m before good =
      let (same, none_yet, cases) =
        validate_pair_cases h L pair host ip_identifier (start_of s0 before) in
      IsAfter-of_continue m before (validate_pair h L pair host ip_identifier (start_of s0 before))
        good same none_yet cases
