-- ===== src/Renew/Validate/Commands.antt =====
-- `validate_pair` of renew.py, with its commands.
use aura_server.Base.{
  ◌≡◌, refl, sym, String, Bool, true, false, List, [], ◌∷◌, ◌++◌, Bool-cases, inl, inr, ◌⊎◌, Error,
  Result, Result-cases, ok, err,
}
use mathlib.Core.List.{append_assoc, append-nil}
use aura_server.Script.{World, Machine, Script, pure, lift, ◌>>=◌, ◌>>◌, try_except, command}
use aura_server.Script.Commands.{RanTo}
use aura_server.Renew.Validate.{Library, Snapshot, check_pair, verify_command, expiry_command}

-- Without `ca_file`, which no command of infrastructure/ gives.
unfoldable pub validate_pair :
    {S : Type 0} → Machine → Library → Snapshot → String → Bool → Script S (Unit {0})
validate_pair h L pair host ip_identifier = do
  name ← lift (check_pair L pair host ip_identifier)
  command h (verify_command pair ip_identifier name)
  command h (expiry_command pair ip_identifier)

abbrev pub question : String → List String
question service = "systemctl" ∷ "is-active" ∷ "--quiet" ∷ service ∷ []

-- `systemctl is-active`, as a question. That it takes longer than its time limit is left out.
unfoldable pub is_active : {S : Type 0} → Machine → String → Script S Bool
is_active h service = try_except (command h (question service) >> pure true) (λ _. pure false)

-- The commands of `validate_pair`, by what its tests give.
abbrev pub validation : Snapshot → Bool → Result String → List (List String)
validation pair ip_identifier (err e) = []
validation pair ip_identifier (ok name) =
    verify_command pair ip_identifier name ∷ expiry_command pair ip_identifier ∷ []

module _ (h : Machine) (L : Library) (pair : Snapshot) (host : String) (ip_identifier : Bool) where
  -- Both commands succeeded, one after the other.
  pub record IsChecked (before : List (List String)) (name : String) : Type 0 where
    pub tests : check_pair L pair host ip_identifier ≡ ok name
    pub verified : h.succeeds before (verify_command pair ip_identifier name) ≡ true
    pub lasting :
        h.succeeds
          (before ++ (verify_command pair ip_identifier name ∷ []))
          (expiry_command pair ip_identifier)
        ≡ true

  -- `validate_pair` changes no file and runs a beginning of its commands. Where it returns, the tests passed and both commands succeeded,
  -- `openssl verify` and then the test that the certificate lasts long enough.
  pub validate_pair_cases :
      {S : Type 0} (w : World S)
      → let r = validate_pair h L pair host ip_identifier w in
        (r.1.now ≡ w.now)
        × (r.1.past ≡ w.past)
        × (((e : Error) × (r.0 ≡ err e)
              × RanTo w.commands
                  (validation pair ip_identifier (check_pair L pair host ip_identifier))
                  r)
            ⊎ ((name : String) × (r.0 ≡ ok tt)
                × IsChecked w.commands name
                × (r.1.commands
                    ≡ w.commands
                      ++ (verify_command pair ip_identifier name ∷ [])
                      ++ (expiry_command pair ip_identifier ∷ []))))
  unfolding validate_pair lift command ◌>>=◌
  validate_pair_cases w = elim (Result-cases (check_pair L pair host ip_identifier)) [
    | inr (e, f) ↦
        rw (f, lift)
          (refl, refl, inl (e, refl, ([], [], refl, sym (append-nil w.commands), λ _ _. refl)))
    | inl (name, f) ↦
        elim (Bool-cases (h.succeeds w.commands (verify_command pair ip_identifier name))) [
          | inr g ↦
              rw (f, lift, command, g)
                (refl, refl, inl (_, refl, (_ ∷ [], _ ∷ [], refl, refl, λ _ h. absurd (cc h))))
          | inl g ↦
              elim (Bool-cases (
                h.succeeds (w.commands ++ (verify_command pair ip_identifier name ∷ []))
                  (expiry_command pair ip_identifier))) [
                    | inr k ↦
                        rw (f, lift, command, g, k)
                          (
                            refl,
                            refl,
                            inl (
                              _,
                              refl,
                              (_ ∷ _ ∷ [], [], refl, append_assoc w.commands _ _, λ _ _. refl),
                            ),
                          )
                    | inl k ↦
                        rw (f, lift, command, g, k)
                          (
                            refl,
                            refl,
                            inr (name, refl, record { tests = f; verified = g; lasting = k }, refl),
                          )
                  ]
        ]
  ]
