-- ===== src/Refresh/Installed.antt =====
-- What owner_ip_refresh.py installs was asked for and validated.
use aura_server.Base.{
  ℕ, ◌≡◌, String, Bool, true, List, [], ◌∷◌, ◌++◌, Option, Error, Result, ok, err, value_error,
}
use aura_server.Json.{Value}
use aura_server.Script.{World, Machine}
use aura_server.Renew.State.{Owner}
use aura_server.Renew.Validate.{Library, Snapshot, check_pair, verify_command, expiry_command}
use aura_server.Script.Commands.{RanTo}
use aura_server.Renew.Install.Order.{commands_of}
use aura_server.Renew.Validate.Then.{start_of}
use aura_server.Renew.Validate.Commands.{IsChecked, validation, question}
use aura_server.Renew.Install.Safe.{IsSafe}
use aura_server.Refresh.{check_host, Inputs, accept}

module _ (h : Machine) (L : Library) (loads : List ℕ → Option Value) (s0 : Owner) where
  -- The run stopped before `owner_install`, with every file as it was; or the directory's own
  -- configuration names the address, the pair passed, and the run is safe.
  pub data IsRefreshed (pair : Snapshot) (public : String) (uid : ℕ) (active : Bool)
      (before : List (List String)) (r : Result (Unit {0}) × World Owner) : Type 0 where
    unasked :
        (e : Error)
        → check_host loads uid public s0 ≡ err e
        → r
          ≡ (err (value_error "Owner certificate file operation needs repair"), start_of s0 before)
        → IsRefreshed pair public uid active before r
    stopped :
        (e : Error)
        → check_host loads uid public s0 ≡ ok tt
        → r.0 ≡ err e
        → r.1.now ≡ s0
        → r.1.past ≡ []
        → RanTo before (validation pair true (check_pair L pair public true)) r
        → IsRefreshed pair public uid active before r
    installed :
        (name : String)
        → check_host loads uid public s0 ≡ ok tt
        → IsChecked h L pair public true before name
        → IsSafe pair s0 r
        → RanTo
            (before ++ (verify_command pair true name ∷ []) ++ (expiry_command pair true ∷ []))
            (commands_of "/var/lib/aura-server" active)
            r
        → IsRefreshed pair public uid active before r

  -- What is installed after the commands `commands`.
  abbrev IsPut : Snapshot → Bool → List (List String) → Result (Unit {0}) × World Owner → Type 0
  IsPut pair active commands r =
      IsSafe pair s0 r × RanTo commands (commands_of "/var/lib/aura-server" active) r

  pub data IsInstalled (found : Inputs) (r : Result (Unit {0}) × World Owner) : Type 0 where
    rejected : (e : Error) → r ≡ (err e, start_of s0 []) → IsInstalled found r
    accepted :
        (public : String) (uid : ℕ) (pair : Snapshot)
        → accept L loads found ≡ ok (public, uid, pair)
        → IsRefreshed pair public uid
            (h.succeeds [] (question "aura-server.service"))
            (question "aura-server.service" ∷ [])
            r
        → IsInstalled found r
