-- ===== src/Renew/Command/Run.antt =====
-- `main` of renew.py from the snapshot on.
use aura_server.Base.{ℕ, String, Bool, false, [], ◌∷◌, Result, ok}
use aura_server.Script.{Machine, Script, lift, ◌>>=◌, ◌>>◌, when, command}
use aura_server.Renew.State.{Owner}
use aura_server.Renew.Validate.{Library, Snapshot}
use aura_server.Renew.Validate.Commands.{validate_pair, is_active}
use aura_server.Renew.Install.{owner_install}
use aura_server.Renew.Command.{Role, owner, derp, rendezvous, Inputs, accept}

abbrev pub service_of : Role → String
service_of owner = "aura-server.service"
service_of derp = "aura-derp.service"
service_of rendezvous = "aura-rendezvous.service"

module _ (h : Machine) (L : Library) (fresh : Owner → String) where
  -- A public service that was active is restarted.
  abbrev pub restart : String → Bool → Script Owner (Unit {0})
  restart service active = when active do
    command h ("systemctl" ∷ "restart" ∷ service ∷ [])
    command h ("systemctl" ∷ "is-active" ∷ "--quiet" ∷ service ∷ [])

  unfoldable pub install : Result ℕ → Snapshot → Role → Bool → Script Owner (Unit {0})
  install user pair owner active = do
    uid ← lift user
    owner_install h fresh (ok pair.cert) (ok pair.key) "/var/lib/aura-server" uid active
  install user pair derp active = restart "aura-derp.service" active
  install user pair rendezvous active = restart "aura-rendezvous.service" active

  unfoldable pub serve : Result ℕ → Snapshot → Role → Script Owner (Unit {0})
  serve user pair role = do active ← is_active h (service_of role); install user pair role active

  unfoldable pub renew : Result ℕ → Snapshot → Role → String → Script Owner (Unit {0})
  renew user pair role host = do validate_pair h L pair host false; serve user pair role

  unfoldable pub main : Inputs → Script Owner (Unit {0})
  main found = do (role, host, pair) ← lift (accept L found); renew found.user pair role host
