-- ===== src/Refresh/Command.antt =====
-- `refresh` and `main` of owner_ip_refresh.py.
use aura_server.Base.{ℕ, String, Bool, true, Option, List, string_eq, nat_eq, list_eq, ok}
use aura_server.Json.{Value}
use aura_server.Script.{Machine, Script, lift, gets, ◌>>=◌, ◌>>◌}
use aura_server.Renew.State.{Owner}
use aura_server.Renew.Validate.{Library, Snapshot}
use aura_server.Renew.Validate.Commands.{validate_pair, is_active}
use aura_server.Renew.Install.{as_owner, owner_install}
use aura_server.Refresh.{check_host, Inputs, accept}

module _ (h : Machine) (L : Library) (fresh : Owner → String) (loads : List ℕ → Option Value) where
  -- From `validate_pair` on. The files of a pair do not change once they are published.
  unfoldable pub install : String → Snapshot → String → ℕ → Bool → Script Owner (Unit {0})
  install root pair public uid active = do
    validate_pair h L pair public true
    owner_install h fresh (ok pair.cert) (ok pair.key) root uid active

  unfoldable pub refresh : String → Snapshot → String → ℕ → Bool → Script Owner (Unit {0})
  refresh root pair public uid active = do
    as_owner (gets (check_host loads uid public) >>= lift)
    install root pair public uid active

  unfoldable pub main : Inputs → Script Owner (Unit {0})
  main found = do
    (public, uid, pair) ← lift (accept L loads found)
    active ← is_active h "aura-server.service"
    refresh "/var/lib/aura-server" pair public uid active
