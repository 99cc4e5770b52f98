-- ===== src/Renew/Install/Safe.antt =====
-- `owner_install` of renew.py with a snapshot, as its callers need it.
use aura_server.Base.{ℕ, ◌≡◌, String, Bool, none, List, Result, ok}
use aura_server.Script.{World, Machine}
use aura_server.Script.Rules.{Seen, Ends}
use aura_server.Renew.State.{Owner, read_live}
use aura_server.Renew.Validate.{Snapshot}
use aura_server.Renew.Validate.Then.{start_of}
use aura_server.Renew.Install.{owner_install}
use aura_server.Renew.Install.Copy.{On}
use aura_server.Renew.Install.Pairs.{Pair, IsRecoverable}
use aura_server.Renew.Install.Recover.{owner_install-IsRecoverable}

module _ (pair : Snapshot) (s0 : Owner) where
  -- A state from which the old pair or the new one can be had.
  abbrev pub Recoverable : Owner → Type 0
  Recoverable = On (
      IsRecoverable (ok pair.cert) (ok pair.key) (read_live "owner.crt" s0)
        (read_live "owner.key" s0))

  -- Each state of the run is recoverable, and the end has the new pair where there is a result.
  abbrev pub IsSafe : Result (Unit {0}) × World Owner → Type 0
  IsSafe r =
      Seen Recoverable r.1
      × Ends (λ (_ : Unit {0}) s. Pair (ok pair.cert) (ok pair.key) s.live × (s.backup ≡ none))
          Recoverable r

  pub owner_install-IsSafe :
      (h : Machine) (fresh : Owner → String) (root : String) (uid : ℕ) (active : Bool)
      (commands : List (List String))
      → IsSafe (
          owner_install h fresh (ok pair.cert) (ok pair.key) root uid active (start_of s0 commands))
  owner_install-IsSafe h fresh root uid active commands =
      owner_install-IsRecoverable h fresh (ok pair.cert) (ok pair.key) root uid active s0 commands
