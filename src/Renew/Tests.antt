-- ===== src/Renew/Tests.antt =====
-- A renewal of the owner's certificate, and the theorem at it.
use aura_server.Base.{
  inl, ◌==◌, String, arith, string_eq, ◌≡◌, refl, true, false, none, [], ◌∷◌, nat_eq, Result, ok,
  err, value_error,
}
use aura_server.Base.Dict.{lookup, insert, erase}
use aura_server.Base.Length.{total_length, long_name, length-long_name, lookup-long}
use aura_server.Script.{
  World, Machine, pure, throw, lift, gets, ◌>>=◌, try_except, try_finally, for_each, change,
  command,
}
use aura_server.Script.Rules.{Seen, Ends}
use aura_server.Deploy.Site.{real}
use aura_server.Renew.State.{Owner, regular, read_live}
use aura_server.Renew.Install.{
  check_private, as_owner, settle, clean_temp, copy_by, atomic_copy, save_one, install_one,
  owner_files, clean_previous, owner_install,
}
use aura_server.Renew.Install.Copy.{On}
use aura_server.Renew.Install.Pairs.{Pair, IsRecoverable}
use aura_server.Script.Commands.{RanTo}
use aura_server.Renew.Install.Order.{commands_of, owner_install_commands}
use aura_server.Script.Runs.{start as at_start, later}
use mathlib.Core.List.{Memᴰ}
use aura_server.Renew.Install.Runs.{Renewal, run, IsWhole, reached-IsWhole}
use aura_server.Renew.Install.Returns.{owner_install_total}
use aura_server.Renew.Install.Recover.{owner_install-IsRecoverable}
use aura_server.Base.{ℕ, some, List, Option}
use aura_server.Json.{Value, str, bool, object, Fields, end, field}
use aura_server.Prepare.Render.{number}
use aura_server.Renew.Validate.{Library}
use aura_server.Renew.Validate.Then.{start_of}
use aura_server.Renew.Command.{Inputs}
use aura_server.Renew.Command.Run.{main}
use aura_server.Renew.Command.Renewed.{IsRenewed, main-IsRenewed}
use aura_server.Refresh
use aura_server.Refresh.Command

abbrev machine : Machine
machine = record { refuses = λ _. false; succeeds = λ _ _. true }

abbrev owner : Owner
owner = record {
  root = real 7 0o700;
  live = ("owner.crt", regular 7 0o600 (1 ∷ [])) ∷ ("owner.key", regular 7 0o600 (2 ∷ [])) ∷ [];
  backup = none;
  staged = none;
  temps = [];
}

abbrev renewal : Result (Unit {0}) × World Owner
renewal =
    owner_install machine (λ _. "a") (ok (3 ∷ [])) (ok (4 ∷ [])) "/var/lib/aura-server" 7 true
      (record { now = owner; past = []; commands = [] })

renewal-Pair : Pair (ok (3 ∷ [])) (ok (4 ∷ [])) renewal.1.now.live
unfolding owner_install owner_files check_private as_owner settle clean_temp copy_by atomic_copy
    save_one install_one clean_previous pure throw lift gets ◌>>=◌ try_except try_finally for_each
    change command lookup insert erase
renewal-Pair = (refl, refl)

-- A machine that refuses one call, `os.replace` of the first new file, and no other.
abbrev once : Machine
once = record { refuses = λ n. n == 24; succeeds = λ _ _. true }

abbrev interrupted : Result (Unit {0}) × World Owner
interrupted =
    owner_install once (λ _. "a") (ok (3 ∷ [])) (ok (4 ∷ [])) "/var/lib/aura-server" 7 true
      (record { now = owner; past = []; commands = [] })

-- The clean-up after the refused call passes: no temporary file is left, and no staged one.
interrupted_run :
    (interrupted.0 ≡ err (value_error "Owner certificate file operation needs repair"))
    × (interrupted.1.now.temps ≡ [])
    × (interrupted.1.now.staged ≡ none)
    × (interrupted.1.now.live ≡ owner.live)
unfolding owner_install owner_files check_private as_owner settle clean_temp copy_by atomic_copy
    save_one install_one clean_previous pure throw lift gets ◌>>=◌ try_except try_finally for_each
    change command lookup insert erase
interrupted_run = (refl, refl, refl, refl)

owner_install-IsRecoverable_example :
    let recoverable = On (
      IsRecoverable
        (ok (3 ∷ []))
        (ok (4 ∷ []))
        (read_live "owner.crt" owner)
        (read_live "owner.key" owner)) in
    Seen recoverable interrupted.1
    × Ends
        (λ (_ : Unit {0}) s. Pair (ok (3 ∷ [])) (ok (4 ∷ [])) s.live × (s.backup ≡ none))
        recoverable
        interrupted
owner_install-IsRecoverable_example =
    owner_install-IsRecoverable once (λ _. "a") (ok (3 ∷ [])) (ok (4 ∷ [])) "/var/lib/aura-server" 7
      true owner []

owner_install_commands_example : RanTo [] (commands_of "/var/lib/aura-server" true) renewal
owner_install_commands_example =
    owner_install_commands machine (λ _. "a") (ok (3 ∷ [])) (ok (4 ∷ [])) "/var/lib/aura-server" 7
      true (record { now = owner; past = []; commands = [] })

abbrev library : Library
library = record {
  parse = λ text. some (record {
    version = 4;
    is_global = true;
    is_multicast = false;
    is_mapped = false;
    text = text;
  });
  text = λ _. "203.0.113.7";
  loads_chain = λ _ _. true;
}

abbrev fields : Fields
fields =
    field "version" (number 1)
      (field "role" (str "owner") (field "hostname" (str "owner.example.org") end))

abbrev found : Inputs
found = record {
  euid = 0;
  config = some (regular 0 0o600 []);
  contained = true;
  parents = (0, 0o755) ∷ [];
  loads = λ _. some (object fields);
  renewed = "/etc/letsencrypt/live/owner.example.org";
  lock = ok (regular 0 0o600 []);
  flock = ok tt;
  cert = record { file = some (regular 0 0o644 (3 ∷ [])); archived = true };
  key = record { file = some (regular 0 0o600 (4 ∷ [])); archived = true };
  snapshot =
      ok (record { cert_path = "/run/aura-tls-x/fullchain.pem"; cert = 3 ∷ []; key = 4 ∷ [] });
  user = ok 7;
}

main-IsRenewed_example :
    IsRenewed machine
      (record library { parse = λ _. none })
      owner
      found
      (main machine (record library { parse = λ _. none }) (λ _. "a") found (start_of owner []))
main-IsRenewed_example =
    main-IsRenewed machine (record library { parse = λ _. none }) (λ _. "a") owner found

-- The configuration of the infrastructure, and the service's own.
abbrev loads : List ℕ → Option Value
loads [] = some (
    object (
      field "version" (number 1) (
        field "publicIP" (str "203.0.113.7")
          (field "certName" (str "home") (field "ownerEnabled" (bool true) end)))))
loads _ = some (object (field "ownerHost" (str "203.0.113.7:9443") end))

abbrev refreshed : Refresh.Inputs
refreshed = record {
  euid = 0;
  config = some (regular 0 0o600 []);
  lock = ok tt;
  flock = ok tt;
  user = ok 7;
  material = ok ("/etc/aura-infrastructure/tls", "pair-b");
  cert = some (regular 0 0o600 (3 ∷ []));
  key = some (regular 0 0o600 (4 ∷ []));
}

abbrev served : Owner
served = record owner { live = ("config.json", regular 7 0o600 (0 ∷ [])) ∷ owner.live }

-- A name longer than all that are there.
abbrev fresh : Owner → String
fresh s = long_name (total_length s.temps)

fresh_new : (s : Owner) → lookup (fresh s) s.temps ≡ none
fresh_new s = lookup-long (fresh s) s.temps (omega (arith, length-long_name (total_length s.temps)))

owner_install_total_example :
    let r =
      owner_install machine fresh
        (ok (3 ∷ []))
        (ok (4 ∷ []))
        "/var/lib/aura-server"
        7
        true
        (record { now = owner; past = []; commands = [] }) in
    (r.0 ≡ ok tt)
    × Pair (ok (3 ∷ [])) (ok (4 ∷ [])) r.1.now.live
    × (r.1.now.backup ≡ none)
    × (r.1.commands ≡ commands_of "/var/lib/aura-server" true)
unfolding lookup
owner_install_total_example =
    owner_install_total machine fresh (3 ∷ []) (4 ∷ []) "/var/lib/aura-server" 7 true owner []
      (record { allows = λ _. refl; works = λ _ _. refl }) fresh_new
      (record { own = refl; cert = refl; key = refl; no_backup = refl })

-- A renewal that stops after some changes, and one that finds its backup.
abbrev stopped : Renewal
stopped = record {
  machine = record { refuses = λ n. n == 30; succeeds = λ _ _. true };
  fresh = fresh;
  cert = ok (3 ∷ []);
  key = ok (4 ∷ []);
  root = "/var/lib/aura-server";
  uid = 7;
  active = true;
  commands = [];
}

abbrev repeated : Renewal
repeated = record stopped { cert = ok (5 ∷ []); key = ok (6 ∷ []) }

reached-IsWhole_example :
    IsWhole owner (repeated ∷ stopped ∷ []) (run repeated (run stopped owner).now).now
unfolding lookup
reached-IsWhole_example =
    reached-IsWhole owner (1 ∷ []) (2 ∷ []) (repeated ∷ stopped ∷ [])
      (run repeated (run stopped owner).now).now (inl (refl, refl))
      (later repeated (later stopped at_start (Memᴰ.head refl)) (Memᴰ.head refl))
