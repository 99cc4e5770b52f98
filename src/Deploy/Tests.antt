-- ===== src/Deploy/Tests.antt =====
-- A renewal that a service does not survive, and the theorem at it.
use aura_server.Base.{
  ◌≡◌, refl, false, not, some, [], ◌∷◌, ◌==◌, nat_eq, list_eq, string_eq, length, Result, ok, err,
  process_error,
}
use aura_server.Base.Dict.{lookup, insert, erase}
use aura_server.Script.{
  World, Machine, pure, throw, lift, gets, ◌>>=◌, try_except, for_each, change, command,
}
use aura_server.Script.Rules.{Seen, Ends}
use aura_server.Deploy.Site.{
  Site, real, folder, link, make_root, check_root, unlink, symlink, replace, make_folder, in_folder,
  rmdir, leads_to_folder, is_pair_name, find_previous,
}
use aura_server.Deploy.Publish.{
  sync, point, copy_into, restart_one, attempt, roll_back, is_outdated, retire, go_live, publish,
  services,
}
use aura_server.Deploy.Publish.Point.{served}
use aura_server.Deploy.Publish.Live.{Sight, Published}
use aura_server.Deploy.Publish.Atomic.{publish_atomic}
use aura_server.Base.{true, inr, String, ◌<>◌, none, arith}
use aura_server.Base.Length.{total_length, long_name, codes-append, length-long_name, lookup-long}
use aura_server.Base.{List}
use mathlib.Core.List.{Memᴰ}
use aura_server.Deploy.Returns.{deploy_total}
use aura_server.Script.Runs.{start as at_start, later}
use aura_server.Deploy.Publish.Runs.{Renewal, run, Serves, reached-Serves}
use aura_server.Json.{str, object, Fields, end, field}
use aura_server.Prepare.Render.{number}
use aura_server.Renew.State.{regular}
use aura_server.Renew.Validate.{
  Library, Snapshot, check_pair, check_parents, take_lock, resolve, host_name,
}
use aura_server.Address.{public_ip, ip_address}
use aura_server.Prepare.Render.{item_of}
use aura_server.Deploy.Configuration.{Inputs, Configured, accept, configuration, check_source}
use aura_server.Deploy.Command.{main}
use aura_server.Deploy.Validated.{IsValidated, main-IsValidated}

-- The second restart fails.
abbrev machine : Machine
machine = record { refuses = λ _. false; succeeds = λ before args. not (length before == 2) }

abbrev site : Site
site = record {
  root = real 0 0o700;
  items =
      ("current", link "pair-a")
      ∷ ("pair-a", folder (("fullchain.pem", 1 ∷ []) ∷ ("privkey.pem", 2 ∷ []) ∷ []))
      ∷ [];
}

abbrev start : World Site
start = record { now = site; past = []; commands = [] }

abbrev renewal : Result (Unit {0}) × World Site
renewal = publish machine 0 (λ _. "b") (ok (3 ∷ [])) (ok (4 ∷ [])) services start

renewal_run : renewal.0 ≡ err process_error
unfolding publish go_live copy_into point sync restart_one attempt roll_back retire is_outdated pure
    throw lift gets ◌>>=◌ try_except for_each change command make_root check_root unlink symlink
    replace make_folder in_folder rmdir leads_to_folder is_pair_name find_previous lookup insert
    erase
renewal_run = refl

-- The old pair is served again.
renewal_served : served renewal.1.now.items ≡ (some (1 ∷ []), some (2 ∷ []))
unfolding publish go_live copy_into point sync restart_one attempt roll_back retire is_outdated pure
    throw lift gets ◌>>=◌ try_except for_each change command make_root check_root unlink symlink
    replace make_folder in_folder rmdir leads_to_folder is_pair_name find_previous lookup insert
    erase served
renewal_served = refl

publish_atomic_example :
    Seen (Sight (ok (3 ∷ [])) (ok (4 ∷ [])) site.items) renewal.1
    × Ends
        (λ (_ : Unit {0}). Published (ok (3 ∷ [])) (ok (4 ∷ [])) site.items)
        (Sight (ok (3 ∷ [])) (ok (4 ∷ [])) site.items)
        renewal
publish_atomic_example =
    publish_atomic machine 0 (λ _. "b") (ok (3 ∷ [])) (ok (4 ∷ [])) services site
      (λ e. absurd (cc e)) []

abbrev fields : Fields
fields =
    field "version" (number 1)
      (field "publicIP" (str "203.0.113.7") (field "certName" (str "home") end))

abbrev library : Library
library = record {
  parse = λ text. some (record {
    version = 4;
    is_global = true;
    is_multicast = false;
    is_mapped = false;
    text = text;
  });
  text = λ _. "203.0.113.7";
  loads_chain = λ _ _. true;
}

abbrev found : Inputs
found = record {
  euid = 0;
  config = some (regular 0 0o600 []);
  contained = true;
  parents = (0, 0o755) ∷ [];
  loads = λ _. some (object fields);
  renewed = "/etc/letsencrypt/live/home";
  lock = ok (regular 0 0o600 []);
  flock = ok tt;
  cert = record { file = some (regular 0 0o644 (3 ∷ [])); archived = true };
  key = record { file = some (regular 0 0o600 (4 ∷ [])); archived = true };
  snapshot =
      ok (record { cert_path = "/run/aura-ip-tls-x/fullchain.pem"; cert = 3 ∷ []; key = 4 ∷ [] });
}

-- The third command, `is-active` of the first service, fails.
main-IsValidated_example :
    IsValidated machine library site found (main machine library (λ _. "b") found start)
main-IsValidated_example =
    main-IsValidated machine library (λ _. "b") site found (λ e. absurd (cc e))

abbrev configured : Configured
configured = record { public = "203.0.113.7"; lineage = "home"; owner = false }

abbrev validated : Snapshot
validated = record { cert_path = "/run/aura-ip-tls-x/fullchain.pem"; cert = 3 ∷ []; key = 4 ∷ [] }

-- A machine that refuses nothing, and a `mkdtemp` whose names are longer than all the names that are taken.
abbrev willing_machine : Machine
willing_machine = record { refuses = λ _. false; succeeds = λ _ _. true }

abbrev fresh : Site → String
fresh s = long_name (total_length s.items)

fresh_new : (s : Site) → lookup ("pair-" <> fresh s) s.items ≡ none
fresh_new s =
    lookup-long ("pair-" <> fresh s) s.items
      (omega (arith, codes-append "pair-" (fresh s), length-long_name (total_length s.items)))

accepted_run : accept library found ≡ ok (configured, validated)
unfolding accept configuration check_parents item_of public_ip ip_address take_lock resolve
    check_source lookup
accepted_run = refl

validated_run : check_pair library validated "203.0.113.7" true ≡ ok "203.0.113.7"
unfolding check_pair host_name public_ip ip_address
validated_run = refl

deploy_total_example :
    let r = main willing_machine library fresh found start in
    (r.0 ≡ ok tt) × Published (ok (3 ∷ [])) (ok (4 ∷ [])) site.items r.1.now
unfolding check_root find_previous lookup is_pair_name leads_to_folder
deploy_total_example =
    deploy_total willing_machine library fresh site found configured validated "203.0.113.7"
      (record { allows = λ _. refl; works = λ _ _. refl }) fresh_new
      (record { root = inr refl; previous = (some "pair-a", refl); next = tt }) accepted_run
      validated_run

-- A renewal that is rolled back, and one that a crash ends before its last change.
abbrev failed : Renewal
failed = record {
  machine = machine;
  euid = 0;
  suffix = λ _. "b";
  cert = ok (3 ∷ []);
  key = ok (4 ∷ []);
  active = services;
  commands = [];
}

abbrev crashed : Renewal
crashed = record failed {
  machine = willing_machine;
  suffix = fresh;
  cert = ok (5 ∷ []);
  key = ok (6 ∷ []);
}

abbrev before_last : Site → List Site → Site
before_last s [] = s
before_last s (t ∷ _) = t

before_last-Mem : (s : Site) (l : List Site) → Memᴰ (before_last s l) (s ∷ l)
before_last-Mem s [] = Memᴰ.head refl
before_last-Mem s (t ∷ _) = Memᴰ.tail (Memᴰ.head refl)

reached-Serves_example :
    let w = run crashed (run failed site).now in
    Serves (served site.items) (crashed ∷ failed ∷ []) (served (before_last w.now w.past).items)
reached-Serves_example =
    let w = run crashed (run failed site).now in
    reached-Serves site (crashed ∷ failed ∷ []) (before_last w.now w.past)
      (λ gone. absurd (cc gone))
      (later crashed (later failed at_start (Memᴰ.head refl)) (before_last-Mem w.now w.past))
