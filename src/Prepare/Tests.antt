-- ===== src/Prepare/Tests.antt =====
-- prepare.py on a small configuration, and the theorems at it.
use aura_server.Base.{
  ℕ, ◌≡◌, ◌↔◌, refl, true, Option, none, some, List, [], ◌∷◌, codes, ◌==◌, string_eq, list_eq,
  nat_eq, split, arith, Result, ok, err, value_error, if◌then◌else◌,
}
use aura_server.Base.Dict.{Dict, lookup}
use aura_server.Json.{Value, str, object, Fields, end, field, to_dict, value_eq}
use aura_server.Address.{is_private, in_network}
use aura_server.Script.{World, Machine}
use aura_server.Prepare.{is_label, check_hostname, hostname}
use aura_server.Prepare.Hostname.{IsHostname, hostname-eq-ok}
use aura_server.Prepare.Render.{
  Library, item_of, ipv4_address, check_public, server_id, check_addresses, check_config,
  name_hosts, Plan, plan_files, render, number,
}
use aura_server.Renew.Validate
use aura_server.Renew.Command.{derp}
use aura_server.Renew.Command.Prepared.{IsTaken, render-IsTaken}
use aura_server.Prepare.Planned.{IsChecked, AreNamed, render-eq-ok}
use aura_server.Prepare.Write.{Place, free, main, Exit, printed}
use aura_server.Prepare.Parts.{Files}
use aura_server.Prepare.Written.{IsComplete}
use aura_server.Prepare.Total.{willing, fresh, main_total}

abbrev library : Library
library = record {
  parse = λ _. none;
  ipv4 = λ s.
      if s == "203.0.113.7"
      then some 3405803783
      else if s == "203.0.113.8"
      then some 3405803784
      else if s == "192.168.1.2"
      then some 3232235778
      else none;
  is_global = λ _. true;
  show = λ _. "192.168.1.2";
  dumps = λ _. "{}";
}

abbrev fields : Fields
fields = field "version" (number 1) (
    field "domain" (str "example.org") (
      field "serverId" (str "0123456789abcdef0123456789abcdef") (
        field "derpIPv4" (str "203.0.113.7") (
          field "rendezvousIPv4" (str "203.0.113.8")
            (field "ownerLANIPv4" (str "192.168.1.2") (field "regionId" (number 900) end))))))

abbrev config : Dict Value
config = to_dict fields

abbrev planned : Plan
planned = record {
  given = record {
    domain = "example.org";
    id = "0123456789abcdef0123456789abcdef";
    derp_ip = str "203.0.113.7";
    rendezvous_ip = str "203.0.113.8";
    lan = 3232235778;
    region = 900;
  };
  derp = "relay.example.org";
  rendezvous = "pairing.example.org";
  owner = "0123456789abcdef0123456789abcdef.server.example.org";
}

abbrev files : Files
files = plan_files library planned

render_run : render library config ≡ ok files
unfolding render check_config name_hosts item_of hostname check_hostname is_label split server_id
    check_addresses check_public ipv4_address is_private in_network value_eq lookup
render_run = refl

-- One label, a reserved one, one of Tailscale.
hostname_refused :
    (hostname library.parse (str "example") ≡ err (value_error "Invalid DNS hostname"))
    × (hostname library.parse (str "a.test")
        ≡ err (value_error "A permanent non-Tailscale DNS hostname is required"))
    × (hostname library.parse (str "a.b.ts.net")
        ≡ err (value_error "A permanent non-Tailscale DNS hostname is required"))
    × (hostname library.parse (str "-a.org") ≡ err (value_error "Invalid DNS hostname"))
unfolding hostname check_hostname is_label split
hostname_refused = (refl, refl, refl, refl)

hostname-eq-ok_example :
    (hostname library.parse (str "relay.example.org") ≡ ok "relay.example.org") ↔ (
      (str "relay.example.org" ≡ str "relay.example.org")
      × IsHostname library.parse (codes "relay.example.org"))
hostname-eq-ok_example = hostname-eq-ok library.parse (str "relay.example.org") "relay.example.org"

render-eq-ok_example : (render library config ≡ ok files) ↔ (
    (p : Plan) × IsChecked library config p.given
    × AreNamed library p
    × (plan_files library p ≡ files))
render-eq-ok_example = render-eq-ok library config files

-- A machine that refuses the fifth change.
abbrev halting : Machine
halting = record { refuses = λ n. n == 5; succeeds = λ _ _. true }

abbrev loads : List ℕ → Option Value
loads _ = some (object fields)

abbrev finished : Result Exit × World Place
finished = main willing 0o644 library loads (ok (1 ∷ [])) fresh

main_total_example :
    (finished.0
      ≡ ok (printed "Operator inputs prepared; no services or authorization state changed"))
    × IsComplete free files finished.1.now
main_total_example = main_total 0o644 library loads (1 ∷ []) (omega arith) refl render_run

abbrev renew_library : Validate.Library
renew_library = record { parse = library.parse; text = λ _. ""; loads_chain = λ _ _. true }

render-IsTaken_example : IsTaken library renew_library files derp
render-IsTaken_example = render-IsTaken library renew_library config files refl render_run derp
