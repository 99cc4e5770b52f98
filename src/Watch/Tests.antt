-- ===== src/Watch/Tests.antt =====
-- Runs of wan_watch.py's functions, and the theorems at them.
use aura_server.Base.{
  Result, take, All, ℕ, ◌≡◌, refl, ◌++◌, String, true, false, Option, none, some, List, [], ◌∷◌,
  list_eq, nat_eq, codes, ok, ◌>>=◌, arith,
}
use aura_server.Firewall.{Ipv4}
use aura_server.Watch.Observe.{Page, observe, observe_lem}
use aura_server.Address.{IsPrivate, Address, Parser, public_ip}
use aura_server.Script.{World, Machine}
use aura_server.Json.{Value, str, object, end, field}
use aura_server.Prepare.Render.{number}
use aura_server.Renew.State.{File, regular}
use aura_server.Watch.Command.Run.{Sources}
use aura_server.Watch.Table.{Event, Rows, initial, start, stop, chars, feed, squeeze}
use aura_server.Watch.Table.Reads.{IsOpen, feed_total, table_events, cell_text}
use aura_server.Watch.Address.{label, value_of, check_version, observed_ipv4, observed_ipv4_lem}

abbrev events : List Event
events = start "tr" ∷ start "td" ∷ chars (codes "x") ∷ stop "td" ∷ stop "tr" ∷ stop "td" ∷ []

feed_total_example : (s : Rows) × (feed events initial ≡ ok s) × IsOpen s
feed_total_example = feed_total events initial (λ _. refl)

abbrev public_address : Address
public_address = record {
  version = 4;
  is_global = true;
  is_multicast = false;
  is_mapped = false;
  text = codes "198.51.100.7";
}

abbrev parser : Parser
parser value = some public_address

abbrev name_pieces : List (List ℕ)
name_pieces = label ∷ []

abbrev value_pieces : List (List ℕ)
value_pieces = codes " 198.51.100.7 " ∷ []

abbrev other_rows : List (List (List (List ℕ)))
other_rows = (name_pieces ∷ []) ∷ []

observed_ipv4_lem_example :
    observed_ipv4 parser
      (λ _. ok (table_events (other_rows ++ ((name_pieces ∷ value_pieces ∷ []) ∷ []))))
      []
    ≡ (public_ip parser (cell_text value_pieces) >>= check_version parser)
unfolding value_of squeeze
observed_ipv4_lem_example =
    observed_ipv4_lem parser
      (λ _. ok (table_events (other_rows ++ ((name_pieces ∷ value_pieces ∷ []) ∷ [])))) []
      other_rows [] name_pieces value_pieces (omega arith) refl (refl, tt) tt refl

abbrev machine : Machine
machine = record { refuses = λ _. false; succeeds = λ _ _. true }

abbrev world : World (Option String)
world = record { now = none; past = []; commands = [] }

abbrev ip : Ipv4
ip = record {
  address = λ _. some 0xc0a80102;
  network = λ _. none;
  show = λ _. [];
  show_network = λ _. [];
}

abbrev router : ℕ → Result Page
router _ = ok (record { status = 200; body = [] })

observe_lem_example :
    let o = observe ip parser (λ _. ok events) router [] in
    All IsPrivate o.asked
    × ((a : List ℕ)
        → o.result ≡ ok a
        → (address : ℕ) × (answer : Page) × (ip.address [] ≡ some address)
          × IsPrivate address
          × (router address ≡ ok answer)
          × (answer.status ≡ 200)
          × (observed_ipv4 parser (λ _. ok events) (take 131073 answer.body) ≡ ok a))
observe_lem_example = observe_lem ip parser (λ _. ok events) router []

abbrev from : Sources
from = record {
  ip = ip;
  parse = parser;
  page = λ _. ok (table_events ((name_pieces ∷ value_pieces ∷ []) ∷ []));
  router = router;
}

abbrev config : Option File
config = some (regular 0 0o600 [])

abbrev loads : List ℕ → Option Value
loads _ = some (
    object (
      field "version" (number 1)
        (field "routerIPv4" (str "192.168.1.2") (field "expectedIPv4" (str "198.51.100.8") end))))
