-- ===== src/Watch/Command/Run.antt =====
-- `main` of wan_watch.py after its tests.
use aura_server.Base.{ℕ, Option, List, Result}
use aura_server.Json.{Value}
use aura_server.Address.{Parser}
use aura_server.Firewall.{Ipv4}
use aura_server.Script.{Machine, Script, lift, ◌>>=◌}
use aura_server.Renew.State.{File}
use aura_server.Watch.Table.{Event}
use aura_server.Watch.Observe.{Page, observe}
use aura_server.Watch.Enforce.{Marker, enforce}
use aura_server.Watch.Command.{router_text, expected_text, accept}

-- `ipaddress`, the HTML parser on the page's bytes, and the routers.
pub record Sources : Type 0 where
  pub ip : Ipv4
  pub parse : Parser
  pub page : List ℕ → Result (List Event)
  pub router : ℕ → Result Page

unfoldable pub watch : Machine → Sources → Value → Value → Script Marker (Unit {0})
watch h from router_value expected_value = do
  router ← lift (router_text from.ip router_value)
  observed ← lift (observe from.ip from.parse from.page from.router router).result
  expected ← lift (expected_text expected_value)
  enforce h from.parse expected observed

unfoldable pub main :
    Machine → Sources → ℕ → Option File → (List ℕ → Option Value) → Script Marker (Unit {0})
main h from euid config loads = do
  (router, expected) ← lift (accept euid config loads)
  watch h from router expected
