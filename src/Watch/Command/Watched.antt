-- ===== src/Watch/Command/Watched.antt =====
-- What `main` of wan_watch.py writes and runs.
use aura_server.Base.{ℕ, ◌≡◌, ◌≢◌, Option, List, Error, Result, ok, err}
use aura_server.Json.{Value}
use aura_server.Script.{World, Machine}
use aura_server.Renew.State.{File}
use aura_server.Watch.Observe.{observe}
use aura_server.Watch.Enforce.{Marker, IsQuarantined}
use aura_server.Watch.Command.Run.{Sources}
use aura_server.Watch.Command.{router_text, expected_text, accept}

module _ (h : Machine) (from : Sources) (euid : ℕ) (config : Option File)
    (loads : List ℕ → Option Value) (w : World Marker) where
  -- The router and the address that the configuration names, as texts, and the address that the router shows.
  pub record IsObserved (expected observed : List ℕ) : Type 0 where
    pub router_value : Value
    pub expected_value : Value
    pub router : List ℕ
    pub accepted : accept euid config loads ≡ ok (router_value, expected_value)
    pub asked : router_text from.ip router_value ≡ ok router
    pub named : expected_text expected_value ≡ ok expected
    pub shown : (observe from.ip from.parse from.page from.router router).result ≡ ok observed

  pub data IsWatched (r : Result (Unit {0}) × World Marker) : Type 0 where
    failed : (e : Error) → r ≡ (err e, w) → IsWatched r
    matched : (address : List ℕ) → IsObserved address address → r ≡ (ok tt, w) → IsWatched r
    changed :
        (expected observed : List ℕ)
        → IsObserved expected observed
        → expected ≢ observed
        → IsQuarantined h w.commands r
        → IsWatched r
