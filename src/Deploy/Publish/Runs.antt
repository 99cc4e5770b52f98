-- ===== src/Deploy/Publish/Runs.antt =====
-- Renewals by ip_deploy.py's `publish` one after the other, each of which a crash may end.
use aura_server.Base.{
  ℕ, ◌≡◌, Option, some, ok, sym, inl, inr, String, List, [], ◌∷◌, All, All-map, All-zip, Result,
}
use mathlib.Core.Path.{subst}
use aura_server.Script.{World, Machine}
use aura_server.Script.Runs.{states, Reached, Reached-induct}
use aura_server.Deploy.Site.{Site}
use aura_server.Deploy.Publish.{publish}
use aura_server.Deploy.Publish.Point.{served}
use aura_server.Deploy.Publish.Live.{Sight}
use aura_server.Deploy.Publish.Atomic.{publish_atomic}
use aura_server.Deploy.Publish.Rooted.{IsRooted, publish-IsRooted}

-- One call of `publish`: who runs it, what the system and the services do, and what it is given.
pub record Renewal : Type 0 where
  pub machine : Machine
  pub euid : ℕ
  pub suffix : Site → String
  pub cert : Result (List ℕ)
  pub key : Result (List ℕ)
  pub active : List String
  pub commands : List (List String)

abbrev pub run : Renewal → Site → World Site
run r s =
    (publish r.machine r.euid r.suffix r.cert r.key r.active
      (record { now = s; past = []; commands = r.commands })).1

-- The pair that a client reads: the certificate and the key, each if it is there.
abbrev pub ServedPair : Type 0
ServedPair = Option (List ℕ) × Option (List ℕ)

-- What renewals do to the served pair, as their users see it: one renewal leaves it, or puts its own in its
-- place at once.
pub data Serves (first : ServedPair) : List Renewal → ServedPair → Type 0 where
  untouched : Serves first [] first
  left :
      {rs : List Renewal} {p : ServedPair} (r : Renewal)
      → Serves first rs p
      → Serves first (r ∷ rs) p
  renewed :
      {rs : List Renewal} {p : ServedPair} {cert key : List ℕ} (r : Renewal)
      → Serves first rs p
      → r.cert ≡ ok cert
      → r.key ≡ ok key
      → Serves first (r ∷ rs) (some cert, some key)

Serves-step :
    (first : ServedPair) (rs : List Renewal) (r : Renewal) (s t : Site)
    → Serves first rs (served s.items)
    → Sight r.cert r.key s.items t
    → Serves first (r ∷ rs) (served t.items)
Serves-step first rs r s t before (inl same) =
    subst (Serves first (r ∷ rs)) (sym same) (left r before)
Serves-step first rs r s t before (inr (cert, key, is_cert, is_key, at)) =
    subst (Serves first (r ∷ rs)) (sym at) (renewed r before is_cert is_key)

module _ (r : Renewal) (s : Site) (rooted : IsRooted s) where
  run-Sight : All (Sight r.cert r.key s.items) (states (run r s))
  run-Sight = (publish_atomic r.machine r.euid r.suffix r.cert r.key r.active s rooted r.commands).0

  run-IsRooted : All IsRooted (states (run r s))
  run-IsRooted =
      ((publish-IsRooted r.machine r.euid r.suffix r.cert r.key r.active).at
        (record { now = s; past = []; commands = r.commands }) (rooted, tt) rooted).0

abbrev IsSound : Site → List Renewal → Site → Type 0
IsSound first rs s = IsRooted s × Serves (served first.items) rs (served s.items)

run-IsSound :
    (first : Site) (rs : List Renewal) (r : Renewal) (s : Site)
    → IsSound first rs s
    → All (IsSound first (r ∷ rs)) (states (run r s))
run-IsSound first rs r s (rooted, serves) =
    let seen = run-Sight r s rooted in
    All-map _ (IsSound first (r ∷ rs))
      (λ t (rooted', sight). (rooted', Serves-step (served first.items) rs r s t serves sight))
      (states (run r s))
      (All-zip IsRooted (Sight r.cert r.key s.items) (states (run r s)) (run-IsRooted r s rooted)
        seen)

-- Renewals follow one another, each with its own sources and services, each on a system that refuses
-- whatever calls it likes, and a crash may end each at any state it passes, from which the next one
-- starts. To those who read the served pair every such course is one of the register `Serves`: each
-- renewal left the pair as it was, or put its own whole pair in its place. The directory of an absent root is
-- taken to list nothing at first.
pub reached-Serves :
    (first : Site) (rs : List Renewal) (s : Site)
    → IsRooted first
    → Reached run first rs s
    → Serves (served first.items) rs (served s.items)
reached-Serves first rs s rooted reached =
    (Reached-induct run first (IsSound first) (rooted, untouched) (run-IsSound first) rs s
      reached).1
