-- ===== src/Probe/Bounds.antt =====
-- The outer loop of the probe: how long it runs, and how much it answers.
use aura_server.Base.{
  ℕ, suc, zero, ◌+◌, ◌*◌, ◌≤◌, ◌<◌, ◌≡◌, ap, inl, inr, refl, false, not, ◌&&◌, List, [], ◌∷◌,
  length, ltb, list_eq, nat_eq, Result-cases, Bool-cases, Result, ok, err, arith, ◌||◌,
}
use aura_server.Probe.{
  State, Kind, tcp, udp, Connection, Event, Round, Run, act, receive, handle_all, and_then, serve,
  Network, SocketCalls, bound_socket, new_socket, open_socket, serve_bound, at_clock, pass, closed,
  close_all, within, is_nonce, idle, probe,
}
use aura_server.Probe.Receive.{receive_fuel}
use aura_server.Json.{ℤ, magnitude}
use aura_server.Address.{Address, Parser, ip_address}
use aura_server.Probe.Taken.{
  taken, and_then-taken, and_then_same, handle_all-taken, handle_all-clock, within-le,
}

-- The two sockets give at most two events a round.
abbrev pub Few : (ℕ → Round) → Type 0
Few rounds = (i : ℕ) → length (rounds i).events ≤ 2

-- The clock goes on while the loop runs: in a round without events and the sleeps after them, `select`
-- and the looks at the clock take time.
abbrev pub Ticks : (ℕ → Round) → Type 0
Ticks rounds = (i : ℕ) → 0 < length (rounds i).events + (rounds (suc i)).lag

module _ (nonce : List ℕ) (rounds : ℕ → Round) (start seconds : ℕ) where
  -- So far each message has taken ten milliseconds.
  abbrev IsPaced : State → Type 0
  IsPaced s = start + 10 * taken s ≤ s.clock

  handle_all-IsPaced :
      (es : List Event) (s t : State) → IsPaced s → handle_all nonce es s ≡ (ok tt, t) → IsPaced t
  handle_all-IsPaced es s t h g =
      let count = handle_all-taken nonce es s in
      let same : taken (handle_all nonce es s).1 ≡ taken t = ap (λ r. taken r.1) g in
      omega (arith, h, count, same, handle_all-clock nonce es s t g)

  -- The next part of a run starts where the first part ended well.
  and_then-few :
      (r : Run (Unit {0})) (f : State → Run (Unit {0})) (n : ℕ)
      → ((t : State) → r ≡ (ok tt, t) → IsPaced t)
      → taken r.1 ≤ n
      → ((t : State) → IsPaced t → taken t ≤ n → taken (f t).1 ≤ n)
      → taken (and_then r f).1 ≤ n
  and_then-few (ok _, s) f n h k g = g s (h s refl) k
  and_then-few (err e, s) f n h k g = k

  serve-taken :
      (fuel i : ℕ) (s : State)
      → Few rounds
      → IsPaced s
      → taken s ≤ 100 * seconds + 1
      → taken (serve fuel nonce rounds i (start + 1000 * seconds) s).1 ≤ 100 * seconds + 1
  unfolding serve
  serve-taken zero i s few paced small = small
  serve-taken (suc fuel) i s few paced small =
      let looking = pass (rounds i).lag s in
      elim (Bool-cases (ltb looking.clock (start + 1000 * seconds) && not (rounds i).stopped)) [
        | inr e ↦ rw e small
        | inl e ↦
            let early : looking.clock < start + 1000 * seconds = ground (arith, e) in
            let es = (rounds i).events in
            let count = handle_all-taken nonce es looking in
            let paced' : IsPaced looking = omega (arith, paced) in
            rw e (
              and_then-few (handle_all nonce es looking) _ (100 * seconds + 1)
                (λ t g. handle_all-IsPaced es looking t paced' g)
                (omega (arith, count, few i, early, paced'))
                (λ t p q. serve-taken fuel (suc i) t few p q))
      ]

  -- From one round on, two amounts of fuel that reach the end of the time give the same.
  serve_fuel :
      (m n i : ℕ) (s : State)
      → Ticks rounds
      → start + 1000 * seconds ≤ m + (s.clock + (rounds i).lag)
      → start + 1000 * seconds ≤ n + (s.clock + (rounds i).lag)
      → serve m nonce rounds i (start + 1000 * seconds) s
        ≡ serve n nonce rounds i (start + 1000 * seconds) s
  unfolding serve
  serve_fuel zero zero i s t h k = refl
  serve_fuel zero (suc n) i s t h k =
      let late : ltb (s.clock + (rounds i).lag) (start + 1000 * seconds) ≡ false =
        ground (arith, h) in
      rw late refl
  serve_fuel (suc m) zero i s t h k =
      let late : ltb (s.clock + (rounds i).lag) (start + 1000 * seconds) ≡ false =
        ground (arith, k) in
      rw late refl
  serve_fuel (suc m) (suc n) i s t h k =
      let looking = pass (rounds i).lag s in
      elim (Bool-cases (ltb looking.clock (start + 1000 * seconds) && not (rounds i).stopped)) [
        | inr e ↦ rw e refl
        | inl e ↦ rw e (
            and_then_same (handle_all nonce (rounds i).events looking) _ _ (λ u g.
              let slept = handle_all-clock nonce (rounds i).events looking u g in
              serve_fuel m n (suc i) u t (omega (arith, h, slept, t i))
                (omega (arith, k, slept, t i))))
      ]

-- Both loops of the probe end. 33 reads are enough for a connection, and a round for each millisecond is
-- enough for a run, where the clock does not stand still between two rounds, of which the first
-- handles no event: more fuel changes nothing.
pub probe_ends :
    (nonce : List ℕ) (net : Network) (c : Connection) (seconds reads more : ℕ) (s : State)
    → net.start ≤ s.clock
    → Ticks net.rounds
    → 33 ≤ reads
    → 1000 * seconds ≤ more
    → let until = net.start + 1000 * seconds in
      (receive reads c 0 [] ≡ receive 33 c 0 [])
      × (serve more nonce net.rounds 0 until s ≡ serve (1000 * seconds) nonce net.rounds 0 until s)
probe_ends nonce net c seconds reads more s begun ticks enough long = (
  receive_fuel c reads 33 0 [] (omega (arith, enough)) (omega arith),
  serve_fuel nonce net.rounds net.start seconds more (1000 * seconds) 0 s ticks
      (omega (arith, begun, long)) (omega (arith, begun)),
)

bound_socket-taken :
    (c : SocketCalls) (ip : Address) (port : ℕ) (kind : Kind) (s : State) (r : Result (Unit {0}))
    → taken (bound_socket c ip port kind s r).1 ≡ taken s
bound_socket-taken c ip port kind s (err e) = refl
bound_socket-taken c ip port kind s (ok _) = refl

new_socket-taken :
    (c : SocketCalls) (ip : Address) (port : ℕ) (kind : Kind) (s : State) (r : Result (Unit {0}))
    → taken (new_socket c ip port kind s r).1 ≡ taken s
new_socket-taken c ip port kind s (err e) = refl
new_socket-taken c ip port kind s (ok _) = bound_socket-taken c ip port kind _ _

open_socket-taken :
    (c : SocketCalls) (ip : Address) (port : ℕ) (kind : Kind) (s : State)
    → taken (open_socket c ip port kind s).1 ≡ taken s
unfolding open_socket
open_socket-taken c ip port kind s = new_socket-taken c ip port kind s c.create

close_all-taken : (kinds : List Kind) (s : State) → taken (close_all kinds s) ≡ taken s
unfolding close_all
close_all-taken [] s = refl
close_all-taken (kind ∷ kinds) s = close_all-taken kinds (act (closed kind) s)

serve_bound-taken :
    (nonce : List ℕ) (ip : Address) (port seconds : ℕ) (net : Network)
    → Few net.rounds
    → taken (serve_bound nonce ip port seconds net idle).1 ≤ 100 * seconds + 1
unfolding serve_bound
serve_bound-taken nonce ip port seconds net few =
    and_then-taken (open_socket (net.calls tcp) ip port tcp idle) _ 0 (100 * seconds + 1)
      (omega (arith, open_socket-taken (net.calls tcp) ip port tcp idle)) (omega arith)
      (λ s none_yet.
        and_then-taken (open_socket (net.calls udp) ip port udp s) _ 0 (100 * seconds + 1)
          (omega (arith, open_socket-taken (net.calls udp) ip port udp s, none_yet)) (omega arith)
          (λ t still_none.
            and_then-taken (net.ready, t) _ 0 (100 * seconds + 1) still_none (omega arith)
              (λ u none_now.
                serve-taken nonce net.rounds net.start seconds (1000 * seconds) 0
                  (at_clock net.start u) few (omega (arith, none_now)) (omega (arith, none_now)))))

-- The work is bounded however the port is flooded: where the two sockets give at most two events a
-- round, whatever the network does and however long it takes, a run takes in at most 100 messages a
-- second and one more, and at most 18001 in all, since the program sleeps after each.
pub probe-taken :
    (parse : Parser) (address nonce : List ℕ) (port seconds : ℤ) (net : Network)
    → Few net.rounds
    → let s = (probe parse address port nonce seconds net).1 in
      (taken s ≤ 100 * magnitude seconds + 1) × (taken s ≤ 18001)
unfolding probe
probe-taken parse address nonce port seconds net few_events =
    elim (Bool-cases
      (not (is_nonce nonce) || not (within 1 180 seconds) || not (within 1024 65535 port))) [
        | inl e ↦ rw e (omega arith, omega arith)
        | inr e ↦ elim (Result-cases (ip_address parse address)) [
          | inr (x, f) ↦ rw (e, f) (omega arith, omega arith)
          | inl (ip, f) ↦
              let run = serve_bound nonce ip (magnitude port) (magnitude seconds) net idle in
              let all_closed = close_all-taken run.1.sockets run.1 in
              let few =
                serve_bound-taken nonce ip (magnitude port) (magnitude seconds) net few_events in
              let short = within-le 1 180 seconds (ground (arith, e)) in
              rw (e, f) (omega (arith, all_closed, few), omega (arith, all_closed, few, short))
        ]
      ]
