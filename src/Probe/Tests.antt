-- ===== src/Probe/Tests.antt =====
-- Runs of the probe, and the theorems at them.
use aura_server.Base.{
  ℕ, suc, zero, ◌+◌, ◌≤◌, ◌≡◌, refl, ◌⊎◌, true, false, none, some, List, [], ◌∷◌, codes, ◌==◌,
  list_eq, nat_eq, Result, ok, if◌then◌else◌, arith,
}
use aura_server.Json.{pos}
use aura_server.Address.{Address, Parser}
use aura_server.Probe.{
  State, sent, tcp, Connection, on_tcp, on_udp, Round, SocketCalls, Network, Run, act, count,
  receive, handle, serve, idle, probe,
}
use aura_server.Probe.Receive.{handle-joined}
use aura_server.Probe.Taken.{taken}
use aura_server.Probe.Bounds.{Few, Ticks, probe_ends, probe-taken}
use aura_server.Probe.Clean.{IsBounded, IsShut, probe-IsShut}

abbrev nonce : List ℕ
nonce = codes "0123456789abcdef0123456789abcdef"

abbrev address : Address
address = record {
  version = 4;
  is_global = true;
  is_multicast = false;
  is_mapped = false;
  text = codes "192.0.2.7";
}

abbrev parse : Parser
parse text = if text == codes "192.0.2.7" then some address else none

abbrev calls : SocketCalls
calls = record { create = ok tt; v6only = ok tt; bind = ok tt; listen = ok tt; register = ok tt }

abbrev pieces : List (List ℕ)
pieces = codes "0123456789" ∷ codes "abcdef0123456789abcdef" ∷ []

abbrev answers_of : List (List ℕ) → ℕ → Result (List ℕ)
answers_of [] i = ok []
answers_of (p ∷ ps) zero = ok p
answers_of (p ∷ ps) (suc i) = answers_of ps i

abbrev connection : Connection
connection = record {
  start = 1000;
  reads = λ i. record { now = 1000 + i; answer = answers_of pieces i };
  sendall = ok tt;
}

-- A nonce over TCP and another text over UDP in the first round, nothing afterwards.
abbrev rounds : ℕ → Round
rounds zero = record {
  lag = 0;
  stopped = false;
  events = on_tcp (ok connection) ∷ on_udp (ok (codes "hello")) (ok tt) ∷ [];
}
rounds (suc i) = record { lag = 200; stopped = false; events = [] }

abbrev net : Network
net = record { calls = λ _. calls; ready = ok tt; start = 1000; rounds = rounds }

abbrev probing : Run (Unit {0})
probing = probe parse (codes "192.0.2.7") (pos 46381) nonce (pos 1) net

abbrev counts : State → ℕ × ℕ × ℕ
counts s = (s.tcp_count, s.udp_count, s.rejected)

receive_run : receive 33 connection 0 [] ≡ ok nonce
unfolding receive
receive_run = refl

handle-joined_example :
    handle nonce (on_tcp (ok connection)) idle ≡ (ok tt, count tcp (act (sent tcp nonce) idle))
handle-joined_example =
    handle-joined nonce connection pieces idle
      (omega arith, refl, omega arith, (omega arith, refl, omega arith, tt)) refl refl

few : Few rounds
few zero = omega arith
few (suc i) = omega arith

ticks : Ticks rounds
ticks zero = omega arith
ticks (suc i) = omega arith

-- The clock of a run that is about to start.
abbrev starting : State
starting = record idle { clock = 1000 }

probe_ends_example :
    (receive 40 connection 0 [] ≡ receive 33 connection 0 [])
    × (serve 5000 nonce rounds 0 2000 starting ≡ serve 1000 nonce rounds 0 2000 starting)
probe_ends_example =
    probe_ends nonce net connection 1 40 5000 starting (omega arith) ticks (omega arith)
      (omega arith)

probe-taken_example : (taken probing.1 ≤ 101) × (taken probing.1 ≤ 18001)
probe-taken_example = probe-taken parse (codes "192.0.2.7") nonce (pos 46381) (pos 1) net few

probe-IsShut_example :
    (probing.1 ≡ idle)
    ⊎ ((ip : Address) × IsBounded parse (codes "192.0.2.7") (pos 46381) nonce (pos 1) ip
        × IsShut nonce ip.text 46381 probing.1)
probe-IsShut_example = probe-IsShut parse (codes "192.0.2.7") nonce (pos 46381) (pos 1) net
