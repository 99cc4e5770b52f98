-- ===== src/Probe.antt =====
-- reachability_probe.py: an echo of one nonce over TCP and UDP, for a bounded time.
pub mod Receive
pub mod Taken
pub mod Bounds
pub mod Running
pub mod Clean
pub mod Command
mod Tests
use aura_server.Base.{
  ℕ, suc, zero, ◌+◌, ◌-◌, ◌*◌, String, Bool, true, false, not, ◌&&◌, ◌||◌, Option, none, some, List,
  [], ◌∷◌, ◌++◌, length, take, all, ltb, leb, ◌==◌, nat_eq, list_eq, is_hex, if◌then◌else◌, Error,
  Result, ok, err, ◌>>=◌, ◌>>◌, value_error,
}
use aura_server.Json.{ℤ, pos, negsuc, magnitude}
use aura_server.Address.{Address, Parser, ip_address}

pub data Kind : Type 0 where
  tcp udp : Kind

-- What the program does to the network: it opens a socket, binds it, sends an answer, closes a socket.
pub data Action : Type 0 where
  opened closed : Kind → Action
  bound : Kind → List ℕ → ℕ → Action
  sent : Kind → List ℕ → Action

-- `counts` and `sockets`, the actions so far, the latest first, and the monotonic clock in
-- milliseconds.
pub record State : Type 0 where
  pub sockets : List Kind
  pub tcp_count : ℕ
  pub udp_count : ℕ
  pub rejected : ℕ
  pub actions : List Action
  pub clock : ℕ

-- What a part of the program did: how it ended, and the state that it leaves.
abbrev pub Run : Type 0 → Type 0
Run A = Result A × State

abbrev pub act : Action → State → State
act a s = record s { actions = a ∷ s.actions }

abbrev pub reject : State → State
reject s = record s { rejected = suc s.rejected }

abbrev pub count : Kind → State → State
count tcp s = record s { tcp_count = suc s.tcp_count }
count udp s = record s { udp_count = suc s.udp_count }

-- Time that passes.
abbrev pub pass : ℕ → State → State
pass time s = record s { clock = s.clock + time }

-- The clock in milliseconds when the loop looks at it, and what `recv` then gives.
pub record Read : Type 0 where
  pub now : ℕ
  pub answer : Result (List ℕ)

-- A connection: when it was accepted, what its reads give, and how `sendall` ends.
pub record Connection : Type 0 where
  pub start : ℕ
  pub reads : ℕ → Read
  pub sendall : Result (Unit {0})

-- What `select` reports.
pub data Event : Type 0 where
  on_tcp : Result Connection → Event
  on_udp : Result (List ℕ) → Result (Unit {0}) → Event

-- One look at the clock and at `stop()`, and the events that `select` then reports. `lag` is the time
-- from the look before, or from the setting of `until`, to this one, less the sleeps of the program
-- itself: for `select`, for the answers, and for what a sleep takes longer.
pub record Round : Type 0 where
  pub lag : ℕ
  pub stopped : Bool
  pub events : List Event

-- The inner loop. `recv(n)` gives at most `n` bytes.
abbrev pub go_on : List ℕ → List ℕ → Result (List ℕ) → Result (List ℕ)
go_on got [] rest = ok got
go_on got (_ ∷ _) rest = rest

unfoldable pub receive : ℕ → Connection → ℕ → List ℕ → Result (List ℕ)
receive zero c i got = ok got
receive (suc fuel) c i got =
    if ltb (length got) 32 && ltb (c.reads i).now (c.start + 200)
    then ((c.reads i).answer >>= λ answer.
        let chunk = take (33 - length got) answer in
        go_on got chunk (receive fuel c (suc i) (got ++ chunk)))
    else ok got

-- The body of the inner `try`, and its `except OSError`.
abbrev pub answer_tcp : List ℕ → Connection → Result (List ℕ) → State → State
answer_tcp nonce c (err e) s = reject s
answer_tcp nonce c (ok got) s =
    if got == nonce
    then (elim c.sendall [
      | err _ ↦ reject (act (sent tcp nonce) s)
      | ok _ ↦ count tcp (act (sent tcp nonce) s)
    ])
    else reject s

abbrev pub answer_udp : List ℕ → List ℕ → Result (Unit {0}) → State → Run (Unit {0})
answer_udp nonce got sendto s =
    if got == nonce
    then (elim sendto [
      | err e ↦ (err e, act (sent udp nonce) s)
      | ok _ ↦ (ok tt, count udp (act (sent udp nonce) s))
    ])
    else (ok tt, reject s)

-- 33 reads are more than the inner loop can make.
unfoldable pub handle : List ℕ → Event → State → Run (Unit {0})
handle nonce (on_tcp (err e)) s = (err e, s)
handle nonce (on_tcp (ok c)) s = (ok tt, answer_tcp nonce c (receive 33 c 0 []) s)
handle nonce (on_udp (err e) sendto) s = (err e, s)
handle nonce (on_udp (ok got) sendto) s = answer_udp nonce (take 33 got) sendto s

-- The next part runs where the first did not raise.
abbrev pub and_then : Run (Unit {0}) → (State → Run (Unit {0})) → Run (Unit {0})
and_then (ok _, s) f = f s
and_then (err e, s) f = (err e, s)

-- After each event the program sleeps for ten milliseconds.
unfoldable pub handle_all : List ℕ → List Event → State → Run (Unit {0})
handle_all nonce [] s = (ok tt, s)
handle_all nonce (e ∷ es) s = and_then (handle nonce e s) (λ t. handle_all nonce es (pass 10 t))

-- The outer loop, for so many rounds at most.
unfoldable pub serve : ℕ → List ℕ → (ℕ → Round) → ℕ → ℕ → State → Run (Unit {0})
serve zero nonce rounds i until s = (ok tt, pass (rounds i).lag s)
serve (suc fuel) nonce rounds i until s =
    let rest = serve fuel nonce rounds (suc i) until in
    let looking = pass (rounds i).lag s in
    if ltb looking.clock until && not (rounds i).stopped
    then and_then (handle_all nonce (rounds i).events looking) rest
    else (ok tt, looking)

-- How the calls for one socket end.
pub record SocketCalls : Type 0 where
  pub create : Result (Unit {0})
  pub v6only : Result (Unit {0})
  pub bind : Result (Unit {0})
  pub listen : Result (Unit {0})
  pub register : Result (Unit {0})

abbrev pub listen_on : SocketCalls → Kind → Result (Unit {0})
listen_on c tcp = c.listen >> c.register
listen_on c udp = c.register

abbrev pub bound_socket :
    SocketCalls → Address → ℕ → Kind → State → Result (Unit {0}) → Run (Unit {0})
bound_socket c ip port kind s (err e) = (err e, s)
bound_socket c ip port kind s (ok _) = (listen_on c kind, act (bound kind ip.text port) s)

abbrev pub new_socket :
    SocketCalls → Address → ℕ → Kind → State → Result (Unit {0}) → Run (Unit {0})
new_socket c ip port kind s (err e) = (err e, s)
new_socket c ip port kind s (ok _) =
    bound_socket c ip port kind
      (act (opened kind) (record s { sockets = s.sockets ++ (kind ∷ []) }))
      ((if ip.version == 6 then c.v6only else ok tt) >> c.bind)

unfoldable pub open_socket : SocketCalls → Address → ℕ → Kind → State → Run (Unit {0})
open_socket c ip port kind s = new_socket c ip port kind s c.create

-- What the program meets on one run.
pub record Network : Type 0 where
  pub calls : Kind → SocketCalls
  pub ready : Result (Unit {0})
  pub start : ℕ
  pub rounds : ℕ → Round

-- `until` is set: the clock is at `start`.
abbrev pub at_clock : ℕ → State → State
at_clock time s = record s { clock = time }

-- The body of the outer `try`, with fuel for a round in each millisecond.
unfoldable pub serve_bound : List ℕ → Address → ℕ → ℕ → Network → State → Run (Unit {0})
serve_bound nonce ip port seconds net s = and_then (open_socket (net.calls tcp) ip port tcp s) (λ s.
    and_then (open_socket (net.calls udp) ip port udp s) (λ s.
      and_then (net.ready, s)
        (λ s.
          serve (1000 * seconds) nonce net.rounds 0 (net.start + 1000 * seconds)
            (at_clock net.start s))))

-- The `finally`
unfoldable pub close_all : List Kind → State → State
close_all [] s = s
close_all (kind ∷ kinds) s = close_all kinds (act (closed kind) s)

abbrev pub closing : Run (Unit {0}) → Run (Unit {0})
closing (r, s) = (r, close_all s.sockets s)

abbrev pub within : ℕ → ℕ → ℤ → Bool
within low high (pos n) = leb low n && leb n high
within low high (negsuc _) = false

-- `[a-f0-9]{32}`
abbrev pub is_nonce : List ℕ → Bool
is_nonce nonce = length nonce == 32 && all is_hex nonce

abbrev pub idle : State
idle = record { sockets = []; tcp_count = 0; udp_count = 0; rejected = 0; actions = []; clock = 0 }

abbrev pub refused : Error → Run (Unit {0})
refused e = (err e, idle)

-- `counts` are those of the state.
unfoldable pub probe : Parser → List ℕ → ℤ → List ℕ → ℤ → Network → Run (Unit {0})
probe parse address port nonce seconds net =
    if not (is_nonce nonce) || not (within 1 180 seconds) || not (within 1024 65535 port)
    then refused (value_error "Invalid bounded probe parameters")
    else elim (ip_address parse address) [
      | err e ↦ refused e
      | ok ip ↦ closing (serve_bound nonce ip (magnitude port) (magnitude seconds) net idle)
    ]

-- `bytes.strip()`
abbrev pub is_blank : ℕ → Bool
is_blank c = leb 9 c && leb c 13 || c == 32

unfoldable pub lstrip : List ℕ → List ℕ
lstrip [] = []
lstrip (x ∷ xs) = let rest = lstrip xs in if is_blank x then rest else x ∷ xs

abbrev pub keep_unless_last : ℕ → List ℕ → List ℕ
keep_unless_last x [] = if is_blank x then [] else x ∷ []
keep_unless_last x (y ∷ ys) = x ∷ y ∷ ys

unfoldable pub rstrip : List ℕ → List ℕ
rstrip [] = []
rstrip (x ∷ xs) = keep_unless_last x (rstrip xs)

-- The command, with what the read of the nonce file gives.
unfoldable pub main : Parser → List ℕ → ℤ → ℤ → Result (List ℕ) → Network → Run (Unit {0})
main parse address port seconds (err e) net = refused e
main parse address port seconds (ok raw) net =
    probe parse address port (rstrip (lstrip (take 66 raw))) seconds net
