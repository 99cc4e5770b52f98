-- ===== src/Probe/Taken.antt =====
-- One round of reachability_probe.py: how many messages it takes in, and how long it sleeps.
use aura_server.Base.{
  ℕ, suc, ◌+◌, ◌*◌, ◌≤◌, ◌≡◌, ap, inl, inr, refl, true, List, [], ◌∷◌, length, ◌==◌, list_eq,
  nat_eq, Result-cases, Bool-cases, Result, ok, err, arith,
}
use aura_server.Probe.{
  State, Connection, Event, on_tcp, on_udp, Run, answer_tcp, answer_udp, receive, handle,
  handle_all, and_then, pass, within,
}
use aura_server.Json.{ℤ, pos, negsuc, magnitude}

-- The messages that were taken in.
abbrev pub taken : State → ℕ
taken s = s.tcp_count + s.udp_count + s.rejected

answer_tcp-taken :
    (nonce : List ℕ) (c : Connection) (r : Result (List ℕ)) (s : State)
    → (taken (answer_tcp nonce c r s) ≤ suc (taken s)) × ((answer_tcp nonce c r s).clock ≡ s.clock)
answer_tcp-taken nonce c (err e) s = (omega arith, refl)
answer_tcp-taken nonce c (ok got) s = elim (Bool-cases (got == nonce)) [
  | inr f ↦ rw f (omega arith, refl)
  | inl f ↦ elim (Result-cases c.sendall) [
    | inl (_, g) ↦ rw (f, g) (omega arith, refl)
    | inr (_, g) ↦ rw (f, g) (omega arith, refl)
  ]
]

answer_udp-taken :
    (nonce got : List ℕ) (sendto : Result (Unit {0})) (s : State)
    → (taken (answer_udp nonce got sendto s).1 ≤ suc (taken s))
      × ((answer_udp nonce got sendto s).1.clock ≡ s.clock)
answer_udp-taken nonce got sendto s = elim (Bool-cases (got == nonce)) [
  | inr f ↦ rw f (omega arith, refl)
  | inl f ↦ elim (Result-cases sendto) [
    | inl (_, g) ↦ rw (f, g) (omega arith, refl)
    | inr (_, g) ↦ rw (f, g) (omega arith, refl)
  ]
]

handle-taken :
    (nonce : List ℕ) (e : Event) (s : State)
    → (taken (handle nonce e s).1 ≤ suc (taken s)) × ((handle nonce e s).1.clock ≡ s.clock)
unfolding handle
handle-taken nonce (on_tcp (err e)) s = (omega arith, refl)
handle-taken nonce (on_tcp (ok c)) s = answer_tcp-taken nonce c (receive 33 c 0 []) s
handle-taken nonce (on_udp (err e) sendto) s = (omega arith, refl)
handle-taken nonce (on_udp (ok got) sendto) s = answer_udp-taken nonce _ sendto s

pub and_then-taken :
    (r : Run (Unit {0})) (f : State → Run (Unit {0})) (m n : ℕ)
    → taken r.1 ≤ m
    → m ≤ n
    → ((s : State) → taken s ≤ m → taken (f s).1 ≤ n)
    → taken (and_then r f).1 ≤ n
and_then-taken (ok _, s) f m n h k g = g s h
and_then-taken (err _, s) f m n h k g = omega (arith, h, k)

and_then-ok :
    (r : Run (Unit {0})) (f : State → Run (Unit {0})) (t : State)
    → and_then r f ≡ (ok tt, t)
    → f r.1 ≡ (ok tt, t)
and_then-ok (ok _, s) f t h = h
and_then-ok (err e, s) f t h = absurd (cc h)

pub and_then_same :
    (r : Run (Unit {0})) (f g : State → Run (Unit {0}))
    → ((s : State) → r ≡ (ok tt, s) → f s ≡ g s)
    → and_then r f ≡ and_then r g
and_then_same (ok _, s) f g h = h s refl
and_then_same (err _, s) f g h = refl

pub handle_all-taken :
    (nonce : List ℕ) (es : List Event) (s : State)
    → taken (handle_all nonce es s).1 ≤ taken s + length es
unfolding handle_all
handle_all-taken nonce [] s = omega arith
handle_all-taken nonce (e ∷ es) s =
    and_then-taken (handle nonce e s) _ (suc (taken s)) (taken s + length (e ∷ es))
      (handle-taken nonce e s).0 (omega arith)
      (λ t small. omega (arith, small, handle_all-taken nonce es (pass 10 t)))

-- A round that raises nothing takes ten milliseconds for each event, by the program's own sleeps.
pub handle_all-clock :
    (nonce : List ℕ) (es : List Event) (s t : State)
    → handle_all nonce es s ≡ (ok tt, t)
    → t.clock ≡ s.clock + 10 * length es
unfolding handle_all
handle_all-clock nonce [] s t h =
    let same : s.clock ≡ t.clock = ap (λ r. r.1.clock) h in omega (arith, same)
handle_all-clock nonce (e ∷ es) s t h =
    let rest =
      handle_all-clock nonce es (pass 10 (handle nonce e s).1) t
        (and_then-ok (handle nonce e s) (λ t. handle_all nonce es (pass 10 t)) t h) in
    let same = (handle-taken nonce e s).1 in omega (arith, rest, same)

pub within-le : (low high : ℕ) (z : ℤ) → within low high z ≡ true → magnitude z ≤ high
within-le low high (pos n) h = ground (arith, h)
within-le low high (negsuc n) h = absurd (cc h)
