-- ===== src/Probe/Running.antt =====
-- What the probe of reachability_probe.py has done while it runs.
use aura_server.Base.{
  ℕ, suc, zero, ◌+◌, ◌*◌, ◌≤◌, ◌≡◌, ap, refl, inl, inr, not, List, [], ◌∷◌, ◌++◌, All, ltb, ◌==◌,
  list_eq, nat_eq, Bool-cases, Result-cases, Result, ok, err, arith, ◌&&◌,
}
use aura_server.Address.{Address}
use aura_server.Probe.{
  State, Kind, tcp, udp, Action, opened, closed, bound, sent, Connection, Event, on_tcp, on_udp,
  Round, Run, act, count, reject, answer_tcp, answer_udp, receive, handle, handle_all, and_then,
  serve, at_clock, pass, Network, SocketCalls, bound_socket, new_socket, open_socket, serve_bound,
  idle,
}

-- The sockets that were opened and those that were closed, in order.
abbrev pub opens : List Action → List Kind
opens [] = []
opens (opened k ∷ as') = opens as' ++ (k ∷ [])
opens (_ ∷ as') = opens as'

abbrev pub closes : List Action → List Kind
closes [] = []
closes (closed k ∷ as') = closes as' ++ (k ∷ [])
closes (_ ∷ as') = closes as'

-- The answers that were sent.
abbrev one_if_same : Kind → Kind → ℕ
one_if_same tcp tcp = 1
one_if_same udp udp = 1
one_if_same _ _ = 0

abbrev pub answers : Kind → List Action → ℕ
answers k [] = 0
answers k (sent j _ ∷ as') = one_if_same k j + answers k as'
answers k (_ ∷ as') = answers k as'

-- Sockets are bound to the one address and port, and only the nonce is sent.
abbrev pub IsPermitted : List ℕ → List ℕ → ℕ → Action → Type 0
IsPermitted nonce text port (opened k) = Unit
IsPermitted nonce text port (closed k) = Unit
IsPermitted nonce text port (bound k t p) = (t ≡ text) × (p ≡ port)
IsPermitted nonce text port (sent k got) = got ≡ nonce

module _ (nonce text : List ℕ) (port : ℕ) where
  pub record IsRunning (s : State) : Type 0 where
    pub tracked : opens s.actions ≡ s.sockets
    pub none_closed : closes s.actions ≡ []
    pub permitted : All (IsPermitted nonce text port) s.actions
    pub tcp_answers : s.tcp_count ≤ answers tcp s.actions
    pub udp_answers : s.udp_count ≤ answers udp s.actions

  sent-IsRunning : (k : Kind) (s : State) → IsRunning s → IsRunning (act (sent k nonce) s)
  sent-IsRunning k s h = record {
    tracked = h.tracked;
    none_closed = h.none_closed;
    permitted = (refl, h.permitted);
    tcp_answers = omega (arith, h.tcp_answers);
    udp_answers = omega (arith, h.udp_answers);
  }

  reject-IsRunning : (s : State) → IsRunning s → IsRunning (reject s)
  reject-IsRunning s h = record {
    tracked = h.tracked;
    none_closed = h.none_closed;
    permitted = h.permitted;
    tcp_answers = h.tcp_answers;
    udp_answers = h.udp_answers;
  }

  -- Nothing of this is about the clock.
  at_clock-IsRunning : (time : ℕ) (s : State) → IsRunning s → IsRunning (at_clock time s)
  at_clock-IsRunning time s h = record {
    tracked = h.tracked;
    none_closed = h.none_closed;
    permitted = h.permitted;
    tcp_answers = h.tcp_answers;
    udp_answers = h.udp_answers;
  }

  answered-IsRunning :
      (k : Kind) (s : State) → IsRunning s → IsRunning (count k (act (sent k nonce) s))
  answered-IsRunning tcp s h = record {
    tracked = h.tracked;
    none_closed = h.none_closed;
    permitted = (refl, h.permitted);
    tcp_answers = omega (arith, h.tcp_answers);
    udp_answers = omega (arith, h.udp_answers);
  }
  answered-IsRunning udp s h = record {
    tracked = h.tracked;
    none_closed = h.none_closed;
    permitted = (refl, h.permitted);
    tcp_answers = omega (arith, h.tcp_answers);
    udp_answers = omega (arith, h.udp_answers);
  }

  answer_tcp-IsRunning :
      (c : Connection) (r : Result (List ℕ)) (s : State)
      → IsRunning s
      → IsRunning (answer_tcp nonce c r s)
  answer_tcp-IsRunning c (err e) s h = reject-IsRunning s h
  answer_tcp-IsRunning c (ok got) s h = elim (Bool-cases (got == nonce)) [
    | inr f ↦ rw f (reject-IsRunning s h)
    | inl f ↦ elim (Result-cases c.sendall) [
      | inl (_, g) ↦ rw (f, g) (answered-IsRunning tcp s h)
      | inr (_, g) ↦ rw (f, g) (reject-IsRunning (act (sent tcp nonce) s) (sent-IsRunning tcp s h))
    ]
  ]

  answer_udp-IsRunning :
      (got : List ℕ) (sendto : Result (Unit {0})) (s : State)
      → IsRunning s
      → IsRunning (answer_udp nonce got sendto s).1
  answer_udp-IsRunning got sendto s h = elim (Bool-cases (got == nonce)) [
    | inr f ↦ rw f (reject-IsRunning s h)
    | inl f ↦ elim (Result-cases sendto) [
      | inl (_, g) ↦ rw (f, g) (answered-IsRunning udp s h)
      | inr (_, g) ↦ rw (f, g) (sent-IsRunning udp s h)
    ]
  ]

  handle-IsRunning : (e : Event) (s : State) → IsRunning s → IsRunning (handle nonce e s).1
  unfolding handle
  handle-IsRunning (on_tcp (err e)) s h = h
  handle-IsRunning (on_tcp (ok c)) s h = answer_tcp-IsRunning c (receive 33 c 0 []) s h
  handle-IsRunning (on_udp (err e) sendto) s h = h
  handle-IsRunning (on_udp (ok got) sendto) s h = answer_udp-IsRunning _ sendto s h

  and_then-IsRunning :
      (r : Run (Unit {0})) (f : State → Run (Unit {0}))
      → IsRunning r.1
      → ((s : State) → IsRunning s → IsRunning (f s).1)
      → IsRunning (and_then r f).1
  and_then-IsRunning (ok _, s) f h g = g s h
  and_then-IsRunning (err _, s) f h g = h

  handle_all-IsRunning :
      (es : List Event) (s : State) → IsRunning s → IsRunning (handle_all nonce es s).1
  unfolding handle_all
  handle_all-IsRunning [] s h = h
  handle_all-IsRunning (e ∷ es) s h =
      and_then-IsRunning (handle nonce e s) _ (handle-IsRunning e s h)
        (λ t k. handle_all-IsRunning es (pass 10 t) (at_clock-IsRunning _ t k))

  serve-IsRunning :
      (fuel : ℕ) (rounds : ℕ → Round) (i until : ℕ) (s : State)
      → IsRunning s
      → IsRunning (serve fuel nonce rounds i until s).1
  unfolding serve
  serve-IsRunning zero rounds i until s h = at_clock-IsRunning _ s h
  serve-IsRunning (suc fuel) rounds i until s h =
      let looking = pass (rounds i).lag s in
      let running : IsRunning looking = at_clock-IsRunning _ s h in
      elim (Bool-cases (ltb looking.clock until && not (rounds i).stopped)) [
        | inr e ↦ rw e running
        | inl e ↦ rw e (
            and_then-IsRunning (handle_all nonce (rounds i).events looking)
              (serve fuel nonce rounds (suc i) until)
              (handle_all-IsRunning (rounds i).events looking running)
              (serve-IsRunning fuel rounds (suc i) until))
      ]

  bound_socket-IsRunning :
      (c : SocketCalls) (ip : Address) (kind : Kind) (s : State) (r : Result (Unit {0}))
      → ip.text ≡ text
      → IsRunning s
      → IsRunning (bound_socket c ip port kind s r).1
  bound_socket-IsRunning c ip kind s (err e) same h = h
  bound_socket-IsRunning c ip kind s (ok _) same h = record {
    tracked = h.tracked;
    none_closed = h.none_closed;
    permitted = ((same, refl), h.permitted);
    tcp_answers = h.tcp_answers;
    udp_answers = h.udp_answers;
  }

  new_socket-IsRunning :
      (c : SocketCalls) (ip : Address) (kind : Kind) (s : State) (r : Result (Unit {0}))
      → ip.text ≡ text
      → IsRunning s
      → IsRunning (new_socket c ip port kind s r).1
  new_socket-IsRunning c ip kind s (err e) same h = h
  new_socket-IsRunning c ip kind s (ok _) same h =
      bound_socket-IsRunning c ip kind _ _ same (record {
        tracked = ap (λ l. l ++ (kind ∷ [])) h.tracked;
        none_closed = h.none_closed;
        permitted = (tt, h.permitted);
        tcp_answers = h.tcp_answers;
        udp_answers = h.udp_answers;
      })

  open_socket-IsRunning :
      (c : SocketCalls) (ip : Address) (kind : Kind) (s : State)
      → ip.text ≡ text
      → IsRunning s
      → IsRunning (open_socket c ip port kind s).1
  unfolding open_socket
  open_socket-IsRunning c ip kind s = new_socket-IsRunning c ip kind s c.create

  pub serve_bound-IsRunning :
      (ip : Address) (seconds : ℕ) (net : Network)
      → ip.text ≡ text
      → IsRunning (serve_bound nonce ip port seconds net idle).1
  unfolding serve_bound
  serve_bound-IsRunning ip seconds net same =
      let start : IsRunning idle = record {
        tracked = refl;
        none_closed = refl;
        permitted = tt;
        tcp_answers = omega arith;
        udp_answers = omega arith;
      } in
      and_then-IsRunning (open_socket (net.calls tcp) ip port tcp idle) _
        (open_socket-IsRunning (net.calls tcp) ip tcp idle same start)
        (λ s h.
          and_then-IsRunning (open_socket (net.calls udp) ip port udp s) _
            (open_socket-IsRunning (net.calls udp) ip udp s same h)
            (λ t k.
              and_then-IsRunning (net.ready, t) _ k
                (λ u j.
                  serve-IsRunning (1000 * seconds) net.rounds 0 (net.start + 1000 * seconds)
                    (at_clock net.start u) (at_clock-IsRunning net.start u j))))
