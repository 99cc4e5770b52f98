-- ===== src/Probe/Clean.antt =====
-- What the probe does to the network: it sends nothing but the nonce, and it closes what it opens.
use aura_server.Base.{
  ℕ, ◌≤◌, ◌≡◌, ◌∙◌, sym, ap, refl, ◌⊎◌, inl, inr, true, not, ◌||◌, some, List, [], ◌∷◌, ◌++◌, All,
  list_eq, nat_eq, Bool-cases, Result-cases, arith,
}
use mathlib.Core.List.{append-nil, append_assoc}
use aura_server.Json.{ℤ, magnitude}
use aura_server.Address.{ip_address-some, Address, Parser, ip_address}
use aura_server.Probe.{
  State, Kind, tcp, udp, closed, act, Network, close_all, within, is_nonce, idle, probe,
}
use aura_server.Probe.Running.{
  IsRunning, serve_bound-IsRunning, opens, closes, answers, IsPermitted,
}

module _ (nonce text : List ℕ) (port : ℕ) where
  -- What stands at the end of a run that got to the sockets.
  pub record IsShut (s : State) : Type 0 where
    pub shut : opens s.actions ≡ closes s.actions
    pub permitted : All (IsPermitted nonce text port) s.actions
    pub tcp_answers : s.tcp_count ≤ answers tcp s.actions
    pub udp_answers : s.udp_count ≤ answers udp s.actions

  -- While the sockets are being closed, in order.
  close_all-IsShut :
      (kinds : List Kind) (s : State)
      → opens s.actions ≡ closes s.actions ++ kinds
      → All (IsPermitted nonce text port) s.actions
      → s.tcp_count ≤ answers tcp s.actions
      → s.udp_count ≤ answers udp s.actions
      → IsShut (close_all kinds s)
  unfolding close_all
  close_all-IsShut [] s left permitted t u = record {
    shut = left ∙ append-nil (closes s.actions);
    permitted = permitted;
    tcp_answers = t;
    udp_answers = u;
  }
  close_all-IsShut (kind ∷ kinds) s left permitted t u =
      close_all-IsShut kinds (act (closed kind) s)
        (left ∙ sym (append_assoc (closes s.actions) (kind ∷ []) kinds)) (tt, permitted) t u

  closing-IsShut : (s : State) → IsRunning nonce text port s → IsShut (close_all s.sockets s)
  closing-IsShut s h =
      close_all-IsShut s.sockets s (h.tracked ∙ ap (λ l. l ++ s.sockets) (sym h.none_closed))
        h.permitted h.tcp_answers h.udp_answers

-- The parameters that the probe accepts.
pub record IsBounded (parse : Parser) (address : List ℕ) (port : ℤ) (nonce : List ℕ) (seconds : ℤ)
    (ip : Address) : Type 0 where
  pub hexadecimal : is_nonce nonce ≡ true
  pub short : within 1 180 seconds ≡ true
  pub unprivileged : within 1024 65535 port ≡ true
  pub parsed : parse address ≡ some ip

-- Whatever the network does, and however the probe ends: it has done nothing at all, or its parameters
-- are within the bounds and it has closed each socket that it opened, in order, has bound them to
-- the given address and port only, has sent nothing but the nonce, and counts at most as many answers over TCP
-- and over UDP as it has sent.
pub probe-IsShut :
    (parse : Parser) (address nonce : List ℕ) (port seconds : ℤ) (net : Network)
    → let s = (probe parse address port nonce seconds net).1 in
      (s ≡ idle)
      ⊎ ((ip : Address) × IsBounded parse address port nonce seconds ip
          × IsShut nonce ip.text (magnitude port) s)
unfolding probe
probe-IsShut parse address nonce port seconds net =
    elim (Bool-cases
      (not (is_nonce nonce) || not (within 1 180 seconds) || not (within 1024 65535 port))) [
        | inl e ↦ rw e (inl refl)
        | inr e ↦ elim (Result-cases (ip_address parse address)) [
          | inr (x, f) ↦ rw (e, f) (inl refl)
          | inl (ip, f) ↦
              let bounded : IsBounded parse address port nonce seconds ip = record {
                hexadecimal = ground (arith, e);
                short = ground (arith, e);
                unprivileged = ground (arith, e);
                parsed = ip_address-some parse address f;
              } in
              rw (e, f)
                (inr (
                  ip,
                  bounded,
                  closing-IsShut nonce ip.text (magnitude port) _ (
                      serve_bound-IsRunning nonce ip.text (magnitude port) ip (magnitude seconds)
                        net refl),
                ))
        ]
      ]
