-- ===== src/Firewall/HostBounds.antt =====
-- The inputs for which host_guard.py renders a table.
use aura_server.Base.{
  ℕ, ◌≤◌, ◌≡◌, ◌↔◌, refl, arith, true, false, not, ◌&&◌, Option, some, List, leb, nat_eq,
  nat_equals_iff, ok, bind-eq-ok, raise_if-then, ok-injective,
}
use mathlib.Core.Path.{subst}
use aura_server.Json.{Value, int, pos, negsuc}
use aura_server.Firewall.{Ipv4, parsed, render_owner}
use aura_server.Firewall.Private.{parsed_some}
use aura_server.Firewall.Host.{Network6, udp_port, host_table, is_unfit_prefix, render_host}

-- A port that an inventory may name.
abbrev pub IsPort : Value → ℕ → Type 0
IsPort value port = (value ≡ int (pos port)) × (1024 ≤ port) × (port ≤ 65535)

bounds_of : (n : ℕ) → not (leb 1024 n && leb n 65535) ≡ false → (1024 ≤ n) × (n ≤ 65535)
bounds_of n h = ground (arith, h)

of_bounds : (n : ℕ) → 1024 ≤ n → n ≤ 65535 → (leb 1024 n && leb n 65535) ≡ true
of_bounds n low high = ground (arith, low, high)

udp_port-IsPort : (value : Value) (port : ℕ) → udp_port value ≡ ok port → IsPort value port
udp_port-IsPort (int (pos n)) port h =
    let (fit, g) = raise_if-then (not (leb 1024 n && leb n 65535)) _ _ h in
    let (low, high) = bounds_of n fit in
    subst (λ p. IsPort (int (pos n)) p) (ok-injective g) (refl, low, high)
udp_port-IsPort (int (negsuc n)) port h = absurd (cc h)
udp_port-IsPort _ port h = absurd (cc h)

fit_of :
    (prefix : Network6)
    → is_unfit_prefix prefix ≡ false
    → (prefix.prefixlen ≡ 64) × (prefix.is_global ≡ true)
fit_of prefix h = ground (arith, h)

-- `render` of host_guard.py gives a table exactly if `render` of owner_guard.py accepts the address and
-- the network, the IPv6 text is a global network with a prefix of 64, and the port is an integer from
-- 1024 to 65535; and the table is that of the texts given, the IPv6 network and the port.
pub render_host-eq-ok :
    (ip : Ipv4) (network6 : List ℕ → Option Network6) (decimal : ℕ → List ℕ)
    (lan_address lan_network lan_ipv6 : List ℕ) (administration_udp : Value) (table : List ℕ)
    → (render_host ip network6 decimal lan_address lan_network lan_ipv6 administration_udp
        ≡ ok table)
      ↔ ((owner : List ℕ) × (prefix : Network6) × (port : ℕ) × (render_owner ip lan_address
              lan_network
            ≡ ok owner)
          × (network6 lan_ipv6 ≡ some prefix)
          × (prefix.prefixlen ≡ 64)
          × (prefix.is_global ≡ true)
          × IsPort administration_udp port
          × (host_table lan_network prefix.text lan_address (decimal port) ≡ table))
unfolding render_host
render_host-eq-ok ip network6 decimal lan_address lan_network lan_ipv6 administration_udp table = (
  λ h.
      let (owner, p, g1) = bind-eq-ok (render_owner ip lan_address lan_network) _ h in
      let (prefix, q, g2) = bind-eq-ok (parsed (network6 lan_ipv6)) _ g1 in
      let (fit, g3) = raise_if-then (is_unfit_prefix prefix) _ _ g2 in
      let (port, r, g4) = bind-eq-ok (udp_port administration_udp) _ g3 in
      let (whole, global) = fit_of prefix fit in
      (
        owner,
        prefix,
        port,
        p,
        parsed_some (network6 lan_ipv6) q,
        whole,
        global,
        udp_port-IsPort administration_udp port r,
        ok-injective g4,
      ),
  λ (owner, prefix, port, p, q, whole, global, (given, low, high), made).
      let is_whole = (nat_equals_iff prefix.prefixlen 64).1 whole in
      let within = of_bounds port low high in rw (p, q, is_whole, global, given, within, made) refl,
)
