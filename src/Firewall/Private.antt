-- ===== src/Firewall/Private.antt =====
-- The addresses for which a table is rendered.
use aura_server.Base.{
  ℕ, zero, suc, ◌<◌, ◌↔◌, ◌+◌, ◌*◌, ◌-◌, ◌^◌, ◌/◌, ◌%◌, ◌≤◌, ◌≡◌, refl, sym, ap, Bool, true, false,
  not, ◌||◌, Option, none, some, List, ◌==◌, nat_eq, nat_equals_iff, any, ok, bind-eq-ok,
  raise_if-then, ok-injective, arith,
}
use native.Mathlib.Nat.{div-add-mod, mod-lt}
use aura_server.Address.{
  ip_address-some, Address, Network4, in_network, private_networks, is_private, IsPrivate,
  is_private-IsPrivate, Parser, ip_address, public_ip,
}
use aura_server.Firewall.{
  Ipv4, parsed, last_address, subnet_of, owner_table, is_foreign, render_owner, endpoints_table,
  render_endpoints,
}

block_bounds : (a b k : ℕ) → 0 < k → a / k ≡ b / k → b % k ≡ 0 → (b ≤ a) × (a ≤ b + (k - 1))
block_bounds a b k pos same strict =
    omega (arith, ap (λ t. k * t) same, div-add-mod a k, div-add-mod b k, mod-lt a pos, strict)

pow_pos : (n : ℕ) → 0 < 2 ^ n
pow_pos zero = omega arith
pow_pos (suc n) = omega (arith, pow_pos n)

-- An address in a network without host bits is one from the first to the last.
in_network-bounds :
    (address : ℕ) (n : Network4)
    → n.base % 2 ^ (32 - n.prefixlen) ≡ 0
    → in_network address n ≡ true
    → (n.base ≤ address) × (address ≤ last_address n)
unfolding in_network
in_network-bounds address n strict h =
    let k = 2 ^ (32 - n.prefixlen) in
    block_bounds address n.base k (pow_pos (32 - n.prefixlen))
      ((nat_equals_iff (address / k) (n.base / k)).0 h) strict

IsPrivate-of_bounds :
    (address : ℕ) (n : Network4)
    → n.base ≤ address
    → address ≤ last_address n
    → any (subnet_of n) private_networks ≡ true
    → IsPrivate address
IsPrivate-of_bounds address n low high h = ground (arith, low, high, h)

pub parsed_some : {A : Type 0} (o : Option A) {a : A} → parsed o ≡ ok a → o ≡ some a
parsed_some none h = absurd (cc h)
parsed_some (some a) h = ap some (ok-injective h)

split_tests : (a b : Bool) → (not a || not b) ≡ false → (a ≡ true) × (b ≡ true)
split_tests a b h = ground (arith, h)

-- Where a network that is parsed strictly has no host bits, a table that `render` of owner_guard.py
-- gives is that of an address within RFC 1918 which lies between the network's first and last
-- address.
pub render_owner-eq-ok :
    (ip : Ipv4) (address_text network_text table : List ℕ)
    → ((n : Network4) → ip.network network_text ≡ some n → n.base % 2 ^ (32 - n.prefixlen) ≡ 0)
    → render_owner ip address_text network_text ≡ ok table
    → (address : ℕ) × (n : Network4) × (ip.address address_text ≡ some address)
      × (ip.network network_text ≡ some n)
      × IsPrivate address
      × (n.base ≤ address)
      × (address ≤ last_address n)
      × (table ≡ owner_table (ip.show address) (ip.show_network n))
unfolding render_owner
render_owner-eq-ok ip address_text network_text table strict h =
    let (address, got, g1) = bind-eq-ok (parsed (ip.address address_text)) _ h in
    let (n, got', g2) = bind-eq-ok (parsed (ip.network network_text)) _ g1 in
    let (near, g3) = raise_if-then (is_foreign address n) _ _ g2 in
    let here = parsed_some (ip.address address_text) got in
    let there = parsed_some (ip.network network_text) got' in
    let tests : (in_network address n ≡ true) × (any (subnet_of n) private_networks ≡ true) =
      split_tests _ _ near in
    let (low, high) = in_network-bounds address n (strict n there) tests.0 in
    (
      address,
      n,
      here,
      there,
      IsPrivate-of_bounds address n low high tests.1,
      low,
      high,
      sym (ok-injective g3),
    )

-- `render` of local_endpoints.py gives a table exactly if the public text is a public IPv4 address
-- and the LAN text an address within the three blocks of RFC 1918, and the table is that of these
-- two addresses.
render_endpoints-eq-ok :
    (parse : Parser) (ip : Ipv4) (public_text lan_text table : List ℕ)
    → (render_endpoints parse ip public_text lan_text ≡ ok table) ↔ (
        (public : List ℕ) × (address : Address) × (lan : ℕ) × (public_ip parse public_text
          ≡ ok public)
        × (parse public ≡ some address)
        × (address.version ≡ 4)
        × (ip.address lan_text ≡ some lan)
        × IsPrivate lan
        × (endpoints_table public (ip.show lan) ≡ table))
unfolding render_endpoints ip_address
render_endpoints-eq-ok parse ip public_text lan_text table = (
  λ h.
      let (public, p, g1) = bind-eq-ok (public_ip parse public_text) _ h in
      let (address, q, g2) = bind-eq-ok (ip_address parse public) _ g1 in
      let (four, g3) = raise_if-then (not (address.version == 4)) _ _ g2 in
      let (lan, r, g4) = bind-eq-ok (parsed (ip.address lan_text)) _ g3 in
      let (near, g5) = raise_if-then (not (is_private lan)) _ _ g4 in
      (
        public,
        address,
        lan,
        p,
        ip_address-some parse public q,
        ground (arith, four),
        parsed_some (ip.address lan_text) r,
        (is_private-IsPrivate lan).0 (ground (arith, near)),
        ok-injective g5,
      ),
  λ (public, address, lan, p, q, four, r, near, made).
      let is_four = (nat_equals_iff address.version 4).1 four in
      let is_near = (is_private-IsPrivate lan).1 near in
      rw (p, ip_address, q, is_four, r, is_near, made) refl,
)
