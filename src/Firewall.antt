-- ===== src/Firewall.antt =====
-- owner_guard.py and local_endpoints.py: the tables that they render.
pub mod Private
pub mod Host
pub mod HostBounds
mod Tests
use aura_server.Base.{
  ℕ, ◌+◌, ◌-◌, ◌^◌, String, Bool, true, false, not, ◌&&◌, ◌||◌, Option, none, some, List, [], ◌∷◌,
  ◌++◌, ◌==◌, nat_eq, any, leb, codes, Result, ok, err, ◌>>=◌, ◌>>◌, raise_if, value_error,
}
use aura_server.Address.{
  Network4, in_network, private_networks, is_private, Parser, ip_address, public_ip,
}

-- `ipaddress.IPv4Address`, `IPv4Network(…, strict=True)`, nothing where they raise `ValueError`, and `str`.
pub record Ipv4 : Type 0 where
  pub address : List ℕ → Option ℕ
  pub network : List ℕ → Option Network4
  pub show : ℕ → List ℕ
  pub show_network : Network4 → List ℕ

abbrev pub parsed {ℓ} : {A : Type ℓ} → Option A → Result A
parsed none = err (value_error "")
parsed (some a) = ok a

-- `broadcast_address`
abbrev pub last_address : Network4 → ℕ
last_address n = n.base + (2 ^ (32 - n.prefixlen) - 1)

-- `a.subnet_of(b)`
abbrev pub subnet_of : Network4 → Network4 → Bool
subnet_of a b = leb b.base a.base && leb (last_address a) (last_address b)

abbrev pub owner_table : List ℕ → List ℕ → List ℕ
owner_table address network =
    codes
      "# Atomic replacement of this product-owned table only (nftables >= 1.0.9).\ndestroy table inet aura_home\ntable inet aura_home {\n    chain owner_input {\n        type filter hook input priority -5; policy accept;\n        ip daddr "
    ++ (address
        ++ (codes " tcp dport 9443 ip saddr != " ++ (network ++ codes " counter drop\n    }\n}\n")))

abbrev pub is_foreign : ℕ → Network4 → Bool
is_foreign address network =
    not (in_network address network) || not (any (subnet_of network) private_networks)

-- `render` of owner_guard.py
unfoldable pub render_owner : Ipv4 → List ℕ → List ℕ → Result (List ℕ)
render_owner ip address_text network_text = do
  address ← parsed (ip.address address_text)
  network ← parsed (ip.network network_text)
  raise_if (is_foreign address network) (value_error "Owner LAN network must be explicit RFC1918")
  ok (owner_table (ip.show address) (ip.show_network network))

abbrev pub endpoints_table : List ℕ → List ℕ → List ℕ
endpoints_table public lan =
    codes
      "# Only this product-owned table is replaced atomically.\ndestroy table ip aura_local_endpoints\ntable ip aura_local_endpoints {\n    chain output {\n        type nat hook output priority dstnat; policy accept;\n        ip daddr "
    ++ (public
        ++ (codes " tcp dport { 8443, 8444, 9443 } counter dnat to "
            ++ (lan
                ++ (codes "\n        ip daddr "
                    ++ (public
                        ++ (codes " udp dport 3478 counter dnat to "
                            ++ (lan ++ codes "\n    }\n}\n")))))))

-- `render` of local_endpoints.py
unfoldable pub render_endpoints : Parser → Ipv4 → List ℕ → List ℕ → Result (List ℕ)
render_endpoints parse ip public_text lan_text = do
  public ← public_ip parse public_text
  address ← ip_address parse public
  raise_if (not (address.version == 4)) (value_error "Qualified IPv4 layout required")
  lan ← parsed (ip.address lan_text)
  raise_if (not (is_private lan)) (value_error "Explicit private service address required")
  ok (endpoints_table public (ip.show lan))
