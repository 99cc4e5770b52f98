-- ===== src/Address.antt =====
-- IP addresses as the scripts of infrastructure/ use them: `public_ip` of renew.py.
use aura_server.Base.{
  ℕ, ◌/◌, ◌^◌, ◌-◌, ◌≤◌, ◌≡◌, ◌↔◌, ◌⊎◌, arith, true, [], ◌∷◌, nat_equals_iff, Bool, not, ◌||◌,
  Option, none, some, List, ◌==◌, nat_eq, any, Result, ok, err, ◌>>=◌, ◌>>◌, raise_if, value_error,
}

-- What the scripts ask of a value of `ipaddress`. `is_mapped` is whether an IPv6 address has an
-- `ipv4_mapped`, and `text` is what `str` gives.
pub record Address : Type 0 where
  pub version : ℕ
  pub is_global : Bool
  pub is_multicast : Bool
  pub is_mapped : Bool
  pub text : List ℕ

-- `ipaddress.ip_address`, nothing where it raises `ValueError`.
abbrev pub Parser : Type 0
Parser = List ℕ → Option Address

unfoldable pub ip_address : Parser → List ℕ → Result Address
ip_address parse value = elim (parse value) [
  | none ↦ err (value_error "")
  | some address ↦ ok address
]

pub ip_address-some :
    (parse : Parser) (value : List ℕ) {a : Address}
    → ip_address parse value ≡ ok a
    → parse value ≡ some a
unfolding ip_address
ip_address-some parse value h = ground (arith, h)

abbrev pub is_refused : List ℕ → Address → Bool
is_refused value address =
    not address.is_global || address.is_multicast || address.is_mapped || any (λ c. c == b'%') value

unfoldable pub public_ip : Parser → List ℕ → Result (List ℕ)
public_ip parse value = do
  address ← ip_address parse value
  raise_if (is_refused value address) (value_error "A public unscoped IP identifier is required")
  ok address.text

-- An IPv4 network: its address as a number, and the length of its prefix.
pub record Network4 : Type 0 where
  pub base : ℕ
  pub prefixlen : ℕ

-- `address in network`
unfoldable pub in_network : ℕ → Network4 → Bool
in_network address network =
    address / 2 ^ (32 - network.prefixlen) == network.base / 2 ^ (32 - network.prefixlen)

-- 10.0.0.0/8, 172.16.0.0/12 and 192.168.0.0/16
abbrev pub private_networks : List Network4
private_networks =
    record { base = 0x0a000000; prefixlen = 8 }
    ∷ record { base = 0xac100000; prefixlen = 12 }
    ∷ record { base = 0xc0a80000; prefixlen = 16 }
    ∷ []

unfoldable pub is_private : ℕ → Bool
is_private address = any (in_network address) private_networks

-- The addresses of RFC 1918 from the first to the last.
abbrev pub IsPrivate : ℕ → Type 0
IsPrivate address =
    ((0x0a000000 ≤ address) × (address ≤ 0x0affffff))
    ⊎ ((0xac100000 ≤ address) × (address ≤ 0xac1fffff))
    ⊎ ((0xc0a80000 ≤ address) × (address ≤ 0xc0a8ffff))

pub is_private-IsPrivate : (address : ℕ) → (is_private address ≡ true) ↔ IsPrivate address
unfolding is_private in_network
is_private-IsPrivate address =
    let ten = nat_equals_iff (address / 0x1000000) 10 in
    let twelve = nat_equals_iff (address / 0x100000) 2753 in
    let sixteen = nat_equals_iff (address / 0x10000) 49320 in
    (λ h. ground (arith, h), λ r. ground (arith, r))
