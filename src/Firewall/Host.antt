-- ===== src/Firewall/Host.antt =====
-- `render` of host_guard.py: the table of the host's input.
use aura_server.Base.{
  ℕ, Bool, not, ◌&&◌, ◌||◌, Option, List, ◌++◌, leb, ◌==◌, nat_eq, codes, Result, ok, err, ◌>>=◌,
  ◌>>◌, raise_if, value_error,
}
use aura_server.Json.{Value, int, pos}
use aura_server.Firewall.{Ipv4, parsed, render_owner}

-- What `render` asks of an `IPv6Network`: its prefix, whether its address is global, and `str`.
pub record Network6 : Type 0 where
  pub prefixlen : ℕ
  pub is_global : Bool
  pub text : List ℕ

-- `type(administration_udp) is int`, within its bounds
abbrev pub udp_port : Value → Result ℕ
udp_port (int (pos n)) =
    raise_if (not (leb 1024 n && leb n 65535))
      (value_error "Inventoried administration UDP port required")
    >> ok n
udp_port _ = err (value_error "Inventoried administration UDP port required")

-- The network and the address are the texts that were given.
abbrev pub host_table : List ℕ → List ℕ → List ℕ → List ℕ → List ℕ
host_table network prefix address port =
    codes
      "destroy table inet aura_public_input\ntable inet aura_public_input {\n    chain input {\n        type filter hook input priority -4; policy drop;\n        ct state invalid drop\n        iifname \"lo\" accept\n        ct state established,related accept\n        iifname \"tailscale0\" accept\n        ip saddr "
    ++ (network
        ++ (codes " accept\n        ip6 saddr { fe80::/10, "
            ++ (prefix
                ++ (codes
                      " } accept\n        meta l4proto { icmp, ipv6-icmp } accept\n        udp sport 67 udp dport 68 accept\n        udp sport 547 udp dport 546 accept\n        ip daddr "
                    ++ (address
                        ++ (codes " tcp dport { 80, 8443, 8444 } accept\n        ip daddr "
                            ++ (address
                                ++ (codes " udp dport 3478 accept\n        udp dport "
                                    ++ (port
                                        ++ codes
                                            " accept\n        counter drop\n    }\n}\n")))))))))

abbrev pub is_unfit_prefix : Network6 → Bool
is_unfit_prefix prefix = not (prefix.prefixlen == 64) || not prefix.is_global

-- `decimal` is `str` of an integer.
unfoldable pub render_host :
    Ipv4
    → (List ℕ → Option Network6)
    → (ℕ → List ℕ)
    → List ℕ
    → List ℕ
    → List ℕ
    → Value
    → Result (List ℕ)
render_host ip network6 decimal lan_address lan_network lan_ipv6 administration_udp = do
  render_owner ip lan_address lan_network
  prefix ← parsed (network6 lan_ipv6)
  raise_if (is_unfit_prefix prefix) (value_error "Explicit observed global LAN /64 required")
  port ← udp_port administration_udp
  ok (host_table lan_network prefix.text lan_address (decimal port))
