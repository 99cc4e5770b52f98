-- ===== src/Firewall/Tests.antt =====
-- Tables for a small network, and the theorems at them.
use aura_server.Base.{
  ℕ, ◌%◌, ◌^◌, ◌-◌, ◌≤◌, ◌≡◌, refl, sym, ap, ◌↔◌, false, true, some, List, [], ok,
}
use aura_server.Address.{Network4, IsPrivate, Parser, in_network}
use aura_server.Firewall.{Ipv4, last_address, owner_table, render_owner}
use aura_server.Base.{Option}
use aura_server.Json.{int, pos}
use aura_server.Firewall.Host.{Network6, host_table, render_host}
use aura_server.Firewall.HostBounds.{IsPort, render_host-eq-ok}
use aura_server.Firewall.Private.{render_owner-eq-ok}

-- Texts stand for themselves: every address is 192.168.1.2, every network 192.168.1.0/24.
abbrev ip : Ipv4
ip = record {
  address = λ _. some 0xc0a80102;
  network = λ _. some (record { base = 0xc0a80100; prefixlen = 24 });
  show = λ _. [];
  show_network = λ _. [];
}

abbrev parser : Parser
parser _ =
    some
      (record { version = 4; is_global = true; is_multicast = false; is_mapped = false; text = [] })

strict : (n : Network4) → ip.network [] ≡ some n → n.base % 2 ^ (32 - n.prefixlen) ≡ 0
strict n e =
    let home : Network4 = record { base = 0xc0a80100; prefixlen = 24 } in
    let same : home ≡ n = cc in ap (λ (m : Network4). m.base % 2 ^ (32 - m.prefixlen)) (sym same)

rendered : render_owner ip [] [] ≡ ok (owner_table [] [])
unfolding render_owner in_network
rendered = refl

render_owner-eq-ok_example :
    (address : ℕ) × (n : Network4) × (ip.address [] ≡ some address)
    × (ip.network [] ≡ some n)
    × IsPrivate address
    × (n.base ≤ address)
    × (address ≤ last_address n)
    × (owner_table [] [] ≡ owner_table (ip.show address) (ip.show_network n))
render_owner-eq-ok_example = render_owner-eq-ok ip [] [] (owner_table [] []) strict rendered

abbrev network6 : List ℕ → Option Network6
network6 _ = some (record { prefixlen = 64; is_global = true; text = [] })

render_host-eq-ok_example :
    (render_host ip network6 (λ _. []) [] [] [] (int (pos 41641)) ≡ ok (host_table [] [] [] [])) ↔ (
      (owner : List ℕ) × (prefix : Network6) × (port : ℕ) × (render_owner ip [] [] ≡ ok owner)
      × (network6 [] ≡ some prefix)
      × (prefix.prefixlen ≡ 64)
      × (prefix.is_global ≡ true)
      × IsPort (int (pos 41641)) port
      × (host_table [] prefix.text [] [] ≡ host_table [] [] [] []))
render_host-eq-ok_example =
    render_host-eq-ok ip network6 (λ _. []) [] [] [] (int (pos 41641)) (host_table [] [] [] [])
