-- ===== src/Prepare.antt =====
-- prepare.py: the inputs of a deployment, rendered from an operator's configuration.
pub mod Hostname
pub mod Render
pub mod Fields
pub mod Planned
pub mod Write
pub mod Parts
pub mod Written
pub mod Total
pub mod Exits
pub mod Caught
pub mod Command
mod Tests
use aura_server.Base.{
  ℕ, ◌+◌, ◌-◌, ◌^◌, String, ◌<>◌, Bool, true, false, not, ◌&&◌, ◌||◌, Option, none, some, List, [],
  ◌∷◌, ◌++◌, length, all, any, leb, ltb, ◌==◌, nat_eq, string_eq, list_eq, contains, codes,
  is_lower, is_digit, is_upper, split, is_hex, if◌then◌else◌, Result, ok, err, ◌>>=◌, ◌>>◌,
  raise_if, value_error, type_error,
}
use aura_server.Base.Dict.{Dict, keys}
use aura_server.Json.{Value, int, pos, str, bool}
use aura_server.Address.{Address, Parser, is_private}
use aura_server.Firewall.{Ipv4}

-- `[a-z0-9](?:[a-z0-9-]{0,61}[a-z0-9])?`
abbrev pub is_label_end : ℕ → Bool
is_label_end c = is_lower c || is_digit c

abbrev pub is_label_char : ℕ → Bool
is_label_char c = is_label_end c || c == b'-'

-- Some characters and one that may end a label.
abbrev pub ends_well : List ℕ → Bool
ends_well [] = false
ends_well (c ∷ []) = is_label_end c
ends_well (c ∷ d ∷ cs) = let rest = ends_well (d ∷ cs) in is_label_char c && rest

unfoldable pub is_label : List ℕ → Bool
is_label [] = false
is_label (c ∷ []) = is_label_end c
is_label (c ∷ d ∷ cs) = is_label_end c && ends_well (d ∷ cs) && leb (length (d ∷ cs)) 62

-- `labels[-1]`
abbrev pub last_label : List (List ℕ) → List ℕ
last_label [] = []
last_label (l ∷ []) = l
last_label (l ∷ m ∷ ls) = last_label (m ∷ ls)

abbrev pub is_reserved : List ℕ → Bool
is_reserved l =
    l == codes "invalid" || l == codes "localhost" || l == codes "local" || l == codes "test"

-- `value.endswith(suffix)`
abbrev pub ends_with : List ℕ → List ℕ → Bool
ends_with suffix [] = suffix == []
ends_with suffix (c ∷ cs) = let rest = ends_with suffix cs in suffix == c ∷ cs || rest

-- The last test, by what `ip_address` gives.
abbrev pub refuse_address : Option Address → Result (Unit {0})
refuse_address none = ok tt
refuse_address (some _) = err (value_error "A hostname, not an IP address, is required")

-- A text that has letters beyond ASCII and is not in lower case is refused by the second test, with
-- its own message.
unfoldable pub check_hostname : Parser → List ℕ → Result (Unit {0})
check_hostname parse value = do
  raise_if (ltb 253 (length value) || any is_upper value)
      (value_error "Use a lowercase DNS hostname")
  let labels = split b'.' value
  raise_if (ltb (length labels) 2 || any (λ l. not (is_label l)) labels)
      (value_error "Invalid DNS hostname")
  raise_if (is_reserved (last_label labels) || ends_with (codes ".ts.net") value)
      (value_error "A permanent non-Tailscale DNS hostname is required")
  refuse_address (parse value)

unfoldable pub hostname : Parser → Value → Result String
hostname parse (str value) = check_hostname parse (codes value) >> ok value
hostname parse _ = err (value_error "Use a lowercase DNS hostname")
