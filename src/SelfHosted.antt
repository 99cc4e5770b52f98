-- ===== src/SelfHosted.antt =====
-- self_hosted.py: the layout with one address and no domain, and the tests of its configuration.
pub mod Render
pub mod Accepted
pub mod Write
pub mod Written
pub mod Taken
mod Tests
use aura_server.Base.{
  ℕ, String, Bool, true, false, not, ◌&&◌, ◌||◌, Option, none, some, List, [], ◌∷◌, all, ◌==◌,
  nat_eq, list_eq, codes, is_alnum, split, Result, ok, err, ◌>>=◌, ◌>>◌, raise_if, value_error,
  type_error,
}
use aura_server.Base.Dict.{Dict, keys, same_set}
use aura_server.Json.{Value, str}
use aura_server.Address.{ip_address, public_ip, is_private}
use aura_server.Prepare.Render.{Library, item_of, is_one, ipv4_address, region_id}

abbrev pub required : List String
required = "version" ∷ "publicIPv4" ∷ "lanIPv4" ∷ "regionId" ∷ "mediaRoot" ∷ []

-- `public_ip`, and that the address is an IPv4 one. Anything but a text is an error.
unfoldable pub public_ipv4 : Library → Value → Result (List ℕ)
public_ipv4 L (str s) = do
  public ← public_ip L.parse (codes s)
  address ← ip_address L.parse public
  raise_if (not (address.version == 4)) (value_error "This qualified layout uses IPv4")
  ok public
public_ipv4 L _ = err type_error

unfoldable pub private_ipv4 : Library → Value → Result ℕ
private_ipv4 L value = do
  lan ← ipv4_address L value
  raise_if (not (is_private lan)) (value_error "Private LAN IPv4 required")
  ok lan

unfoldable pub region : Value → Result ℕ
region value = elim (region_id value) [ ok n ↦ ok n | err _ ↦ err (value_error "Invalid region") ]

-- `/(?:[A-Za-z0-9_-]+/)*[A-Za-z0-9_-]+`
abbrev pub is_name : List ℕ → Bool
is_name name = not (name == []) && all (λ c. is_alnum c || c == b'_' || c == b'-') name

abbrev pub is_media_root : List ℕ → Bool
is_media_root [] = false
is_media_root (c ∷ cs) = c == b'/' && all is_name (split b'/' cs)

unfoldable pub media_root : Value → Result String
media_root (str s) = do
  raise_if (not (is_media_root (codes s))) (value_error "Use an explicit supported media-root path")
  ok s
media_root _ = err (value_error "Use an explicit supported media-root path")

-- What the tests leave of a configuration.
pub record Home : Type 0 where
  pub public : List ℕ
  pub lan : ℕ
  pub region_number : ℕ
  pub media : String

unfoldable pub check_config : Library → Dict Value → Result Home
check_config L config = do
  raise_if (not (same_set (keys config) required))
      (value_error "Unsupported self-hosted configuration")
  version ← item_of config "version"
  raise_if (not (is_one version)) (value_error "Unsupported self-hosted configuration")
  public_value ← item_of config "publicIPv4"
  public ← public_ipv4 L public_value
  lan_value ← item_of config "lanIPv4"
  lan ← private_ipv4 L lan_value
  region_value ← item_of config "regionId"
  number ← region region_value
  media_value ← item_of config "mediaRoot"
  media ← media_root media_value
  ok (record { public = public; lan = lan; region_number = number; media = media })
