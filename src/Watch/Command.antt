-- ===== src/Watch/Command.antt =====
-- `main` of wan_watch.py.
pub mod Run
pub mod Watched
use aura_server.Base.{
  ℕ, ◌≡◌, ◌≢◌, refl, ◌⊎◌, inl, inr, String, not, Option, none, some, List, [], ◌∷◌, ltb, ◌==◌,
  nat_eq, codes, if◌then◌else◌, Error, Result, Result-cases, ok, err, ◌>>=◌, ◌>>◌, raise_if,
  value_error, type_error,
}
use aura_server.Base.Dict.{Dict, keys, same_set}
use aura_server.Json.{Value, str, int, pos}
use aura_server.Address.{Parser}
use aura_server.Firewall.{Ipv4}
use aura_server.Prepare.Render.{item_of, is_one}
use aura_server.Prepare.Write.{loaded}
use aura_server.Renew.State.{File, private_regular}
use aura_server.Renew.Validate.{size_of, text_of}

abbrev pub fields : List String
fields = "version" ∷ "routerIPv4" ∷ "expectedIPv4" ∷ []

-- The router as `IPv4Address` takes it: an integer stands for its dotted text.
abbrev pub router_text : Ipv4 → Value → Result (List ℕ)
router_text ip (str s) = ok (codes s)
router_text ip (int (pos n)) = ok (ip.show n)
router_text ip _ = err (value_error "")

-- The expected address: `public_ip` takes a text only.
abbrev pub expected_text : Value → Result (List ℕ)
expected_text (str s) = ok (codes s)
expected_text _ = err type_error

-- The router and the expected address of a configuration.
unfoldable pub configuration : Dict Value → Result (Value × Value)
configuration value = do
  raise_if (not (same_set (keys value) fields)) (value_error "Unsupported observer configuration")
  version ← item_of value "version"
  raise_if (not (is_one version)) (value_error "Unsupported observer configuration")
  expected ← item_of value "expectedIPv4"
  router ← item_of value "routerIPv4"
  ok (router, expected)

-- The tests of `main`.
unfoldable pub accept : ℕ → Option File → (List ℕ → Option Value) → Result (Value × Value)
accept euid config loads = do
  raise_if (not (euid == 0)) (value_error "Root observer service required")
  private_regular 0 config
  raise_if (ltb 4096 (size_of config)) (value_error "Configuration exceeds budget")
  value ← loaded (loads (text_of config))
  configuration value
