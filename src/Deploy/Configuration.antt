-- ===== src/Deploy/Configuration.antt =====
-- `configuration` of ip_deploy.py, and what its `main` asks before it touches a certificate.
use aura_server.Base.{
  ℕ, String, ◌<>◌, Bool, false, not, ◌&&◌, ◌||◌, Option, none, some, List, [], ◌∷◌, length, all,
  ltb, leb, ◌==◌, nat_eq, string_eq, codes, is_lower, is_digit, Result, ok, err, ◌>>=◌, ◌>>◌,
  raise_if, value_error, type_error,
}
use aura_server.Base.Dict.{Dict, keys, lookup, same_set}
use aura_server.Json.{Value, bool, str}
use aura_server.Address.{Parser, public_ip}
use aura_server.Prepare.Render.{item_of, is_one}
use aura_server.Prepare.Write.{loaded}
use aura_server.Renew.State.{File, regular, special, private_regular}
use aura_server.Renew.Validate.{
  Library, Snapshot, check_parents, take_lock, size_of, text_of, Source, resolve,
}

abbrev pub fields : List String
fields = "version" ∷ "publicIP" ∷ "certName" ∷ []

-- `[a-z][a-z0-9-]{0,63}`
abbrev pub is_cert_char : ℕ → Bool
is_cert_char c = is_lower c || is_digit c || c == b'-'

abbrev pub is_cert_name : List ℕ → Bool
is_cert_name [] = false
is_cert_name (c ∷ cs) = is_lower c && leb (length cs) 63 && all is_cert_char cs

abbrev pub cert_name : Value → Result String
cert_name (str s) =
    raise_if (not (is_cert_name (codes s))) (value_error "Invalid certificate lineage name") >> ok s
cert_name _ = err (value_error "Invalid certificate lineage name")

-- `value.get("ownerEnabled", False)`, which is a `bool` where it is there.
abbrev pub owner_enabled : Option Value → Result Bool
owner_enabled none = ok false
owner_enabled (some (bool b)) = ok b
owner_enabled (some _) = err (value_error "Owner renewal must be explicitly enabled")

-- `public_ip` on a value: anything but a text is an error.
abbrev pub public_text : Parser → Value → Result String
public_text parse (str s) = public_ip parse (codes s) >>= λ _. ok s
public_text parse _ = err type_error

pub record Configured : Type 0 where
  pub public : String
  pub lineage : String
  pub owner : Bool

unfoldable pub configuration : Parser → Dict Value → Result Configured
configuration parse value = do
  raise_if
      (not (same_set (keys value) fields) && not (same_set (keys value) ("ownerEnabled" ∷ fields)))
      (value_error "Unsupported IP certificate configuration")
  version ← item_of value "version"
  raise_if (not (is_one version)) (value_error "Unsupported IP certificate configuration")
  owner ← owner_enabled (lookup "ownerEnabled" value)
  public_value ← item_of value "publicIP"
  public ← public_text parse public_value
  name_value ← item_of value "certName"
  name ← cert_name name_value
  ok (record { public = public; lineage = name; owner = owner })

unfoldable pub check_source : Source → File → Result (Unit {0})
check_source source f = elim f [
  | special ↦ err (value_error "Unsafe certificate archive")
  | regular owner mode bytes ↦
      raise_if (not source.archived || not (owner == 0) || ltb 65536 (length bytes))
        (value_error "Unsafe certificate archive")
]

-- What `main` finds: who runs it, the configuration, whether its resolved path lies below
-- /etc/aura-infrastructure, the owners and modes of that path's parents, `json.loads`, the absolute
-- path in RENEWED_LINEAGE, the lock, the two files, and the copies of them, which may already be
-- others.
pub record Inputs : Type 0 where
  pub euid : ℕ
  pub config : Option File
  pub contained : Bool
  pub parents : List (ℕ × ℕ)
  pub loads : List ℕ → Option Value
  pub renewed : String
  pub lock : Result File
  pub flock : Result (Unit {0})
  pub cert : Source
  pub key : Source
  pub snapshot : Result Snapshot

-- All tests of `main` in order, and the snapshot.
unfoldable pub accept : Library → Inputs → Result (Configured × Snapshot)
accept L found = do
  raise_if (not (found.euid == 0)) (value_error "Root deploy hook required")
  private_regular 0 found.config
  raise_if (not found.contained || ltb 4096 (size_of found.config))
      (value_error "Unsafe configuration location/size")
  check_parents found.parents
  value ← loaded (found.loads (text_of found.config))
  c ← configuration L.parse value
  raise_if (not (found.renewed == ("/etc/letsencrypt/live/" <> c.lineage)))
      (value_error "Unexpected certificate lineage")
  take_lock "Unsafe deploy lock" found.lock found.flock
  cert ← resolve found.cert
  key ← resolve found.key
  check_source found.cert cert
  check_source found.key key
  private_regular 0 found.key.file
  pair ← found.snapshot
  ok (c, pair)
