-- ===== src/Renew/Command.antt =====
-- `main` of renew.py: the tests, the validation, and what each role does then.
pub mod Run
pub mod Renewed
pub mod Prepared
use aura_server.Base.{
  ℕ, String, ◌<>◌, Bool, true, false, not, ◌||◌, Option, none, some, List, [], ◌∷◌, ltb, ◌==◌,
  nat_eq, string_eq, if◌then◌else◌, Result, ok, err, ◌>>=◌, ◌>>◌, raise_if, value_error, os_error,
  type_error,
}
use aura_server.Base.Dict.{Dict, keys, same_set}
use aura_server.Json.{Value, str}
use aura_server.Prepare.{hostname}
use aura_server.Prepare.Render.{item_of, is_one}
use aura_server.Prepare.Write.{loaded}
use aura_server.Renew.State.{File, regular, special, Owner, private_regular}
use aura_server.Renew.Validate.{
  Library, Snapshot, check_parents, take_lock, size_of, text_of, Source, resolve,
}

pub data Role : Type 0 where
  owner derp rendezvous : Role

-- `role not in {"owner", "derp", "rendezvous"}`
abbrev pub role_named : String → Option Role
role_named s =
    if s == "owner"
    then some owner
    else if s == "derp"
    then some derp
    else if s == "rendezvous"
    then some rendezvous
    else none

unfoldable pub role_of : Value → Result Role
role_of (str s) = elim (role_named s) [
  | none ↦ err (value_error "Unsupported renewal configuration")
  | some role ↦ ok role
]
role_of _ = err (value_error "Unsupported renewal configuration")

abbrev pub fields : List String
fields = "version" ∷ "role" ∷ "hostname" ∷ []

-- The role and the host of a configuration.
unfoldable pub configuration : Library → Dict Value → Result (Role × String)
configuration L value = do
  raise_if (not (same_set (keys value) fields)) (value_error "Unsupported renewal configuration")
  version ← item_of value "version"
  raise_if (not (is_one version)) (value_error "Unsupported renewal configuration")
  role_value ← item_of value "role"
  role ← role_of role_value
  host_value ← item_of value "hostname"
  host ← hostname L.parse host_value
  ok (role, host)

-- A special file is refused here, or else by `copyfile`.
unfoldable pub check_source : Source → File → Result (Unit {0})
check_source source f = elim f [
  | special ↦ err (os_error "SpecialFileError")
  | regular uid mode bytes ↦
      raise_if (not source.archived || not (uid == 0))
        (value_error "Certificate must be from the root-owned Certbot archive")
]

-- What `main` finds, as for ip_deploy.py, and the owner service's user.
pub record Inputs : Type 0 where
  pub euid : ℕ
  pub config : Option File
  pub contained : Bool
  pub parents : List (ℕ × ℕ)
  pub loads : List ℕ → Option Value
  pub renewed : String
  pub lock : Result File
  pub flock : Result (Unit {0})
  pub cert : Source
  pub key : Source
  pub snapshot : Result Snapshot
  pub user : Result ℕ

unfoldable pub accept : Library → Inputs → Result (Role × String × Snapshot)
accept L found = do
  raise_if (not (found.euid == 0)) (value_error "Run as root from the certificate deploy hook")
  private_regular 0 found.config
  raise_if (not found.contained)
      (value_error "Use the private infrastructure configuration directory")
  check_parents found.parents
  raise_if (ltb 4096 (size_of found.config)) (value_error "Configuration exceeds budget")
  value ← loaded (found.loads (text_of found.config))
  c ← configuration L value
  raise_if (not (found.renewed == ("/etc/letsencrypt/live/" <> c.1)))
      (value_error "Unexpected certificate lineage")
  take_lock "Unsafe renewal lock" found.lock found.flock
  cert ← resolve found.cert
  key ← resolve found.key
  check_source found.cert cert
  check_source found.key key
  private_regular 0 found.key.file
  raise_if (ltb 65536 (size_of found.cert.file) || ltb 65536 (size_of found.key.file))
      (value_error "Certificate material exceeds budget")
  pair ← found.snapshot
  ok (c.0, c.1, pair)
