-- ===== src/Refresh.antt =====
-- owner_ip_refresh.py: the published certificate goes into the owner service's directory.
pub mod Command
pub mod Installed
use aura_server.Base.{
  ℕ, String, ◌<>◌, Bool, false, not, ◌&&◌, ◌||◌, take, list_eq, nat_eq, codes, os_error, [], Option,
  none, some, List, ltb, string_eq, ◌==◌, if◌then◌else◌, Result, ok, err, ◌>>=◌, ◌>>◌, raise_if,
  value_error,
}
use aura_server.Base.Dict.{lookup}
use aura_server.Json.{Value, str}
use aura_server.Prepare.Write.{loaded}
use aura_server.Renew.State.{File, regular, Owner, private_regular}
use aura_server.Renew.Validate.{Library, Snapshot, size_of, text_of}
use aura_server.Deploy.Configuration.{Configured, configuration}

abbrev pub is_host : String → Option Value → Bool
is_host host (some (str s)) = s == host
is_host host _ = false

-- The service's own configuration names the address that is renewed. It is read as the service's user.
unfoldable pub check_host : (List ℕ → Option Value) → ℕ → String → Owner → Result (Unit {0})
check_host loads uid public s = do
  let file = lookup "config.json" s.live
  private_regular uid file
  raise_if (ltb 65536 (size_of file)) (value_error "Configuration too large")
  config ← loaded (loads (text_of file))
  raise_if (not (is_host (public <> ":9443") (lookup "ownerHost" config)))
      (value_error "Owner identity transition must be explicit")

-- What `main` finds: who runs it, the configuration, the lock, the service's user, and where `current`
-- leads: the parent and the name of the pair's directory, and its two files.
pub record Inputs : Type 0 where
  pub euid : ℕ
  pub config : Option File
  pub lock : Result (Unit {0})
  pub flock : Result (Unit {0})
  pub user : Result ℕ
  pub material : Result (String × String)
  pub cert : Option File
  pub key : Option File

unfoldable pub is_published : String → String → Bool
is_published parent name =
    parent == "/etc/aura-infrastructure/tls" && take 5 (codes name) == codes "pair-"

-- The tests of `main`, with the address, the user and the pair that they let through.
unfoldable pub accept : Library → (List ℕ → Option Value) → Inputs → Result (String × ℕ × Snapshot)
accept L loads found = do
  raise_if (not (found.euid == 0)) (value_error "Root service required")
  private_regular 0 found.config
  raise_if (ltb 4096 (size_of found.config)) (value_error "Configuration too large")
  value ← loaded (loads (text_of found.config))
  c ← configuration L.parse value
  raise_if (not c.owner) (value_error "Owner renewal not enabled")
  found.lock
  found.flock
  uid ← found.user
  place ← found.material
  raise_if (not (is_published place.0 place.1)) (value_error "Unexpected published certificate")
  private_regular 0 found.cert
  private_regular 0 found.key
  ok (
    c.public,
    uid,
    record {
      cert_path = place.0 <> ("/" <> (place.1 <> "/fullchain.pem"));
      cert = text_of found.cert;
      key = text_of found.key;
    },
  )
