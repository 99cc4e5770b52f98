-- ===== src/Renew/Validate.antt =====
-- What the commands of infrastructure/ ask of the files they are given, and the tests of `validate_pair`.
pub mod Commands
pub mod Then
pub mod Total
use Prim.Native.Nat.{bit_and}
use aura_server.Base.{
  ℕ, String, Bool, true, false, not, ◌&&◌, ◌||◌, Option, none, some, List, [], ◌∷◌, length, ltb,
  ◌==◌, nat_eq, codes, if◌then◌else◌, Error, Result, ok, err, ◌>>=◌, ◌>>◌, raise_if, value_error,
  os_error,
}
use aura_server.Json.{str}
use aura_server.Address.{Parser, public_ip}
use aura_server.Prepare.{hostname}
use aura_server.Renew.State.{File, regular, special}

-- `ipaddress.ip_address`, the text with these code points, and whether `load_cert_chain` takes a certificate
-- with a key.
pub record Library : Type 0 where
  pub parse : Parser
  pub text : List ℕ → String
  pub loads_chain : List ℕ → List ℕ → Bool

-- A snapshot of a certificate and its key, and the path of the first.
pub record Snapshot : Type 0 where
  pub cert_path : String
  pub cert : List ℕ
  pub key : List ℕ

unfoldable pub host_name : Library → Bool → String → Result String
host_name L true host = public_ip L.parse (codes host) >>= λ address. ok (L.text address)
host_name L false host = hostname L.parse (str host)

-- The tests before the commands. An `SSLError` is an `OSError`.
unfoldable pub check_pair : Library → Snapshot → String → Bool → Result String
check_pair L pair host ip_identifier = do
  name ← host_name L ip_identifier host
  raise_if (ltb 65536 (length pair.cert) || ltb 32768 (length pair.key))
      (value_error "Certificate material exceeds budget")
  raise_if (not (L.loads_chain pair.cert pair.key)) (os_error "SSLError")
  ok name

abbrev pub verify_command : Snapshot → Bool → String → List String
verify_command pair ip_identifier name =
    "openssl"
    ∷ "verify"
    ∷ "-purpose"
    ∷ "sslserver"
    ∷ (if ip_identifier then "-verify_ip" else "-verify_hostname")
    ∷ name
    ∷ "-untrusted"
    ∷ pair.cert_path
    ∷ pair.cert_path
    ∷ []

-- 48 hours for an address, 14 days for a name.
abbrev pub expiry_command : Snapshot → Bool → List String
expiry_command pair ip_identifier =
    "openssl"
    ∷ "x509"
    ∷ "-in"
    ∷ pair.cert_path
    ∷ "-noout"
    ∷ "-checkend"
    ∷ (if ip_identifier then "172800" else "1209600")
    ∷ []

abbrev pub is_private_to : ℕ → ℕ → ℕ → Bool
is_private_to uid owner mode = owner == uid && bit_and mode 0o077 == 0

-- The parents of a configuration: root's own, closed to other writers.
unfoldable pub check_parents : List (ℕ × ℕ) → Result (Unit {0})
check_parents [] = ok tt
check_parents ((owner, mode) ∷ rest) = do
  raise_if (not (owner == 0) || not (bit_and mode 0o022 == 0))
      (value_error "Unsafe configuration parent")
  check_parents rest

-- The lock, as `fstat` sees it, and `flock`.
unfoldable pub take_lock : String → Result File → Result (Unit {0}) → Result (Unit {0})
take_lock message (err e) flock = err e
take_lock message (ok special) flock = err (value_error message)
take_lock message (ok (regular owner mode _)) flock = do
  raise_if (not (is_private_to 0 owner mode)) (value_error message)
  flock

abbrev pub size_of : Option File → ℕ
size_of (some (regular _ _ bytes)) = length bytes
size_of _ = 0

abbrev pub text_of : Option File → List ℕ
text_of (some (regular _ _ bytes)) = bytes
text_of _ = []

-- What a link of a certificate's lineage leads to, and whether that lies in the archive.
pub record Source : Type 0 where
  pub file : Option File
  pub archived : Bool

-- `resolve(strict=True)`
unfoldable pub resolve : Source → Result File
resolve source = elim source.file [ none ↦ err (os_error "FileNotFoundError") | some f ↦ ok f ]
