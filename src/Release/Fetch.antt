-- ===== src/Release/Fetch.antt =====
-- The parts of `fetch` of release.py.
pub mod Save
pub mod Delivered
pub mod Whole
pub mod Failed
mod Tests
use aura_server.Base.{
  ℕ, ◌+◌, String, Bool, true, false, not, ◌&&◌, ◌||◌, Option, none, some, List, [], ◌∷◌, ◌++◌, ◌==◌,
  string_eq, nat_eq, length, ltb, if◌then◌else◌, Error, Result, ok, err, ◌>>=◌, ◌>>◌, raise_if,
  invalid_release,
}
use aura_server.Release.Tree.{max_archive}
use aura_server.Release.Bundle.{is_sha256}
use aura_server.Release.Disk.{Disk, exists, is_symlink, rename_to, rename_file}
use aura_server.Release.Disk.Parents.{parents}
use aura_server.Release.Redirect.{
  Url, is_given, Handler, Body, end, fault, chunk, Response, Answer, Exchange, open_url,
}

-- What `fetch` takes from outside the source. `is_loopback` is `ipaddress.ip_address(host).is_loopback`,
-- nothing where that raises `ValueError`. `clock` is the monotonic clock when the download starts.
pub record Network : Type 0 where
  pub urlsplit : String → Result Url
  pub is_loopback : String → Option Bool
  pub server : String → Answer
  pub clock : ℕ
  pub sha256 : List ℕ → String

abbrev pub is_local : Network → Option String → Bool
is_local net none = false
is_local net (some host) = elim (net.is_loopback host) [ none ↦ false | some loopback ↦ loopback ]

abbrev pub is_malformed : Url → Bool
is_malformed parsed =
    not (is_given parsed.hostname)
    || is_given parsed.username
    || is_given parsed.password
    || not (parsed.fragment == "")
    || not (parsed.query == "")

abbrev pub is_insecure : Network → Bool → Url → Bool
is_insecure net controlled_http parsed =
    not (parsed.scheme == "https")
    && not (controlled_http && parsed.scheme == "http" && is_local net parsed.hostname)

-- The tests on the URL and on the digest.
unfoldable pub admit_url : Network → String → String → Bool → Result Url
admit_url net url expected_sha controlled_http = do
  parsed ← net.urlsplit url
  raise_if (is_malformed parsed) (invalid_release "Invalid release URL")
  raise_if (is_insecure net controlled_http parsed)
      (invalid_release "HTTPS required; controlled HTTP is literal loopback only")
  raise_if (not (is_sha256 expected_sha)) (invalid_release "Trusted expected SHA-256 required")
  ok parsed

-- The loop over the response: `size` bytes are read so far, and they are `pending`.
unfoldable pub download : ℕ → ℕ → List ℕ → Body → Result (List ℕ)
download deadline size pending end = ok pending
download deadline size pending (fault e) = err e
download deadline size pending (chunk [] time rest) = ok pending
download deadline size pending (chunk (x ∷ xs) time rest) =
    let size' = size + length (x ∷ xs) in
    let later = download deadline size' (pending ++ (x ∷ xs)) rest in
    if ltb max_archive size' || ltb deadline time
    then err (invalid_release "Download budget exceeded")
    else later

-- The artifact in the temporary directory, with its digest checked.
unfoldable pub receive : Network → String → String → Url → Result (List ℕ)
receive net url expected_sha parsed = do
  response ←
      (open_url 4 net.urlsplit net.server (record { original = parsed; count = 0 }) url).outcome
  raise_if (not (response.status == 200)) (invalid_release "Release server did not return 200")
  bytes ← download (net.clock + 300) 0 [] response.body
  raise_if (not (net.sha256 bytes == expected_sha))
      (invalid_release "Downloaded artifact checksum mismatch")
  ok bytes

unfoldable pub admit_output : String → Disk → Result (Unit {0})
admit_output output d =
    raise_if (exists d output || is_symlink d output)
      (invalid_release "Download destination already exists")

unfoldable pub place : Bool → List ℕ → String → Disk → Result Disk
place leaves bytes output d = do
  raise_if (exists d output) (invalid_release "Download destination appeared")
  rename_to leaves output d (rename_file bytes output d)
