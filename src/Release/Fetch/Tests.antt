-- ===== src/Release/Fetch/Tests.antt =====
-- Downloads over a small network, and the theorems at them.
use aura_server.Base.{
  ◌+◌, ◌≤◌, ◌≡◌, refl, String, true, false, none, some, List, [], ◌∷◌, ◌==◌, string_eq, length, All,
  if◌then◌else◌, ok, err, invalid_release,
}
use aura_server.Base.Dict.{lookup, insert}
use aura_server.Release.Bundle.{is_sha256}
use aura_server.Release.Disk.{exists, is_symlink, rename_file}
use aura_server.Release.Disk.Parents.{above}
use aura_server.Release.Redirect.{
  Url, Handler, end, chunk, respond, redirect, allowed, check_redirect, redirect_request, answered,
  open_url,
}
use aura_server.Release.Redirect.Chain.{IsPermitted, open_url_lem}
use aura_server.Release.Fetch.{Network, admit_url, download, receive, admit_output, place}
use aura_server.Release.Fetch.Save.{fetch}
use aura_server.Release.Fetch.Delivered.{IsFetched}
use aura_server.Release.Fetch.Whole.{fetch-IsFetched}
use aura_server.Release.Fetch.Failed.{fetch_failed}
use aura_server.Release.Disk.Effect.{Others, make_parents}
use aura_server.Release.Disk.Extended.{IsLeft}

abbrev at_host : String → Url
at_host host = record {
  scheme = "https";
  hostname = some host;
  port = ok none;
  username = none;
  password = none;
  query = "";
  fragment = "";
}

abbrev first_url : String
first_url = "https://github.com/a"

abbrev zeros : String
zeros = "0000000000000000000000000000000000000000000000000000000000000000"

-- One redirect to the asset host, which answers with two parts.
abbrev network : Network
network = record {
  urlsplit = λ url.
      if url == first_url
      then ok (at_host "github.com")
      else ok (at_host "release-assets.githubusercontent.com");
  is_loopback = λ _. none;
  server = λ url.
      if url == first_url
      then redirect "https://release-assets.githubusercontent.com/a"
      else respond (record { status = 200; body = chunk (1 ∷ 2 ∷ []) 5 (chunk (3 ∷ []) 6 end) });
  clock = 0;
  sha256 = λ _. zeros;
}

open_url_lem_example :
    let first : Handler = record { original = at_host "github.com"; count = 0 } in
    let exchange = open_url 4 network.urlsplit network.server first first_url in
    ((rest : List String) × (exchange.requests ≡ first_url ∷ rest)
      × All (IsPermitted network.urlsplit (at_host "github.com")) rest
      × (length rest ≤ 3))
    × (open_url (4 + 2) network.urlsplit network.server first first_url ≡ exchange)
open_url_lem_example =
    open_url_lem network.urlsplit network.server (at_host "github.com") first_url 2

abbrev others : Others
others = record { meanwhile = λ d. d; later = λ d. d; leaves = true; refuses = λ _. false }

-- The network with another artifact.
abbrev forged : Network
forged = record network { sha256 = λ _. "" }

fetch_run : (fetch network others first_url "/out/a" zeros false []).result ≡ ok tt
unfolding fetch admit_url receive admit_output place download open_url answered redirect_request
    check_redirect allowed is_sha256 exists is_symlink rename_file above make_parents lookup insert
fetch_run = refl

fetch_refused :
    (fetch forged others first_url "/out/a" zeros false []).result
    ≡ err (invalid_release "Downloaded artifact checksum mismatch")
unfolding fetch admit_url receive admit_output place download open_url answered redirect_request
    check_redirect allowed is_sha256 exists is_symlink rename_file above make_parents lookup insert
fetch_refused = refl

fetch-IsFetched_example : IsFetched network others first_url "/out/a" zeros false []
fetch-IsFetched_example = fetch-IsFetched network others first_url "/out/a" zeros false [] fetch_run

fetch_failed_example :
    let after = (fetch forged others first_url "/out/a" zeros false []).disk in
    IsLeft "/out/a" [] after (λ grown. after ≡ grown)
fetch_failed_example = fetch_failed forged others first_url "/out/a" zeros false [] fetch_refused
