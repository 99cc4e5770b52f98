-- ===== src/Release/Fetch/Save.antt =====
-- `fetch` of release.py, call by call.
use aura_server.Base.{String, Bool}
use aura_server.Release.Disk.Parents.{parents}
use aura_server.Release.Disk.Effect.{
  Others, Effect, ◌>>=◌, ◌>>◌, look, interfere, call, make_parents,
}
use aura_server.Release.Fetch.{Network, admit_url, receive, admit_output, place}

-- The temporary directory is gone afterwards in every case.
unfoldable pub fetch : Network → Others → String → String → String → Bool → Effect (Unit {0})
fetch net others url output expected_sha controlled_http = do
  parsed ← look (λ _. admit_url net url expected_sha controlled_http)
  look (admit_output output)
  make_parents others.refuses (parents output)
  interfere others.meanwhile
  bytes ← look (λ _. receive net url expected_sha parsed)
  call (place others.leaves bytes output)
