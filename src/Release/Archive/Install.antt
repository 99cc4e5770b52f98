-- ===== src/Release/Archive/Install.antt =====
-- `unpack` of release.py, call by call.
use aura_server.Base.{ℕ, String, List}
use aura_server.Release.Tree.{Platform}
use aura_server.Release.Disk.Parents.{parents}
use aura_server.Release.Disk.Effect.{
  Others, Effect, ◌>>=◌, ◌>>◌, look, interfere, call, make_parents,
}
use aura_server.Release.Archive.{Stream, read_plain, admit, stage, publish}

-- The archive is read twice, for its digest and for its members. The temporary directory is gone
-- afterwards in every case.
unfoldable pub unpack :
    Platform
    → (List ℕ → Stream)
    → Others
    → String
    → String
    → String
    → String
    → String
    → Effect (Unit {0})
unpack P open_tar others archive destination expected_sha version arch = do
  look (λ d. admit P d archive destination expected_sha)
  make_parents others.refuses (parents destination)
  interfere others.meanwhile
  bytes ← look (λ d. read_plain d archive)
  staging ← look (λ _. stage P open_tar bytes version arch)
  interfere others.later
  call (publish others.leaves staging destination)
