-- ===== src/Release/Pack/RoundTrip.antt =====
-- `unpack` after `pack`.
use aura_server.Base.{
  ℕ, ◌≡◌, ◌↔◌, ◌∙◌, refl, inl, inr, String, true, false, none, some, List, [], ◌==◌, string_eq,
  nat_eq, length, codes, all, All, Bool-cases, Option-cases, ok, err, Result, Result-cases,
  ok-injective, ltb,
}
use text.Mathlib.TextEquality.{eq_iff}
use aura_server.Base.Dict.{Dict, lookup, insert, lookup-insert_self}
use aura_server.Json.{Value}
use aura_server.Release.Member.Parts.{IsAccepted}
use aura_server.Release.Tree.{Tree, file, Platform, max_archive}
use aura_server.Release.Bundle.{is_sha256, verify_bundle}
use aura_server.Release.Bundle.Verified.{HasFile}
use aura_server.Release.Bundle.Complete.{verify_bundle-eq-ok}
use aura_server.Release.Archive.{file_mode, Stream, extract}
use aura_server.Release.Archive.Install.{unpack}
use aura_server.Release.Pack.{Packed, Tar, finished, pack}
use aura_server.Release.Pack.Whole.{pack_run}
use aura_server.Release.Pack.Extracts.{stream_of, IsFolder}
use aura_server.Release.Pack.Staged.{staged, IsAccepted-members}
use aura_server.Release.Archive.{read_plain, admit, stage, publish}
use aura_server.Release.Disk.{
  Disk, plain, directory, is_place, has_parents, exists, is_symlink, rename_directory,
}
use aura_server.Release.Disk.Parents.{parents}
use aura_server.Release.Disk.Effect.{Others, make_parents}

-- What a run that returns a digest has found before it wrote anything.
pack_opened :
    (P : Platform) (tar : Tar) (bundle : Tree) (output version arch : String) (d : Disk)
    {sha : String}
    → (pack P tar bundle output version arch d).result ≡ ok sha
    → (manifest : Dict Value) × (verify_bundle P bundle version arch ≡ ok manifest)
      × (lookup output d ≡ none)
      × (all (λ p. is_place (lookup p d)) (parents output) ≡ true)
unfolding pack
pack_opened P tar bundle output version arch d h =
    elim (Result-cases (verify_bundle P bundle version arch)) [
      | inr (e, p) ↦ absurd (cc (rw (p, pack) at h))
      | inl (manifest, p) ↦ elim (Option-cases (lookup output d)) [
        | inr (e, q) ↦ absurd (cc (rw (p, pack, q) at h))
        | inl q ↦ elim (Bool-cases (all (λ p. is_place (lookup p d)) (parents output))) [
          | inr r ↦ absurd (cc (rw (p, pack, q, r) at h))
          | inl r ↦ (manifest, p, q, r)
        ]
      ]
    ]

-- What a finished run has written.
finished-ok :
    (P : Platform) (tar : Tar) (output : String) (d : Disk) (r : Result (List ℕ)) {sha : String}
    → (finished P tar output d r).result ≡ ok sha
    → (bytes : List ℕ) × (r ≡ ok bytes)
      × (ltb max_archive (length bytes) ≡ false)
      × (P.sha256 bytes ≡ sha)
      × (lookup output (finished P tar output d r).disk ≡ some (plain bytes))
finished-ok P tar output d (err e) h = absurd (cc h)
finished-ok P tar output d (ok bytes) h = elim (Bool-cases (ltb max_archive (length bytes))) [
  | inl e ↦ absurd (cc (rw e at h))
  | inr e ↦ (bytes, refl, e, ok-injective (rw e at h), lookup-insert_self output (plain bytes) d)
]

admit_total :
    (P : Platform) (d : Disk) (archive destination sha : String) (bytes : List ℕ)
    → is_sha256 sha ≡ true
    → lookup archive d ≡ some (plain bytes)
    → ltb max_archive (length bytes) ≡ false
    → P.sha256 bytes ≡ sha
    → lookup destination d ≡ none
    → admit P d archive destination sha ≡ ok bytes
unfolding admit read_plain exists is_symlink
admit_total P d archive destination sha bytes hex there small digest free =
    let same : (P.sha256 bytes == sha) ≡ true = (eq_iff (P.sha256 bytes) sha).1 digest in
    rw (hex, there, read_plain, small, same, free)

read_plain_found :
    (d : Disk) (path : String) (bytes : List ℕ)
    → lookup path d ≡ some (plain bytes)
    → read_plain d path ≡ ok bytes
unfolding read_plain
read_plain_found d path bytes there = rw (read_plain, there) refl

module _ (P : Platform) (open_tar : List ℕ → Stream) (others : Others)
    (archive destination version arch : String) where
  -- An archive whose members make a verified directory is installed.
  unpack_total :
      (d ready : Disk) (sha : String) (bytes : List ℕ) (staging : Tree) {manifest : Dict Value}
      → admit P d archive destination sha ≡ ok bytes
      → make_parents others.refuses (parents destination) d
        ≡ record { result = ok tt; disk = ready }
      → read_plain (others.meanwhile ready) archive ≡ ok bytes
      → extract (open_tar bytes) [] 0 [] ≡ ok staging
      → verify_bundle P staging version arch ≡ ok manifest
      → lookup destination (others.later (others.meanwhile ready)) ≡ none
      → others.leaves ≡ true
      → has_parents (others.later (others.meanwhile ready)) destination ≡ true
      → unpack P open_tar others archive destination sha version arch d ≡ record {
        result = ok tt;
        disk = insert destination (directory staging) (others.later (others.meanwhile ready));
      }
  unfolding unpack stage publish exists rename_directory
  unpack_total d ready sha bytes staging a m r x v free kept placed =
      rw (a, m, r, x, v, free, kept, placed, rename_directory) refl

-- What `tarfile` and `gzip` promise: reading an archive of plain files gives back the files. The
-- names are those that `member_name` accepts.
abbrev pub Decodes : Tar → (List ℕ → Stream) → Type 0
Decodes tar open_tar =
    (ms : List Packed) (bytes : List ℕ)
    → All (λ m. IsAccepted (codes m.name)) ms
    → tar.encode "" 0 ms ≡ ok bytes
    → open_tar bytes ≡ stream_of ms

-- The round trip of a release. Let `pack` return a digest for a bundle that stands on disk as a
-- directory does, let reading undo the encoding, and let every digest be 64 hexadecimal digits. Where
-- the archive that `pack` left is found under some name, for the digest and again when it is opened,
-- nothing stands at the destination before the run nor before the rename, the directories above it
-- can be made, and they and the temporary directory are there at the rename, `unpack` with that digest
-- ends well: it puts a directory under the destination whose files are exactly the bundle's files,
-- with their bytes, each under the mode of its name.
pub unpack-pack :
    (P : Platform) (tar : Tar) (open_tar : List ℕ → Stream) (others : Others) (bundle : Tree)
    (output archive destination version arch sha : String) (d d' ready : Disk)
    → IsFolder bundle
    → Decodes tar open_tar
    → ((bytes : List ℕ) → is_sha256 (P.sha256 bytes) ≡ true)
    → (pack P tar bundle output version arch d).result ≡ ok sha
    → lookup archive d' ≡ lookup output (pack P tar bundle output version arch d).disk
    → lookup destination d' ≡ none
    → make_parents others.refuses (parents destination) d' ≡ record { result = ok tt; disk = ready }
    → lookup archive (others.meanwhile ready) ≡ lookup archive d'
    → lookup destination (others.later (others.meanwhile ready)) ≡ none
    → others.leaves ≡ true
    → has_parents (others.later (others.meanwhile ready)) destination ≡ true
    → let run = unpack P open_tar others archive destination sha version arch d' in
      (run.result ≡ ok tt)
      × ((staging : Tree) × (lookup destination run.disk ≡ some (directory staging))
          × ((n : String) (bytes : List ℕ)
              → HasFile bundle n bytes ↔ (lookup n staging ≡ some (file (file_mode n) bytes))))
unpack-pack P tar open_tar others bundle output archive destination version arch sha d d' ready
      stands decodes hex h there free made again still_free kept above =
    let (manifest, verified, new, placed) = pack_opened P tar bundle output version arch d h in
    let (files, ms, v, listed, good, run) =
      pack_run P tar bundle output version arch d verified new placed in
    let (bytes, encoded, small, digest, written) =
      finished-ok P tar output d (tar.encode "" 0 ms) (rw run at h) in
    let (staging, s) = staged P bundle version arch manifest files v stands ms listed good in
    let same =
      decodes ms bytes (IsAccepted-members P bundle version arch manifest files v ms good)
        encoded in
    let admitted =
      admit_total P d' archive destination sha bytes (rw (← digest) (hex bytes))
        (there ∙ (rw run written)) small digest free in
    let installed =
      unpack_total P open_tar others archive destination version arch d' ready sha bytes staging
        admitted made
        (read_plain_found (others.meanwhile ready) archive bytes
          (again ∙ (there ∙ (rw run written))))
        (rw same s.extracted)
        ((verify_bundle-eq-ok P staging version arch manifest).1 (files, s.verified)) still_free
        kept above in
    rw installed (
      refl,
      (
        staging,
        lookup-insert_self destination (directory staging) (others.later (others.meanwhile ready)),
        s.files_there,
      ),
    )
