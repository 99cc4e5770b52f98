-- ===== src/Release/Archive.antt =====
-- The parts of `unpack` of release.py, and the tar members that it lets through.
pub mod Members
pub mod Extract
pub mod Install
pub mod Unpack
pub mod Failed
pub mod Delivers
use aura_server.Base.{
  ℕ, ◌+◌, String, Bool, true, false, not, ◌||◌, Option, none, some, List, [], ◌∷◌, length, ltb,
  ◌==◌, nat_eq, string_eq, contains, if◌then◌else◌, Result, ok, err, ◌>>=◌, ◌>>◌, raise_if,
  invalid_release, os_error, tar_error,
}
use aura_server.Base.Dict.{Dict, lookup, insert}
use aura_server.Json.{ℤ, is_negative, magnitude}
use aura_server.Release.Member.{member_name}
use aura_server.Release.Tree.{
  Tree, Node, file, folder, link, special, Platform, max_archive, max_expanded, max_files,
}
use aura_server.Release.Bundle.{is_sha256, verify_bundle}
use aura_server.Release.Disk.{
  Disk, Entry, plain, directory, symlink, to_file, to_folder, dangling, exists, is_symlink,
  rename_to, rename_directory,
}
use aura_server.Release.Disk.Parents.{parents, mkdirs}

-- A header that `tarfile` reads: its type byte, the size that it states, whether it is sparse or has
-- PAX headers, and the bytes that follow (`none`: they end too early).
pub record TarMember : Type 0 where
  pub name : String
  pub kind : ℕ
  pub size : ℤ
  pub sparse : Bool
  pub pax : Bool
  pub content : Option (List ℕ)

-- The members of an archive as the iteration meets them; it may end in a `TarError`.
pub data Stream : Type 0 where
  done broken : Stream
  next : TarMember → Stream → Stream

-- `REGTYPE` and `AREGTYPE`
abbrev pub is_regular : ℕ → Bool
is_regular kind = kind == b'0' || kind == 0

-- `isfile`: contiguous and GNU sparse files count as well.
abbrev pub is_file : ℕ → Bool
is_file kind = is_regular kind || kind == b'7' || kind == b'S'

-- `RegularTarInfo._proc_member`
unfoldable pub proc_member : TarMember → Result TarMember
proc_member m = do
  raise_if (not (is_regular m.kind))
      (invalid_release "Only regular USTAR release members permitted")
  member_name m.name
  ok m

abbrev pub file_mode : String → ℕ
file_mode name =
    if contains ("aura-package.py" ∷ "bin/aura-server" ∷ "bin/navidrome" ∷ []) name
    then 0o755
    else 0o644

abbrev pub is_folder : Node → Bool
is_folder folder = true
is_folder _ = false

-- `target.open("xb")`, the copy and the `chmod`. The dot is the staging directory itself.
unfoldable pub create : String → Option (List ℕ) → Tree → Result Tree
create name content staging = elim (lookup name staging) [
  | some _ ↦ err (os_error "FileExistsError")
  | none ↦ if name == "." then err (os_error "FileExistsError") else elim content [
    | none ↦ err tar_error
    | some bytes ↦ ok (insert name (file (file_mode name) bytes) staging)
  ]
]

-- One round of the loop over the members: the tests, and the file that it writes.
unfoldable pub extract_member : TarMember → List String → ℕ → Tree → Result Tree
extract_member m seen total staging = do
  name ← member_name m.name
  raise_if (not (is_file m.kind) || m.sparse || m.pax || contains seen name)
      (invalid_release "Links, sparse, duplicate or special members prohibited")
  raise_if
      (is_negative m.size
        || ltb max_expanded (total + magnitude m.size)
        || ltb max_files (length (name ∷ seen)))
      (invalid_release "Expanded archive budget exceeded")
  below ← mkdirs is_folder folder (parents name) staging
  create name m.content below

unfoldable pub extract : Stream → List String → ℕ → Tree → Result Tree
extract done seen total staging = ok staging
extract broken seen total staging = err tar_error
extract (next header rest) seen total staging = do
  m ← proc_member header
  after ← extract_member m seen total staging
  extract rest (m.name ∷ seen) (total + magnitude m.size) after

-- The bytes of a file on disk, by way of a link too.
unfoldable pub read_plain : Disk → String → Result (List ℕ)
read_plain d path = elim (lookup path d) [
  | none ↦ err (os_error "FileNotFoundError")
  | some entry ↦ elim entry [
    | plain bytes ↦ ok bytes
    | directory _ ↦ err (os_error "IsADirectoryError")
    | symlink target ↦ elim target [
      | to_file bytes ↦ ok bytes
      | to_folder ↦ err (os_error "IsADirectoryError")
      | dangling ↦ err (os_error "FileNotFoundError")
    ]
  ]
]

-- The tests of `unpack` before it writes anything: the bytes of the archive.
unfoldable pub admit : Platform → Disk → String → String → String → Result (List ℕ)
admit P d archive destination expected_sha = do
  raise_if (not (is_sha256 expected_sha)) (invalid_release "Archive checksum/size mismatch")
  bytes ← read_plain d archive
  raise_if (ltb max_archive (length bytes) || not (P.sha256 bytes == expected_sha))
      (invalid_release "Archive checksum/size mismatch")
  raise_if (exists d destination || is_symlink d destination)
      (invalid_release "Destination already exists; nothing overwritten")
  ok bytes

-- What happens in the private sibling: the directory that is ready to be published.
unfoldable pub stage : Platform → (List ℕ → Stream) → List ℕ → String → String → Result Tree
stage P open_tar bytes version arch = do
  staging ← extract (open_tar bytes) [] 0 []
  verify_bundle P staging version arch
  ok staging

-- The second look at the destination, and the rename.
unfoldable pub publish : Bool → Tree → String → Disk → Result Disk
publish leaves staging destination d = do
  raise_if (exists d destination) (invalid_release "Destination appeared during verification")
  rename_to leaves destination d (rename_directory staging destination d)
