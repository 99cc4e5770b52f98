-- ===== src/Release/Bundle.antt =====
-- `verify_bundle` of release.py: a directory against its manifest and the component lock.
pub mod Verified
mod Stages
pub mod Sound
pub mod Listed
pub mod Complete
use aura_server.Base.{
  ℕ, ◌+◌, ◌*◌, String, ◌<>◌, Bool, not, ◌&&◌, ◌||◌, Option, none, some, List, [], ◌∷◌, length, take,
  drop, all, ltb, leb, ◌==◌, nat_eq, string_eq, list_eq, contains, if◌then◌else◌, codes, is_alnum,
  is_hex, Result, ok, err, ◌>>=◌, ◌>>◌, raise_if, invalid_release, os_error,
}
use aura_server.Base.Dict.{Dict, keys, lookup, same_set}
use aura_server.Json.{Value, null, int, pos, str, object, as_object, to_dict, value_eq, read_json}
use aura_server.Release.Member.{member_name}
use aura_server.Release.Tree.{
  Tree, Node, file, folder, link, special, Platform, max_expanded, max_files, required,
}

-- `manifest.get(field)`
abbrev pub get : Dict Value → String → Value
get d field = elim (lookup field d) [ none ↦ null | some v ↦ v ]

-- `[a-zA-Z0-9._-]{1,64}`
abbrev pub is_version_char : ℕ → Bool
is_version_char c = is_alnum c || c == b'.' || c == b'_' || c == b'-'

unfoldable pub is_version : String → Bool
is_version v =
    leb 1 (length (codes v)) && leb (length (codes v)) 64 && all is_version_char (codes v)

-- `[0-9a-f]{64}`
unfoldable pub is_sha256 : String → Bool
is_sha256 s = length (codes s) == 64 && all is_hex (codes s)

abbrev pub is_arch : String → Bool
is_arch arch = arch == "amd64" || arch == "arm64"

unfoldable pub read_manifest : Platform → Tree → Result Value
read_manifest P root = elim (lookup "manifest.json" root) [
  | none ↦ err (os_error "FileNotFoundError")
  | some node ↦ elim node [
    | file _ bytes ↦
        if ltb (128 * 1024) (length bytes)
        then err (invalid_release "Invalid manifest")
        else read_json P.loads bytes
    | folder ↦ err (os_error "IsADirectoryError")
    | link ↦ err (invalid_release "Invalid manifest")
    | special ↦ err (os_error "special file")
  ]
]

-- `lock`, with the `.items()` that its caller asks for
unfoldable pub lock : Platform → Result (Dict Value)
lock P = do value ← read_json P.loads P.components; as_object value

unfoldable pub check_lock : Dict Value → Dict Value → Result (Unit {0})
check_lock manifest [] = ok tt
check_lock manifest ((field, expected) ∷ rest) = do
  raise_if (not (value_eq (get manifest field) expected))
      (invalid_release ("Component provenance mismatch: " <> field))
  check_lock manifest rest

abbrev pub as_files : Value → Result (Dict Value)
as_files (object fs) = ok (to_dict fs)
as_files _ = err (invalid_release "Incomplete file inventory")

unfoldable pub listed_files : Dict Value → Result (Dict Value)
listed_files manifest = do
  files ← as_files (get manifest "files")
  raise_if (not (all (contains (keys files)) required) || leb max_files (length files))
      (invalid_release "Incomplete file inventory")
  ok files

-- The loop over `root.rglob("*")`, with the names that it finds and their bytes so far.
unfoldable pub inventory : Tree → List String → ℕ → Result (List String × ℕ)
inventory [] actual total = ok (actual, total)
inventory ((path, node) ∷ rest) actual total = elim node [
  | file _ bytes ↦ do name ← member_name path; inventory rest (name ∷ actual) (total + length bytes)
  | folder ↦ inventory rest actual total
  | link ↦ err (invalid_release "Release links/special files prohibited")
  | special ↦ err (invalid_release "Release links/special files prohibited")
]

-- `(root / name).open("rb")` and all its bytes
unfoldable pub read_file : Tree → String → Result (List ℕ)
read_file root name = elim (lookup name root) [
  | none ↦ err (os_error "FileNotFoundError")
  | some node ↦ elim node [
    | file _ bytes ↦ ok bytes
    | folder ↦ err (os_error "IsADirectoryError")
    | link ↦ err (os_error "link")
    | special ↦ err (os_error "special file")
  ]
]

unfoldable pub check_digest : Platform → Tree → String → Value → Result (Unit {0})
check_digest P root name (str expected) = do
  raise_if (not (is_sha256 expected)) (invalid_release "Release file integrity mismatch")
  bytes ← read_file root name
  raise_if (not (P.sha256 bytes == expected)) (invalid_release "Release file integrity mismatch")
check_digest P root name _ = err (invalid_release "Release file integrity mismatch")

unfoldable pub check_digests : Platform → Tree → Dict Value → Result (Unit {0})
check_digests P root [] = ok tt
check_digests P root ((name, expected) ∷ rest) = do
  member_name name
  check_digest P root name expected
  check_digests P root rest

-- The first 20 bytes of a little-endian 64-bit ELF file for the architecture.
abbrev pub elf : List ℕ
elf = 0x7f ∷ b'E' ∷ b'L' ∷ b'F' ∷ 2 ∷ 1 ∷ []

abbrev pub machine : String → ℕ
machine arch = if arch == "amd64" then 62 else 183

-- `struct.unpack("<H", header[18:20])`
abbrev pub unpack_half : List ℕ → ℕ
unpack_half (lo ∷ hi ∷ []) = lo + 256 * hi
unpack_half _ = 0

unfoldable pub is_executable_for : String → List ℕ → Bool
is_executable_for arch bytes =
    let header = take 20 bytes in
    length header == 20 && take 6 header == elf && unpack_half (drop 18 header) == machine arch

unfoldable pub check_header : Tree → String → String → Result (Unit {0})
check_header root arch name = do
  bytes ← read_file root name
  raise_if (not (is_executable_for arch bytes)) (invalid_release "Executable architecture mismatch")

-- The tests on the directory once its inventory is read.
unfoldable pub check_content :
    Platform → Tree → String → Dict Value → List String × ℕ → Result (Unit {0})
check_content P root arch files (actual, total) = do
  raise_if (not (same_set actual ("manifest.json" ∷ keys files)) || ltb max_expanded total)
      (invalid_release "Unexpected release content/size")
  check_digests P root files
  check_header root arch "bin/aura-server"
  check_header root arch "bin/navidrome"

unfoldable pub check_identity : Dict Value → String → String → Result (Unit {0})
check_identity manifest version arch =
    raise_if
      (not (value_eq (get manifest "format") (int (pos 1)))
        || not (value_eq (get manifest "version") (str version))
        || not (value_eq (get manifest "arch") (str arch)))
      (invalid_release "Release format/version/architecture mismatch")

unfoldable pub verify_bundle : Platform → Tree → String → String → Result (Dict Value)
verify_bundle P root version arch = do
  raise_if (not (is_arch arch) || not (is_version version))
      (invalid_release "Unsupported architecture/version")
  value ← read_manifest P root
  manifest ← as_object value
  check_identity manifest version arch
  components ← lock P
  check_lock manifest components
  files ← listed_files manifest
  found ← inventory root [] 0
  check_content P root arch files found
  ok manifest
