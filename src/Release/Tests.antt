-- ===== src/Release/Tests.antt =====
-- Runs of release.py's functions on a small release, and the theorems at it.
use aura_server.Base.{
  true, all, contains, All, ℕ, ◌≡◌, refl, ◌↔◌, String, false, none, some, List, [], ◌∷◌, ◌==◌,
  nat_eq, list_eq, string_eq, length, if◌then◌else◌, codes, split, join, ok, err, invalid_release,
}
use aura_server.Base.Dict.{Dict, keys, lookup, insert}
use aura_server.Json.{
  Value, int, pos, str, object, Fields, end, field, value_eq, unique, hooked, read_json, to_dict,
}
use aura_server.Json.Unique.{HasUniqueKeys, read_json-eq-ok}
use aura_server.Release.Member.{
  member_name, is_unsafe_name, pure_posix_path, path_str, proper_parts,
}
use aura_server.Release.Member.Parts.{IsAccepted}
use aura_server.Release.Member.Accepted.{member_name-eq-ok}
use aura_server.Release.Tree.{Tree, file, folder, Platform}
use aura_server.Release.Bundle.{
  is_version, is_sha256, read_manifest, lock, check_lock, listed_files, inventory, read_file,
  check_digest, check_digests, is_executable_for, check_header, check_content, check_identity,
  verify_bundle,
}
use aura_server.Release.Bundle.Verified.{IsVerified}
use aura_server.Release.Bundle.Complete.{verify_bundle-eq-ok}
use aura_server.Release.Disk.{
  is_place, Disk, plain, directory, exists, is_symlink, rename_directory,
}
use aura_server.Release.Disk.Parents.{above, parents, mkdirs}
use aura_server.Release.Archive.{
  TarMember, Stream, done, broken, next, proc_member, create, extract_member, extract, read_plain,
  admit, stage, publish,
}
use aura_server.Release.Archive.Install.{unpack}
use aura_server.Release.Archive.Members.{members}
use aura_server.Release.Archive.Extract.{IsWhole, IsExtracted, extract_lem}
use aura_server.Release.Archive.Delivers.{IsDelivered, unpack-IsDelivered}
use aura_server.Release.Disk.Effect.{Others, Outcome, make_parents}
use aura_server.Release.Disk.Extended.{IsLeft}
use aura_server.Release.Archive.Failed.{Acted, unpack_failed}
use aura_server.Release.Pack.{Packed, Tar, finished, pack}
use aura_server.Release.Pack.Whole.{IsMember, member_names, pack_lem}

abbrev pub zeros : String
zeros = "0000000000000000000000000000000000000000000000000000000000000000"

abbrev components : Value
components = object (field "format" (int (pos 1)) (field "goVersion" (str "1.27.1") end))

abbrev pub manifest_fields : Fields
manifest_fields = field "format" (int (pos 1)) (
    field "goVersion" (str "1.27.1") (
      field "version" (str "test-1") (
        field "arch" (str "amd64") (
          field "files"
            (object (
              field "bin/aura-server" (str zeros) (
                field "bin/navidrome" (str zeros)
                  (field "aura-package.py" (str zeros) (field "README.md" (str zeros) end)))))
            end))))

abbrev pub manifest_dict : Dict Value
manifest_dict = to_dict manifest_fields

-- A digest that tells nothing apart, and a reader that knows two texts.
abbrev pub platform : Platform
platform = record {
  sha256 = λ _. zeros;
  loads = λ bytes.
      if bytes == 1 ∷ []
      then some components
      else if bytes == 2 ∷ []
      then some (object manifest_fields)
      else none;
  components = 1 ∷ [];
}

abbrev pub executable : List ℕ
executable =
    0x7f ∷ b'E' ∷ b'L' ∷ b'F' ∷ 2 ∷ 1 ∷ 0 ∷ 0 ∷ 0 ∷ 0 ∷ 0 ∷ 0 ∷ 0 ∷ 0 ∷ 0 ∷ 0 ∷ 0 ∷ 0 ∷ 62 ∷ 0 ∷ 7
    ∷ []

abbrev regular : String → List ℕ → TarMember
regular name bytes = record {
  name = name;
  kind = b'0';
  size = pos (length bytes);
  sparse = false;
  pax = false;
  content = some bytes;
}

abbrev archive : Stream
archive = next (regular "README.md" (3 ∷ [])) (
    next (regular "aura-package.py" (4 ∷ [])) (
      next (regular "bin/aura-server" executable)
        (next (regular "bin/navidrome" executable) (next (regular "manifest.json" (2 ∷ [])) done))))

abbrev open_archive : List ℕ → Stream
open_archive bytes = if bytes == 9 ∷ [] then archive else broken

abbrev before : Disk
before = ("/in", directory []) ∷ ("/in/a.tar.gz", plain (9 ∷ [])) ∷ []

abbrev pub staged : Tree
staged =
    ("README.md", file 0o644 (3 ∷ []))
    ∷ ("aura-package.py", file 0o755 (4 ∷ []))
    ∷ ("bin", folder)
    ∷ ("bin/aura-server", file 0o755 executable)
    ∷ ("bin/navidrome", file 0o755 executable)
    ∷ ("manifest.json", file 0o644 (2 ∷ []))
    ∷ []

member_name_run : member_name "bin/navidrome" ≡ ok "bin/navidrome"
unfolding member_name is_unsafe_name pure_posix_path path_str proper_parts split join
member_name_run = refl

extract_run : extract archive [] 0 [] ≡ ok staged
unfolding extract proc_member extract_member create mkdirs above lookup insert member_name
    is_unsafe_name pure_posix_path path_str proper_parts split join
extract_run = refl

-- Nobody else acts.
abbrev others : Others
others = record { meanwhile = λ d. d; later = λ d. d; leaves = true; refuses = λ _. false }

-- The command with a given expected digest.
abbrev attempt : String → Outcome (Unit {0})
attempt sha =
    unpack platform open_archive others "/in/a.tar.gz" "/out/aura" sha "test-1" "amd64" before

-- With its `unfolding` line a proof computes the whole command.
pub unpacked : String → Outcome (Unit {0})
unfolding unpack admit read_plain exists is_symlink stage publish rename_directory extract
    proc_member extract_member create mkdirs make_parents above verify_bundle read_manifest lock
    read_json hooked unique check_identity check_lock listed_files inventory check_content
    check_digests check_digest read_file is_sha256 check_header is_executable_for is_version
    value_eq member_name is_unsafe_name pure_posix_path path_str proper_parts split join lookup
    insert
unpacked = attempt

pub verify_run : verify_bundle platform staged "test-1" "amd64" ≡ ok (manifest_dict)
unfolding unpacked
verify_run = refl

unpack_run : (attempt zeros).result ≡ ok tt
unfolding unpacked
unpack_run = refl

unpack_refused : (attempt "00").result ≡ err (invalid_release "Archive checksum/size mismatch")
unfolding unpacked
unpack_refused = refl

-- The name of a file that the release holds.
abbrev navidrome : String
navidrome = "bin/navidrome"

member_name-eq-ok_example :
    (member_name navidrome ≡ ok navidrome)
    ↔ ((navidrome ≡ navidrome) × IsAccepted (codes navidrome))
member_name-eq-ok_example = member_name-eq-ok navidrome navidrome

extract_lem_example : IsWhole archive × IsExtracted (members archive) [] 0 [] staged
extract_lem_example = extract_lem archive staged extract_run

verify_bundle-eq-ok_example :
    (verify_bundle platform staged "test-1" "amd64" ≡ ok manifest_dict)
    ↔ ((files : Dict Value) × IsVerified platform staged "test-1" "amd64" manifest_dict files)
verify_bundle-eq-ok_example = verify_bundle-eq-ok platform staged "test-1" "amd64" manifest_dict

read_json-eq-ok_example : (read_json platform.loads (2 ∷ []) ≡ ok (object manifest_fields)) ↔ (
    (platform.loads (2 ∷ []) ≡ some (object manifest_fields))
    × HasUniqueKeys (object manifest_fields))
read_json-eq-ok_example = read_json-eq-ok platform.loads (2 ∷ []) (object manifest_fields)

unpack-IsDelivered_example :
    IsDelivered platform open_archive others "/in/a.tar.gz" "/out/aura" zeros "test-1" "amd64"
      before
      (attempt zeros).disk
unpack-IsDelivered_example =
    unpack-IsDelivered platform open_archive others "/in/a.tar.gz" "/out/aura" zeros "test-1"
      "amd64" before unpack_run

-- A version that the release does not have: the directory above the destination is made.
abbrev misled : Outcome (Unit {0})
misled =
    unpack platform open_archive others "/in/a.tar.gz" "/out/aura" zeros "test-2" "amd64" before

misled_run : misled.result ≡ err (invalid_release "Release format/version/architecture mismatch")
unfolding unpacked
misled_run = refl

unpack_failed_example : IsLeft "/out/aura" before misled.disk (Acted others misled.disk)
unpack_failed_example =
    unpack_failed platform open_archive others "/in/a.tar.gz" "/out/aura" zeros "test-2" "amd64"
      before misled_run

-- An encoding that writes one byte.
abbrev tar : Tar
tar = record { encode = λ _ _ _. ok (7 ∷ []); partial = [] }

abbrev pub shelf : Disk
shelf = ("/out", directory []) ∷ []

pub shelf_free : lookup "/out/a" shelf ≡ none
unfolding lookup
shelf_free = refl

pub shelf_placed : all (λ p. is_place (lookup p shelf)) (parents "/out/a") ≡ true
unfolding lookup above
shelf_placed = refl

pack_lem_example :
    (files : Dict Value) × (ms : List Packed) × IsVerified platform staged "test-1" "amd64"
      manifest_dict files
    × ((n : String) → contains (member_names ms) n ≡ contains ("manifest.json" ∷ keys files) n)
    × All (IsMember staged) ms
    × (pack platform tar staged "/out/a" "test-1" "amd64" shelf
        ≡ finished platform tar "/out/a" shelf (ok (7 ∷ [])))
pack_lem_example =
    pack_lem platform tar staged "/out/a" "test-1" "amd64" shelf verify_run shelf_free shelf_placed
