-- ===== src/Release/Pack/Tests.antt =====
-- `pack` on a small release, with what `unpack` makes of the archive.
use aura_server.Base.{
  ℕ, ◌≡◌, ◌↔◌, false, refl, sym, inl, inr, String, Bool, true, ◌&&◌, none, some, List, [], ◌∷◌,
  ◌==◌, nat_eq, list_eq, string_eq, all, All, Bool-cases, ok, err, tar_error, if◌then◌else◌, arith,
}
use aura_server.Base.Dict.{lookup, insert, All-lookup}
use aura_server.Release.Tree.{Tree, Node, file, folder}
use aura_server.Release.Bundle.{is_sha256}
use aura_server.Release.Bundle.Verified.{HasFile}
use aura_server.Release.Disk.{Disk, plain, directory, is_place, has_parents}
use aura_server.Release.Disk.Parents.{parents, above}
use aura_server.Release.Archive.{file_mode, Stream}
use aura_server.Release.Archive.Install.{unpack}
use aura_server.Release.Disk.Effect.{Others, Outcome, make_parents}
use aura_server.Release.Pack.{Packed, insert_name, sorted_set, packed_names, packed, Tar, pack}
use aura_server.Release.Pack.Whole.{member_names}
use aura_server.Release.Pack.Extracts.{stream_of, IsFolder}
use aura_server.Release.Pack.Reproducible.{SameFiles, pack_reproducible}
use aura_server.Release.Pack.RoundTrip.{Decodes, unpack-pack}
use aura_server.Base.{split, join}
use aura_server.Json.{value_eq, unique, hooked, read_json}
use aura_server.Release.Member.{
  member_name, is_unsafe_name, pure_posix_path, path_str, proper_parts,
}
use aura_server.Release.Bundle.{
  is_version, read_manifest, lock, check_lock, listed_files, inventory, read_file, check_digest,
  check_digests, is_executable_for, check_header, check_content, check_identity, verify_bundle,
}
use aura_server.Release.Tests.{zeros, platform, executable, staged, manifest_dict, verify_run}

abbrev contents : List Packed → List (List ℕ)
contents [] = []
contents (m ∷ ms) = m.bytes ∷ contents ms

same_stream :
    (ms ns : List Packed)
    → member_names ms ≡ member_names ns
    → contents ms ≡ contents ns
    → stream_of ms ≡ stream_of ns
same_stream [] [] e f = refl
same_stream [] (n ∷ ns) e f = absurd (cc e)
same_stream (m ∷ ms) [] e f = absurd (cc e)
same_stream (m ∷ ms) (n ∷ ns) e f =
    let names : member_names ms ≡ member_names ns = cc e in
    let bodies : contents ms ≡ contents ns = cc f in
    let rest = same_stream ms ns names bodies in
    let name : m.name ≡ n.name = cc e in
    let bytes : m.bytes ≡ n.bytes = cc f in rw (name, bytes, rest)

-- The members of the small release.
abbrev member : String → List ℕ → Packed
member name bytes = record { name = name; mode = file_mode name; mtime = 0; bytes = bytes }

abbrev shipped : List Packed
shipped =
    member "README.md" (3 ∷ [])
    ∷ member "aura-package.py" (4 ∷ [])
    ∷ member "bin/aura-server" executable
    ∷ member "bin/navidrome" executable
    ∷ member "manifest.json" (2 ∷ [])
    ∷ []

-- A format that knows one archive.
abbrev known : List Packed → Bool
known ms = member_names ms == member_names shipped && contents ms == contents shipped

abbrev one_tar : Tar
one_tar = record {
  encode =
      λ name time ms. if name == "" && time == 0 && known ms then ok (9 ∷ []) else err tar_error;
  partial = [];
}

abbrev read_one : List ℕ → Stream
read_one _ = stream_of shipped

one_tar-Decodes : Decodes one_tar read_one
one_tar-Decodes ms bytes accepted h = elim (Bool-cases (known ms)) [
  | inr e ↦ absurd (cc (rw e at h))
  | inl e ↦ sym (
      same_stream ms shipped
        ((list_eq.equals_iff (member_names ms) (member_names shipped)).0 (ground (arith, e)))
        ((list_eq.equals_iff (contents ms) (contents shipped)).0 (ground (arith, e))))
]

staged_above : All (λ (k, _). All (λ p. lookup p staged ≡ some folder) (parents k)) staged
unfolding above lookup
staged_above = (tt, (tt, (tt, ((refl, tt), ((refl, tt), (tt, tt))))))

staged-IsFolder : IsFolder staged
unfolding lookup
staged-IsFolder = record {
  no_dot = refl;
  above = λ n bytes (_, there).
      All-lookup (λ (k, _). All (λ p. lookup p staged ≡ some folder) (parents k)) n staged
        staged_above there;
}

abbrev shelf : Disk
shelf = ("/out", directory []) ∷ []

abbrev packing : Outcome String
packing = pack platform one_tar staged "/out/a" "test-1" "amd64" shelf

packing_run : packing.result ≡ ok zeros
unfolding pack verify_bundle read_manifest lock read_json hooked unique check_identity check_lock
    listed_files inventory check_content check_digests check_digest read_file is_sha256 check_header
    is_executable_for is_version value_eq member_name is_unsafe_name pure_posix_path path_str
    proper_parts split join lookup insert above insert_name sorted_set packed_names packed
packing_run = refl

-- A bundle with the same files, listed the other way round and under other modes.
abbrev other_bundle : Tree
other_bundle =
    ("manifest.json", file 0o600 (2 ∷ []))
    ∷ ("bin", folder)
    ∷ ("bin/navidrome", file 0o700 executable)
    ∷ ("bin/aura-server", file 0o700 executable)
    ∷ ("aura-package.py", file 0o600 (4 ∷ []))
    ∷ ("README.md", file 0o600 (3 ∷ []))
    ∷ []

digests_are_hexadecimal : (bytes : List ℕ) → is_sha256 (platform.sha256 bytes) ≡ true
unfolding is_sha256
digests_are_hexadecimal bytes = refl

-- The disk on which the archive is found again, and the same with the directory above the
-- destination.
abbrev cellar : Disk
cellar = ("/in/a.tar.gz", plain (9 ∷ [])) ∷ []

abbrev cellar_ready : Disk
cellar_ready = ("/in/a.tar.gz", plain (9 ∷ [])) ∷ ("/lib", directory []) ∷ []

archive_found : lookup "/in/a.tar.gz" cellar ≡ lookup "/out/a" packing.disk
unfolding pack verify_bundle read_manifest lock read_json hooked unique check_identity check_lock
    listed_files inventory check_content check_digests check_digest read_file is_sha256 check_header
    is_executable_for is_version value_eq member_name is_unsafe_name pure_posix_path path_str
    proper_parts split join lookup insert above insert_name sorted_set packed_names packed
archive_found = refl

cellar_free : lookup "/lib/aura" cellar ≡ none
unfolding lookup
cellar_free = refl

-- Another process adds a file elsewhere while the release is verified.
abbrev others : Others
others = record {
  meanwhile = λ d. d;
  later = λ d. ("/tmp/b", plain []) ∷ d;
  leaves = true;
  refuses = λ _. false;
}

cellar_made :
    make_parents (λ _. false) (parents "/lib/aura") cellar
    ≡ record { result = ok tt; disk = cellar_ready }
unfolding make_parents above lookup insert
cellar_made = refl

still_free : lookup "/lib/aura" (("/tmp/b", plain []) ∷ cellar_ready) ≡ none
unfolding lookup
still_free = refl

still_found : lookup "/in/a.tar.gz" cellar_ready ≡ lookup "/in/a.tar.gz" cellar
unfolding lookup
still_found = refl

still_placed : has_parents (("/tmp/b", plain []) ∷ cellar_ready) "/lib/aura" ≡ true
unfolding lookup above
still_placed = refl

unpack-pack_example :
    let run =
      unpack platform read_one others "/in/a.tar.gz" "/lib/aura" zeros "test-1" "amd64" cellar in
    (run.result ≡ ok tt)
    × ((staging : Tree) × (lookup "/lib/aura" run.disk ≡ some (directory staging))
        × ((n : String) (bytes : List ℕ)
            → HasFile staged n bytes ↔ (lookup n staging ≡ some (file (file_mode n) bytes))))
unpack-pack_example =
    unpack-pack platform one_tar read_one others staged "/out/a" "/in/a.tar.gz" "/lib/aura" "test-1"
      "amd64" zeros shelf cellar cellar_ready staged-IsFolder one_tar-Decodes
      digests_are_hexadecimal packing_run archive_found cellar_free cellar_made still_found
      still_free refl still_placed

abbrev IsCarried : Tree → String × Node → Type 0
IsCarried b (k, file _ bytes) = HasFile b k bytes
IsCarried b (k, _) = Unit

staged-IsCarried : All (IsCarried other_bundle) staged
unfolding lookup
staged-IsCarried = ((_, refl), ((_, refl), (tt, ((_, refl), ((_, refl), ((_, refl), tt))))))

other-IsCarried : All (IsCarried staged) other_bundle
unfolding lookup
other-IsCarried = ((_, refl), (tt, ((_, refl), ((_, refl), ((_, refl), ((_, refl), tt))))))

same_files : SameFiles staged other_bundle
same_files n bytes = (
  λ (_, there). All-lookup (IsCarried other_bundle) n staged staged-IsCarried there,
  λ (_, there). All-lookup (IsCarried staged) n other_bundle other-IsCarried there,
)

verify_other : verify_bundle platform other_bundle "test-1" "amd64" ≡ ok manifest_dict
unfolding verify_bundle read_manifest lock read_json hooked unique check_identity check_lock
    listed_files inventory check_content check_digests check_digest read_file is_sha256 check_header
    is_executable_for is_version value_eq member_name is_unsafe_name pure_posix_path path_str
    proper_parts split join lookup insert
verify_other = refl

other_free : lookup "/out/b" shelf ≡ none
unfolding lookup
other_free = refl

other_placed : all (λ p. is_place (lookup p shelf)) (parents "/out/b") ≡ true
unfolding lookup above
other_placed = refl

out_free : lookup "/out/a" shelf ≡ none
unfolding lookup
out_free = refl

out_placed : all (λ p. is_place (lookup p shelf)) (parents "/out/a") ≡ true
unfolding lookup above
out_placed = refl

pack_reproducible_example :
    let other = pack platform one_tar other_bundle "/out/b" "test-1" "amd64" shelf in
    (packing.result ≡ other.result) × (lookup "/out/a" packing.disk ≡ lookup "/out/b" other.disk)
pack_reproducible_example =
    pack_reproducible platform one_tar staged other_bundle "/out/a" "/out/b" "test-1" "amd64" shelf
      shelf same_files verify_run verify_other out_free other_free out_placed other_placed
