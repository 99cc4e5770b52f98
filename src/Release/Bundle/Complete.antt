-- ===== src/Release/Bundle/Complete.antt =====
-- `verify_bundle` accepts every directory that is as the manifest and the lock say.
use aura_server.Base.{
  ℕ, ◌+◌, ◌<◌, ◌≤◌, ◌≡◌, refl, ◌↔◌, String, Bool, true, false, List, [], ◌∷◌, length, all, All,
  All-map, all_iff, ltb, leb, nat_eq, string_eq, list_eq, contains, codes, ok, arith,
}
use aura_server.Base.Dict.{Dict, keys, All-lookup, same_set}
use aura_server.Json.{Fields, Value, int, pos, str, object, to_dict, value_eq}
use aura_server.Json.Unique.{read_json-eq-ok}
use aura_server.Release.Member.Parts.{IsAccepted}
use aura_server.Release.Member.Accepted.{member_name-eq-ok}
use aura_server.Release.Tree.{Tree, Platform, max_expanded, max_files, required, total_size}
use aura_server.Release.Bundle.{
  get, listed_files, check_digest, check_digests, check_header, check_content, check_identity,
  verify_bundle,
}
use text.Mathlib.TextPositions.{eq_refl}
use aura_server.Release.Bundle.Verified.{HasFile, IsListed, IsIntact, IsExecutable}
use aura_server.Release.Bundle.Verified.{IsVerified}
use aura_server.Release.Bundle.Sound.{IsRun, ok_of_IsRun, verify_bundle-IsVerified}
use aura_server.Release.Bundle.Listed.{
  value_eq-str_self, read_manifest_complete, check_lock_complete, read_file_complete, gathered,
  inventory_complete, gathered-listed, gathered-file,
}

all_complete :
    (p : String → Bool) (files : Dict Value)
    → All (λ (k, v). p k ≡ true) files
    → all p (keys files) ≡ true
all_complete p [] h = refl
all_complete p ((k, v) ∷ files) (h, hs) = rw (h, all_complete p files hs)

module _ (P : Platform) (root : Tree) (files : Dict Value)
    (closed : All (IsListed files) root) where
  IsAccepted-of_file :
      (name : String) (bytes : List ℕ) → HasFile root name bytes → IsAccepted (codes name)
  IsAccepted-of_file name bytes (m, e) = (All-lookup (IsListed files) name root closed e).0

  check_digests_complete :
      (items : Dict Value) → All (IsIntact P root) items → check_digests P root items ≡ ok tt
  unfolding check_digests check_digest
  check_digests_complete [] h = refl
  check_digests_complete ((name, v) ∷ rest) ((bytes, is_file, same, hex), hs) = rw (
    (member_name-eq-ok name name).1 (refl, IsAccepted-of_file name bytes is_file),
    same,
    hex,
    read_file_complete root name bytes is_file,
    eq_refl (P.sha256 bytes),
    check_digests_complete rest hs,
  )

  check_header_complete :
      (arch name : String) → IsExecutable root arch name → check_header root arch name ≡ ok tt
  unfolding check_header
  check_header_complete arch name (bytes, is_file, fits) =
      rw (read_file_complete root name bytes is_file, fits)

  same_set_complete :
      (bytes : List ℕ)
      → HasFile root "manifest.json" bytes
      → All (IsIntact P root) files
      → same_set (gathered root []) ("manifest.json" ∷ keys files) ≡ true
  same_set_complete bytes is_file intact =
      rw
        (
          gathered-listed files root [] closed refl,
          gathered-file root [] "manifest.json" bytes is_file,
        )
        (all_complete (contains (gathered root [])) files (
          All-map (IsIntact P root) (λ (k, v). contains (gathered root []) k ≡ true)
            (λ (k, v) (b, f, _, _). gathered-file root [] k b f) files intact))

  check_content_complete :
      (arch : String) (bytes : List ℕ)
      → HasFile root "manifest.json" bytes
      → All (IsIntact P root) files
      → total_size root ≤ max_expanded
      → IsExecutable root arch "bin/aura-server"
      → IsExecutable root arch "bin/navidrome"
      → check_content P root arch files (gathered root [], 0 + total_size root) ≡ ok tt
  unfolding check_content
  check_content_complete arch bytes is_file intact small server navidrome =
      let sets = same_set_complete bytes is_file intact in
      let fits : ltb max_expanded (0 + total_size root) ≡ false = ground arith in
      rw (
        sets,
        fits,
        check_digests_complete files intact,
        check_header_complete arch "bin/aura-server" server,
        check_header_complete arch "bin/navidrome" navidrome,
      )

check_identity_complete :
    (m : Dict Value) (version arch : String)
    → value_eq (get m "format") (int (pos 1)) ≡ true
    → get m "version" ≡ str version
    → get m "arch" ≡ str arch
    → check_identity m version arch ≡ ok tt
unfolding check_identity
check_identity_complete m version arch f v a =
    rw (f, v, a, value_eq-str_self version, value_eq-str_self arch)

listed_files_complete :
    (manifest files : Dict Value) (fs : Fields)
    → get manifest "files" ≡ object fs
    → to_dict fs ≡ files
    → All (λ name. contains (keys files) name ≡ true) required
    → length files < max_files
    → listed_files manifest ≡ ok files
unfolding listed_files
listed_files_complete manifest files fs e d complete few =
    let all_there = (all_iff (contains (keys files)) required).1 complete in
    let fits : leb max_files (length files) ≡ false = ground arith in rw (e, d, all_there, fits)

IsRun-of_IsVerified :
    (P : Platform) (root : Tree) (version arch : String) (manifest files : Dict Value)
    → IsVerified P root version arch manifest files
    → IsRun P root version arch manifest
IsRun-of_IsVerified P root version arch manifest files h = record {
  guard = rw (h.known_arch, h.plain_version);
  value = h.value;
  read =
      read_manifest_complete P root h.value h.manifest_bytes h.manifest_file h.manifest_small
        ((read_json-eq-ok P.loads _ _).1 (h.parsed, h.unique));
  is_dict = h.is_dict;
  identity = check_identity_complete manifest version arch h.format h.same_version h.same_arch;
  components = h.components;
  locked = h.locked;
  provenance = check_lock_complete manifest h.components h.provenance;
  files = files;
  listed =
      listed_files_complete manifest files h.inventory_of.0 h.inventory_of.1 h.inventory_of.2
        h.complete h.few;
  found = (gathered root [], 0 + total_size root);
  seen = inventory_complete files root [] 0 h.closed;
  content =
      check_content_complete P root files h.closed arch h.manifest_bytes h.manifest_file h.intact
        h.small h.server h.navidrome;
}

-- `verify_bundle` accepts a directory, and returns its manifest, exactly if the directory is verified.
pub verify_bundle-eq-ok :
    (P : Platform) (root : Tree) (version arch : String) (manifest : Dict Value)
    → (verify_bundle P root version arch ≡ ok manifest)
      ↔ ((files : Dict Value) × IsVerified P root version arch manifest files)
verify_bundle-eq-ok P root version arch manifest = (
  verify_bundle-IsVerified P root version arch,
  λ (files, h).
      ok_of_IsRun P root version arch (IsRun-of_IsVerified P root version arch manifest files h),
)
