-- ===== src/Release/Bundle/Sound.antt =====
-- `verify_bundle` accepts only directories that are as the manifest and the lock say.
use aura_server.Base.{
  ℕ, ◌≡◌, String, false, not, ◌||◌, List, [], all_iff, nat_eq, string_eq, list_eq, contains, ok,
  ok-injective, arith, bind-eq-ok, raise_if-then,
}
use mathlib.Core.Path.{subst}
use aura_server.Base.Dict.{Dict, keys}
use aura_server.Json.{Value, as_object}
use aura_server.Json.Unique.{read_json-eq-ok}
use aura_server.Release.Tree.{Tree, Platform, required}
use aura_server.Release.Bundle.{
  is_version, is_arch, read_manifest, lock, check_lock, listed_files, inventory, check_content,
  check_identity, verify_bundle,
}
use aura_server.Release.Bundle.Verified.{IsVerified}
use aura_server.Release.Bundle.Stages.{
  check_identity-eq-ok, read_manifest-eq-ok, check_lock-eq-ok, listed_files-eq-ok, as_files-eq-ok,
  check_content-eq-ok,
}

-- A run of `verify_bundle` in which every stage passes.
pub record IsRun (P : Platform) (root : Tree) (version arch : String) (manifest : Dict Value)
    : Type 0 where
  pub guard : (not (is_arch arch) || not (is_version version)) ≡ false
  pub value : Value
  pub read : read_manifest P root ≡ ok value
  pub is_dict : as_object value ≡ ok manifest
  pub identity : check_identity manifest version arch ≡ ok tt
  pub components : Dict Value
  pub locked : lock P ≡ ok components
  pub provenance : check_lock manifest components ≡ ok tt
  pub files : Dict Value
  pub listed : listed_files manifest ≡ ok files
  pub found : List String × ℕ
  pub seen : inventory root [] 0 ≡ ok found
  pub content : check_content P root arch files found ≡ ok tt

IsRun-of_ok :
    (P : Platform) (root : Tree) (version arch : String) (result : Dict Value)
    → verify_bundle P root version arch ≡ ok result
    → IsRun P root version arch result
unfolding verify_bundle
IsRun-of_ok P root version arch result h =
    let (guard, g1) = raise_if-then (not (is_arch arch) || not (is_version version)) _ _ h in
    let (value, e2, g2) = bind-eq-ok (read_manifest P root) _ g1 in
    let (manifest, e3, g3) = bind-eq-ok (as_object value) _ g2 in
    let (u4, e4, g4) = bind-eq-ok (check_identity manifest version arch) _ g3 in
    let (components, e5, g5) = bind-eq-ok (lock P) _ g4 in
    let (u6, e6, g6) = bind-eq-ok (check_lock manifest components) _ g5 in
    let (files, e7, g7) = bind-eq-ok (listed_files manifest) _ g6 in
    let (found, e8, g8) = bind-eq-ok (inventory root [] 0) _ g7 in
    let (u9, e9, g9) = bind-eq-ok (check_content P root arch files found) _ g8 in
    subst (IsRun P root version arch) (ok-injective g9) (record {
      guard = guard;
      value = value;
      read = e2;
      is_dict = e3;
      identity = e4;
      components = components;
      locked = e5;
      provenance = e6;
      files = files;
      listed = e7;
      found = found;
      seen = e8;
      content = e9;
    })

pub ok_of_IsRun :
    (P : Platform) (root : Tree) (version arch : String) {manifest : Dict Value}
    → IsRun P root version arch manifest
    → verify_bundle P root version arch ≡ ok manifest
unfolding verify_bundle
ok_of_IsRun P root version arch r =
    rw (r.guard, r.read, r.is_dict, r.identity, r.locked, r.provenance, r.listed, r.seen, r.content)

IsVerified-of_IsRun :
    (P : Platform) (root : Tree) (version arch : String) {manifest : Dict Value}
    (r : IsRun P root version arch manifest)
    → IsVerified P root version arch manifest r.files
IsVerified-of_IsRun P root version arch {manifest} r =
    let (bytes, is_file, small, read) = read_manifest-eq-ok P root r.value r.read in
    let (parsed, unique) = (read_json-eq-ok P.loads bytes r.value).0 read in
    let identity = check_identity-eq-ok manifest version arch r.identity in
    let (as_listed, complete, few) = listed_files-eq-ok manifest r.files r.listed in
    let content = check_content-eq-ok P root arch r.files r.found.0 r.found.1 r.seen r.content in
    record {
      known_arch = ground (arith, r.guard);
      plain_version = ground (arith, r.guard);
      manifest_bytes = bytes;
      manifest_file = is_file;
      manifest_small = small;
      value = r.value;
      parsed = parsed;
      unique = unique;
      is_dict = r.is_dict;
      format = identity.0;
      same_version = identity.1;
      same_arch = identity.2;
      components = r.components;
      locked = r.locked;
      provenance = check_lock-eq-ok manifest r.components r.provenance;
      inventory_of = as_files-eq-ok _ r.files as_listed;
      complete = (all_iff (contains (keys r.files)) required).0 complete;
      few = few;
      closed = content.0;
      intact = content.1;
      small = content.2;
      server = content.3;
      navidrome = content.4;
    }

-- A directory that `verify_bundle` accepts is verified, with the manifest that it returns.
pub verify_bundle-IsVerified :
    (P : Platform) (root : Tree) (version arch : String) {manifest : Dict Value}
    → verify_bundle P root version arch ≡ ok manifest
    → (files : Dict Value) × IsVerified P root version arch manifest files
verify_bundle-IsVerified P root version arch {manifest} h =
    let r = IsRun-of_ok P root version arch manifest h in
    (r.files, IsVerified-of_IsRun P root version arch r)
