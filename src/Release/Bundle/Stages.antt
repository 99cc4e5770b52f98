-- ===== src/Release/Bundle/Stages.antt =====
-- What each stage of `verify_bundle` has established when it passes.
use aura_server.Base.{
  ℕ, ◌+◌, ◌*◌, ◌<◌, ◌≤◌, ◌≡◌, refl, sym, ap, inl, inr, String, Bool, true, false, not, ◌&&◌, ◌||◌,
  some, List, [], ◌∷◌, length, all, All, All-map, ◌==◌, nat_eq, string_eq, list_eq, contains, codes,
  ok, ◌>>=◌, raise_if, invalid_release, arith, bind-eq-ok, raise_if-then, Option-cases,
}
use text.Mathlib.TextEquality.{eq_iff}
use aura_server.Base.Dict.{Dict, keys, lookup}
use aura_server.Json.{Fields, Value, int, pos, str, object, to_dict, value_eq, read_json}
use aura_server.Release.Member.{member_name}
use aura_server.Release.Member.Parts.{IsAccepted}
use aura_server.Release.Member.Accepted.{member_name-eq-ok}
use aura_server.Release.Tree.{
  Tree, Node, file, folder, link, special, Platform, max_expanded, max_files, required, total_size,
}
use aura_server.Release.Bundle.{
  get, as_files, is_sha256, read_manifest, check_lock, listed_files, inventory, read_file,
  check_digest, check_digests, check_header, check_content, check_identity,
}
use text.Mathlib.TextPositions.{eq_refl}
use aura_server.Release.Bundle.Verified.{HasFile, IsListed, IsIntact, IsExecutable}

value_eq-str : (v : Value) (s : String) → value_eq v (str s) ≡ true → v ≡ str s
unfolding value_eq
value_eq-str (str t) s h = ground (arith, eq_iff t s)
value_eq-str _ s h = cc

pub check_identity-eq-ok :
    (m : Dict Value) (version arch : String)
    → check_identity m version arch ≡ ok tt
    → (value_eq (get m "format") (int (pos 1)) ≡ true)
      × (get m "version" ≡ str version)
      × (get m "arch" ≡ str arch)
unfolding check_identity
check_identity-eq-ok m version arch h =
    ground (arith, value_eq-str (get m "version") version, value_eq-str (get m "arch") arch)

-- `node` as the answer to a look-up of the manifest
manifest_cases :
    (P : Platform) (root : Tree) (v : Value) (node : Node)
    → lookup "manifest.json" root ≡ some node
    → read_manifest P root ≡ ok v
    → (bytes : List ℕ) × HasFile root "manifest.json" bytes
      × (length bytes ≤ 128 * 1024)
      × (read_json P.loads bytes ≡ ok v)
unfolding read_manifest
manifest_cases P root v (file mode bytes) e h = (bytes, (mode, e), ground arith, ground arith)
manifest_cases P root v _ e h = absurd (ground arith)

pub read_manifest-eq-ok :
    (P : Platform) (root : Tree) (v : Value)
    → read_manifest P root ≡ ok v
    → (bytes : List ℕ) × HasFile root "manifest.json" bytes
      × (length bytes ≤ 128 * 1024)
      × (read_json P.loads bytes ≡ ok v)
read_manifest-eq-ok P root v h = elim (Option-cases (lookup "manifest.json" root)) [
  | inl e ↦ absurd (unfold read_manifest in ground arith)
  | inr (node, e) ↦ manifest_cases P root v node e h
]

file_cases :
    (root : Tree) (name : String) (bytes : List ℕ) (node : Node)
    → lookup name root ≡ some node
    → read_file root name ≡ ok bytes
    → HasFile root name bytes
unfolding read_file
file_cases root name bytes (file mode found) e h = (mode, ground arith)
file_cases root name bytes _ e h = absurd (ground arith)

read_file-eq-ok :
    (root : Tree) (name : String) (bytes : List ℕ)
    → read_file root name ≡ ok bytes
    → HasFile root name bytes
read_file-eq-ok root name bytes h = elim (Option-cases (lookup name root)) [
  | inl e ↦ absurd (unfold read_file in ground arith)
  | inr (node, e) ↦ file_cases root name bytes node e h
]

pub check_lock-eq-ok :
    (manifest components : Dict Value)
    → check_lock manifest components ≡ ok tt
    → All (λ (field, v). value_eq (get manifest field) v ≡ true) components
unfolding check_lock
check_lock-eq-ok manifest [] h = tt
check_lock-eq-ok manifest ((field, v) ∷ rest) h =
    (ground arith, check_lock-eq-ok manifest rest (ground arith))

pub as_files-eq-ok :
    (v : Value) (files : Dict Value)
    → as_files v ≡ ok files
    → (fs : Fields) × (v ≡ object fs) × (to_dict fs ≡ files)
as_files-eq-ok (object fs) files h = (fs, refl, cc)
as_files-eq-ok _ files h = cc

pub listed_files-eq-ok :
    (manifest files : Dict Value)
    → listed_files manifest ≡ ok files
    → (as_files (get manifest "files") ≡ ok files)
      × (all (contains (keys files)) required ≡ true)
      × (length files < max_files)
unfolding listed_files
listed_files-eq-ok manifest files h =
    let (d, e, g) = bind-eq-ok (as_files (get manifest "files")) _ h in
    let (passed, same) = raise_if-then _ _ (ok d) g in
    let same' : d ≡ files = cc in rw (← same') (e, ground arith, ground arith)

-- What the loop has seen of the entries: their names and their bytes.
abbrev IsSeen : List String → String × Node → Type 0
IsSeen actual (name, file _ _) = IsAccepted (codes name) × (contains actual name ≡ true)
IsSeen actual (name, folder) = Unit
IsSeen actual (name, link) = ⊥
IsSeen actual (name, special) = ⊥

inventory-eq-ok :
    (root : Tree) (names actual : List String) (n total : ℕ)
    → inventory root names n ≡ ok (actual, total)
    → (total ≡ n + total_size root)
      × ((s : String) → contains names s ≡ true → contains actual s ≡ true)
      × All (IsSeen actual) root
unfolding inventory total_size
inventory-eq-ok [] names actual n total h =
    let same : (names ≡ actual) × (n ≡ total) = ground arith in
    (omega (arith, same.1), λ s c. rw (← same.0) c, tt)
inventory-eq-ok ((name, file m bytes) ∷ rest) names actual n total h =
    let (r, e, g) = bind-eq-ok (member_name name) _ h in
    let (same, accepted) = (member_name-eq-ok name r).0 e in
    let (size, kept, seen) = inventory-eq-ok rest (r ∷ names) actual (n + length bytes) total g in
    (
      omega (arith, size),
      λ s c. kept s (ground arith),
      ((accepted, rw same (kept r (ground (arith, eq_refl r)))), seen),
    )
inventory-eq-ok ((name, folder) ∷ rest) names actual n total h =
    let (size, kept, seen) = inventory-eq-ok rest names actual n total h in (size, kept, (tt, seen))
inventory-eq-ok ((name, link) ∷ rest) names actual n total h = cc
inventory-eq-ok ((name, special) ∷ rest) names actual n total h = cc

check_digest-eq-ok :
    (P : Platform) (root : Tree) (name : String) (v : Value)
    → check_digest P root name v ≡ ok tt
    → IsIntact P root (name, v)
unfolding check_digest
check_digest-eq-ok P root name (str expected) h =
    let bad = invalid_release "Release file integrity mismatch" in
    let differs = λ (bytes : List ℕ). raise_if (not (P.sha256 bytes == expected)) bad in
    let (hex, g) =
      raise_if-then (not (is_sha256 expected)) bad (read_file root name >>= differs) h in
    let (bytes, e, f) = bind-eq-ok (read_file root name) differs g in
    let same : P.sha256 bytes ≡ expected = ground (arith, eq_iff (P.sha256 bytes) expected) in
    (bytes, read_file-eq-ok root name bytes e, ap str (sym same), rw same (ground arith))
check_digest-eq-ok P root name _ h = cc

check_digests-eq-ok :
    (P : Platform) (root : Tree) (files : Dict Value)
    → check_digests P root files ≡ ok tt
    → All (IsIntact P root) files
unfolding check_digests
check_digests-eq-ok P root [] h = tt
check_digests-eq-ok P root ((name, v) ∷ rest) h =
    let (r, e, g) = bind-eq-ok (member_name name) _ h in
    let (u, e', g') = bind-eq-ok (check_digest P root name v) _ g in
    (check_digest-eq-ok P root name v e', check_digests-eq-ok P root rest g')

check_header-eq-ok :
    (root : Tree) (arch name : String)
    → check_header root arch name ≡ ok tt
    → IsExecutable root arch name
unfolding check_header
check_header-eq-ok root arch name h =
    let (bytes, e, g) = bind-eq-ok (read_file root name) _ h in
    (bytes, read_file-eq-ok root name bytes e, ground arith)

all-contains :
    (xs ys : List String) (s : String)
    → all (contains ys) xs ≡ true
    → contains xs s ≡ true
    → contains ys s ≡ true
all-contains [] ys s h c = cc
all-contains (x ∷ xs) ys s h c = ground (arith, eq_iff x s, all-contains xs ys s)

-- A file that was seen is listed, once the two sets of names agree.
IsListed-of :
    (files : Dict Value) (actual : List String)
    → all (contains ("manifest.json" ∷ keys files)) actual ≡ true
    → (entry : String × Node) → IsSeen actual entry
    → IsListed files entry
IsListed-of files actual h (name, file m bytes) (accepted, c) = (
  accepted,
  ground (
    arith,
    eq_iff "manifest.json" name,
    all-contains actual ("manifest.json" ∷ keys files) name h c,
  ),
)
IsListed-of files actual h (name, folder) seen = tt
IsListed-of files actual h (name, link) seen = seen
IsListed-of files actual h (name, special) seen = seen

guard-false : (a b c : Bool) → (not (a && b) || c) ≡ false → (a ≡ true) × (b ≡ true) × (c ≡ false)
guard-false a b c h = ground arith

pub check_content-eq-ok :
    (P : Platform) (root : Tree) (arch : String) (files : Dict Value) (actual : List String)
    (total : ℕ)
    → inventory root [] 0 ≡ ok (actual, total)
    → check_content P root arch files (actual, total) ≡ ok tt
    → All (IsListed files) root
      × All (IsIntact P root) files
      × (total_size root ≤ max_expanded)
      × IsExecutable root arch "bin/aura-server"
      × IsExecutable root arch "bin/navidrome"
unfolding check_content
check_content-eq-ok P root arch files actual total found h =
    let (guard, g) = raise_if-then _ _ _ h in
    let sets = guard-false _ _ _ guard in
    let (u, e, g') = bind-eq-ok (check_digests P root files) _ g in
    let (w, e', e'') = bind-eq-ok (check_header root arch "bin/aura-server") _ g' in
    let (size, _, seen) = inventory-eq-ok root [] actual 0 total found in
    (
      All-map (IsSeen actual) (IsListed files) (IsListed-of files actual sets.0) root seen,
      check_digests-eq-ok P root files e,
      ground (arith, size, sets.2),
      check_header-eq-ok root arch _ e',
      check_header-eq-ok root arch _ e'',
    )
