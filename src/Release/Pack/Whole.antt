-- ===== src/Release/Pack/Whole.antt =====
-- What `pack` puts into an archive.
use aura_server.Base.{
  ℕ, ◌≡◌, refl, sym, ◌∙◌, ap, inl, inr, String, true, ◌||◌, none, some, List, [], ◌∷◌, ◌==◌,
  string_eq, all, codes, contains, All, Bool-cases, ok, arith,
}
use mathlib.Core.Path.{subst}
use text.Mathlib.TextEquality.{eq_iff}
use aura_server.Base.Dict.{Dict, keys, lookup, contains-keys, All-lookup}
use aura_server.Json.{Value}
use aura_server.Release.Tree.{Tree, file, Platform}
use aura_server.Release.Bundle.{read_file, verify_bundle}
use aura_server.Release.Bundle.Verified.{HasFile, IsIntact, IsVerified}
use aura_server.Release.Bundle.Sound.{verify_bundle-IsVerified}
use aura_server.Release.Disk.{is_place, Disk}
use aura_server.Release.Disk.Parents.{parents}
use aura_server.Release.Archive.{file_mode}
use aura_server.Release.Pack.{
  Packed, precedes, insert_name, sorted_set, packed_names, packed, Tar, finished, pack,
}

insert_name-contains :
    (x n : String) (ys : List String) → contains (insert_name x ys) n ≡ (x == n || contains ys n)
unfolding insert_name
insert_name-contains x n [] = refl
insert_name-contains x n (y ∷ ys) = elim (Bool-cases (x == y)) [
  | inl e ↦ rw e (ground (arith, e, eq_iff x y, eq_iff x n, eq_iff y n))
  | inr e ↦ elim (Bool-cases (precedes (codes x) (codes y))) [
    | inl f ↦ rw (e, f) refl
    | inr f ↦ rw (e, f) (ground (arith, insert_name-contains x n ys))
  ]
]

pub sorted_set-contains :
    (n : String) (xs : List String) → contains (sorted_set xs) n ≡ contains xs n
unfolding sorted_set
sorted_set-contains n [] = refl
sorted_set-contains n (x ∷ xs) =
    ground (arith, insert_name-contains x n (sorted_set xs), sorted_set-contains n xs)

-- A member is a file of the bundle with its bytes, under the mode of its name and without a time.
abbrev pub IsMember : Tree → Packed → Type 0
IsMember bundle m = HasFile bundle m.name m.bytes × (m.mode ≡ file_mode m.name) × (m.mtime ≡ 0)

abbrev pub member_names : List Packed → List String
member_names [] = []
member_names (m ∷ ms) = m.name ∷ member_names ms

read_file-some :
    (bundle : Tree) (name : String) {mode : ℕ} {bytes : List ℕ}
    → lookup name bundle ≡ some (file mode bytes)
    → read_file bundle name ≡ ok bytes
unfolding read_file
read_file-some bundle name e = rw (e, read_file) refl

packed_total :
    (bundle : Tree) (names : List String)
    → ((n : String) → contains names n ≡ true → (bytes : List ℕ) × HasFile bundle n bytes)
    → (ms : List Packed) × (packed bundle names ≡ ok ms)
      × (member_names ms ≡ names)
      × All (IsMember bundle) ms
unfolding packed
packed_total bundle [] h = ([], refl, refl, tt)
packed_total bundle (name ∷ names) h =
    let (bytes, (mode, there)) = h name (ground (arith, eq_iff name name)) in
    let (ms, made, same, good) = packed_total bundle names (λ n c. h n (ground (arith, c))) in
    (
      record { name = name; mode = file_mode name; mtime = 0; bytes = bytes } ∷ ms,
      rw (read_file-some bundle name there, made) refl,
      ap (λ l. name ∷ l) same,
      (((mode, there), refl, refl), good),
    )

-- Every name that is packed is a file of a verified bundle.
pub IsVerified-file :
    (P : Platform) (bundle : Tree) (version arch : String) (manifest files : Dict Value)
    → IsVerified P bundle version arch manifest files
    → (n : String) → contains ("manifest.json" ∷ keys files) n ≡ true
    → (bytes : List ℕ) × HasFile bundle n bytes
IsVerified-file P bundle version arch manifest files v n c =
    elim (Bool-cases ("manifest.json" == n)) [
      | inl e ↦ (
        v.manifest_bytes,
        subst (λ n. HasFile bundle n v.manifest_bytes) ((eq_iff "manifest.json" n).0 e)
            v.manifest_file,
      )
      | inr e ↦
          let (value, at) = contains-keys n files (ground (arith, e, c)) in
          let (bytes, there, _, _) = All-lookup (IsIntact P bundle) n files v.intact at in
          (bytes, there)
    ]

packed_names-eq-ok :
    (P : Platform) (bundle : Tree) (version arch : String) (manifest files : Dict Value)
    → IsVerified P bundle version arch manifest files
    → packed_names manifest ≡ ok (sorted_set ("manifest.json" ∷ keys files))
unfolding packed_names
packed_names-eq-ok P bundle version arch manifest files v =
    let (fs, is_object, same) = v.inventory_of in rw (is_object, same) refl

module _ (P : Platform) (tar : Tar) (bundle : Tree) (output version arch : String) (d : Disk)
    {manifest : Dict Value} where
  -- The members of a run that gets to the encoding, under their names in order.
  pub pack_run :
      verify_bundle P bundle version arch ≡ ok manifest
      → lookup output d ≡ none
      → all (λ p. is_place (lookup p d)) (parents output) ≡ true
      → (files : Dict Value) × (ms : List Packed) × IsVerified P bundle version arch manifest files
        × (member_names ms ≡ sorted_set ("manifest.json" ∷ keys files))
        × All (IsMember bundle) ms
        × (pack P tar bundle output version arch d ≡ finished P tar output d (tar.encode "" 0 ms))
  unfolding pack
  pack_run h free placed =
      let (files, v) = verify_bundle-IsVerified P bundle version arch h in
      let names = sorted_set ("manifest.json" ∷ keys files) in
      let (ms, made, same, good) = packed_total bundle names (λ n c.
        IsVerified-file P bundle version arch manifest files v n
          (sym (sorted_set-contains n ("manifest.json" ∷ keys files)) ∙ c)) in
      (
        files,
        ms,
        v,
        same,
        good,
        rw (h, pack, free, placed, packed_names-eq-ok P bundle version arch manifest files v, made)
            refl,
      )

-- Where `verify_bundle` accepts the bundle, nothing stands at the output and its parents are
-- directories, `pack` ends as the encoding of its members does: the members have exactly the names
-- of the manifest's inventory and `manifest.json`, each is the bundle's file of that name with the
-- file's bytes and the mode of its name, and no file fails to be read.
pub pack_lem :
    (P : Platform) (tar : Tar) (bundle : Tree) (output version arch : String) (d : Disk)
    {manifest : Dict Value}
    → verify_bundle P bundle version arch ≡ ok manifest
    → lookup output d ≡ none
    → all (λ p. is_place (lookup p d)) (parents output) ≡ true
    → (files : Dict Value) × (ms : List Packed) × IsVerified P bundle version arch manifest files
      × ((n : String) → contains (member_names ms) n ≡ contains ("manifest.json" ∷ keys files) n)
      × All (IsMember bundle) ms
      × (pack P tar bundle output version arch d ≡ finished P tar output d (tar.encode "" 0 ms))
pack_lem P tar bundle output version arch d h free placed =
    let (files, ms, v, same, good, run) =
      pack_run P tar bundle output version arch d h free placed in
    (
      files,
      ms,
      v,
      (λ n. ap (λ l. contains l n) same ∙ sorted_set-contains n ("manifest.json" ∷ keys files)),
      good,
      run,
    )
