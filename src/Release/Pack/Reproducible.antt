-- ===== src/Release/Pack/Reproducible.antt =====
-- Two bundles with the same files give the same archive.
use aura_server.Base.{
  ℕ, ◌≡◌, ◌↔◌, refl, ap, sym, ◌∙◌, inl, inr, String, Bool, true, none, List, [], ◌∷◌, string_eq,
  all, contains, All, ok, err, Result, arith,
}
use mathlib.Core.Path.{subst}
use text.Mathlib.TextEquality.{eq_iff}
use aura_server.Base.Dict.{Dict, keys, lookup, lookup-insert_self, All-lookup}
use aura_server.Json.{Value}
use aura_server.Release.Tree.{Tree, Platform}
use aura_server.Release.Bundle.{verify_bundle}
use aura_server.Release.Bundle.Verified.{HasFile, IsListed, IsVerified}
use aura_server.Release.Disk.{is_place, Disk}
use aura_server.Release.Disk.Parents.{parents}
use aura_server.Release.Archive.{file_mode}
use aura_server.Release.Pack.{Packed, Tar, sorted_set, finished, pack}
use aura_server.Release.Pack.Ascending.{sorted_set-IsAscending, IsAscending-unique}
use aura_server.Release.Pack.Whole.{
  IsMember, member_names, sorted_set-contains, IsVerified-file, pack_run,
}

-- The same files with the same bytes, under whatever modes and beside whatever directories.
abbrev pub SameFiles : Tree → Tree → Type 0
SameFiles a b = (n : String) (bytes : List ℕ) → HasFile a n bytes ↔ HasFile b n bytes

-- A file of a verified bundle is one of the names that are packed.
pub IsVerified-listed :
    (P : Platform) (bundle : Tree) (version arch : String) (manifest files : Dict Value)
    → IsVerified P bundle version arch manifest files
    → (n : String) (bytes : List ℕ) → HasFile bundle n bytes
    → contains (sorted_set ("manifest.json" ∷ keys files)) n ≡ true
IsVerified-listed P bundle version arch manifest files v n bytes (mode, there) =
    let (_, listed) = All-lookup (IsListed files) n bundle v.closed there in
    sorted_set-contains n ("manifest.json" ∷ keys files) ∙ (elim listed [
      | inl e ↦ ground (arith, e, eq_iff "manifest.json" n)
      | inr c ↦ ground (arith, c)
    ])

file_bytes_unique : (t : Tree) (n : String) {a b : List ℕ} → HasFile t n a → HasFile t n b → a ≡ b
file_bytes_unique t n (m, h) (k, g) = cc

same_members :
    (a b : Tree) (ms ns : List Packed)
    → SameFiles a b
    → All (IsMember a) ms
    → All (IsMember b) ns
    → member_names ms ≡ member_names ns
    → ms ≡ ns
same_members a b [] [] same h k e = refl
same_members a b [] (n ∷ ns) same h k e = absurd (cc e)
same_members a b (m ∷ ms) [] same h k e = absurd (cc e)
same_members a b (m ∷ ms) (n ∷ ns) same ((f, q, t), h) ((g, r, u), k) e =
    let name : m.name ≡ n.name = cc e in
    let f' = (same m.name m.bytes).0 f in
    let bytes = file_bytes_unique b n.name (subst (λ s. HasFile b s m.bytes) name f') g in
    let mode : m.mode ≡ n.mode = q ∙ ap file_mode name ∙ sym r in
    let mtime : m.mtime ≡ n.mtime = t ∙ sym u in
    let rest = same_members a b ms ns same h k cc in
    ap (λ l. m ∷ l) rest ∙ ap (λ x. x ∷ ns) (rw (name, bytes, mode, mtime))

IsVerified-contains :
    (P : Platform) (a b : Tree) (version arch : String)
    (manifest manifest' files files' : Dict Value)
    → IsVerified P a version arch manifest files
    → IsVerified P b version arch manifest' files'
    → SameFiles a b
    → (n : String) → contains (sorted_set ("manifest.json" ∷ keys files)) n ≡ true
    → contains (sorted_set ("manifest.json" ∷ keys files')) n ≡ true
IsVerified-contains P a b version arch manifest manifest' files files' v w same n h =
    let c = sym (sorted_set-contains n ("manifest.json" ∷ keys files)) ∙ h in
    let (bytes, there) = IsVerified-file P a version arch manifest files v n c in
    IsVerified-listed P b version arch manifest' files' w n bytes ((same n bytes).0 there)

both_ways : (a b : Bool) → (a ≡ true → b ≡ true) → (b ≡ true → a ≡ true) → a ≡ b
both_ways a b f g = ground arith

-- What a run does once it is open depends on the encoding only.
finished_same :
    (P : Platform) (tar : Tar) (out out' : String) (d d' : Disk) (r : Result (List ℕ))
    → let first = finished P tar out d r in
      let second = finished P tar out' d' r in
      (first.result ≡ second.result) × (lookup out first.disk ≡ lookup out' second.disk)
finished_same P tar out out' d d' (err e) =
    (refl, lookup-insert_self out _ d ∙ sym (lookup-insert_self out' _ d'))
finished_same P tar out out' d d' (ok bytes) =
    (refl, lookup-insert_self out _ d ∙ sym (lookup-insert_self out' _ d'))

-- `pack` is reproducible: of two bundles that `verify_bundle` accepts for one version and one
-- architecture and that hold the same files with the same bytes, in whatever order they and their
-- manifests list them, it makes the same archive. Where each run finds nothing at its output and
-- directories above it, both leave the same thing there and both end with the same digest or the same
-- error.
pub pack_reproducible :
    (P : Platform) (tar : Tar) (a b : Tree) (out out' version arch : String) (d d' : Disk)
    {manifest manifest' : Dict Value}
    → SameFiles a b
    → verify_bundle P a version arch ≡ ok manifest
    → verify_bundle P b version arch ≡ ok manifest'
    → lookup out d ≡ none
    → lookup out' d' ≡ none
    → all (λ p. is_place (lookup p d)) (parents out) ≡ true
    → all (λ p. is_place (lookup p d')) (parents out') ≡ true
    → let first = pack P tar a out version arch d in
      let second = pack P tar b out' version arch d' in
      (first.result ≡ second.result) × (lookup out first.disk ≡ lookup out' second.disk)
pack_reproducible P tar a b out out' version arch d d' {manifest} {manifest'} same h h' free free'
      placed placed' =
    let (files, ms, v, names, good, run) = pack_run P tar a out version arch d h free placed in
    let (files', ns, w, names', good', run') =
      pack_run P tar b out' version arch d' h' free' placed' in
    let listed =
      IsAscending-unique _ _ (sorted_set-IsAscending ("manifest.json" ∷ keys files))
        (sorted_set-IsAscending ("manifest.json" ∷ keys files'))
        (λ n.
          both_ways _ _
            (IsVerified-contains P a b version arch manifest manifest' files files' v w same n)
            (IsVerified-contains P b a version arch manifest' manifest files' files w v
              (λ n bytes. ((same n bytes).1, (same n bytes).0)) n)) in
    rw (run, run', same_members a b ms ns same good good' (names ∙ listed ∙ sym names'))
      (finished_same P tar out out' d d' (tar.encode "" 0 ns))
