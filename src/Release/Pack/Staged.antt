-- ===== src/Release/Pack/Staged.antt =====
-- The directory that `unpack`'s loop makes of the members that `pack` writes.
use aura_server.Base.{
  ℕ, ◌≤◌, ◌≡◌, ◌↔◌, ◌∙◌, ap, refl, inl, inr, String, true, false, some, List, [], ◌∷◌, ◌==◌,
  string_eq, nat_eq, length, contains, codes, All, All-map, Bool-cases, ok, arith,
}
use text.Mathlib.TextEquality.{eq_iff}
use aura_server.Base.Dict.{Dict, keys, lookup, All-lookup}
use aura_server.Json.{Value}
use aura_server.Json.Unique.{Distinct}
use aura_server.Release.Member.Parts.{IsAccepted}
use aura_server.Release.Tree.{
  Tree, Node, file, folder, link, special, Platform, total_size, max_expanded, max_files,
}
use aura_server.Release.Bundle.Verified.{HasFile, IsListed, IsIntact, IsExecutable, IsVerified}
use aura_server.Release.Archive.{file_mode, extract}
use aura_server.Release.Archive.Members.{IsFileOf, members}
use aura_server.Release.Archive.Extract.{extract_lem}
use aura_server.Release.Pack.{Packed, insert_name, sorted_set}
use aura_server.Release.Pack.Ascending.{sorted_set-IsAscending, IsAscending-Distinct}
use aura_server.Release.Pack.Whole.{IsMember, member_names}
use aura_server.Release.Pack.Reproducible.{SameFiles, IsVerified-listed}
use aura_server.Release.Pack.Sizes.{byte_count-bound}
use aura_server.Release.Pack.Extracts.{stream_of, IsFolder, IsCopied, extract-IsCopied}

insert_name-length : (x : String) (ys : List String) → length (insert_name x ys) ≤ length (x ∷ ys)
unfolding insert_name
insert_name-length x [] = omega arith
insert_name-length x (y ∷ ys) = ground (arith, insert_name-length x ys)

sorted_set-length : (xs : List String) → length (sorted_set xs) ≤ length xs
unfolding sorted_set
sorted_set-length [] = omega arith
sorted_set-length (x ∷ xs) =
    omega (arith, insert_name-length x (sorted_set xs), sorted_set-length xs)

keys-length : (d : Dict Value) → length (keys d) ≡ length d
keys-length [] = refl
keys-length ((k, v) ∷ d) = omega (arith, keys-length d)

member_names-length : (ms : List Packed) → length (member_names ms) ≡ length ms
member_names-length [] = refl
member_names-length (m ∷ ms) = omega (arith, member_names-length ms)

-- What is extracted of a member of the bundle is the member's file.
extracted_file :
    (bundle t : Tree) (n : String) (bytes : List ℕ) (ms : List Packed)
    → All (λ m. (b : List ℕ) × IsFileOf t m b) (members (stream_of ms))
    → All (IsMember bundle) ms
    → contains (member_names ms) n ≡ true
    → HasFile bundle n bytes
    → lookup n t ≡ some (file (file_mode n) bytes)
extracted_file bundle t n bytes [] x h c there = absurd (cc c)
extracted_file bundle t n bytes (m ∷ ms) ((b, (content, at)), xs) (((mode, is), _, _), hs) c there =
    elim (Bool-cases (m.name == n)) [
      | inr e ↦ extracted_file bundle t n bytes ms xs hs (rw e at c) there
      | inl e ↦
          let name = (eq_iff m.name n).0 e in
          let at' = rw name at at in
          let is' = rw name at is in
          let same : b ≡ bytes = cc (content, is', there.1) in
          at' ∙ ap (λ b. some (file (file_mode n) b)) same
    ]

none_seen : (ms : List Packed) → All (λ m. contains [] m.name ≡ false) ms
none_seen [] = tt
none_seen (m ∷ ms) = (refl, none_seen ms)

no_bytes : total_size [] ≡ 0
unfolding total_size
no_bytes = refl

module _ (P : Platform) (bundle : Tree) (version arch : String) (manifest files : Dict Value)
    (v : IsVerified P bundle version arch manifest files) where
  abbrev pub names : List String
  names = sorted_set ("manifest.json" ∷ keys files)

  pub IsAccepted-members :
      (ms : List Packed) → All (IsMember bundle) ms → All (λ m. IsAccepted (codes m.name)) ms
  IsAccepted-members =
      All-map (IsMember bundle) (λ m. IsAccepted (codes m.name))
        (λ m ((mode, there), _, _). (All-lookup (IsListed files) m.name bundle v.closed there).0)

  few_names : length names ≤ max_files
  few_names =
      omega (arith, sorted_set-length ("manifest.json" ∷ keys files), keys-length files, v.few)

  IsListed-copied :
      (seen : List String) (e : String × Node) → IsCopied bundle seen e → IsListed files e
  IsListed-copied seen (k, folder) c = tt
  IsListed-copied seen (k, file _ bytes) ((mode, there), _) =
      All-lookup (IsListed files) k bundle v.closed there
  IsListed-copied seen (k, link) c = c
  IsListed-copied seen (k, special) c = c

  module _ (staging : Tree) (same : SameFiles bundle staging) where
    IsIntact-copied : (e : String × Value) → IsIntact P bundle e → IsIntact P staging e
    IsIntact-copied (name, value) (bytes, there, digest, hex) =
        (bytes, (same name bytes).0 there, digest, hex)

    IsExecutable-copied :
        (name : String) → IsExecutable bundle arch name → IsExecutable staging arch name
    IsExecutable-copied name (bytes, there, fits) = (bytes, (same name bytes).0 there, fits)

    -- A directory with the bundle's files is verified as the bundle is.
    IsVerified-copied :
        All (IsListed files) staging
        → total_size staging ≤ max_expanded
        → IsVerified P staging version arch manifest files
    IsVerified-copied closed small = record {
      known_arch = v.known_arch;
      plain_version = v.plain_version;
      manifest_bytes = v.manifest_bytes;
      manifest_file = (same "manifest.json" v.manifest_bytes).0 v.manifest_file;
      manifest_small = v.manifest_small;
      value = v.value;
      parsed = v.parsed;
      unique = v.unique;
      is_dict = v.is_dict;
      format = v.format;
      same_version = v.same_version;
      same_arch = v.same_arch;
      components = v.components;
      locked = v.locked;
      provenance = v.provenance;
      inventory_of = v.inventory_of;
      complete = v.complete;
      few = v.few;
      closed = closed;
      intact = All-map (IsIntact P bundle) (IsIntact P staging) IsIntact-copied files v.intact;
      small = small;
      server = IsExecutable-copied "bin/aura-server" v.server;
      navidrome = IsExecutable-copied "bin/navidrome" v.navidrome;
    }

  -- The directory that the members of the bundle make.
  pub record IsStaged (ms : List Packed) (staging : Tree) : Type 0 where
    pub extracted : extract (stream_of ms) [] 0 [] ≡ ok staging
    pub verified : IsVerified P staging version arch manifest files
    pub files_there :
        (n : String) (bytes : List ℕ)
        → HasFile bundle n bytes ↔ (lookup n staging ≡ some (file (file_mode n) bytes))

  module _ (f : IsFolder bundle) (ms : List Packed) (listed : member_names ms ≡ names)
      (good : All (IsMember bundle) ms) where
    Distinct-names : Distinct (member_names ms)
    Distinct-names =
        rw listed
          (IsAscending-Distinct names (sorted_set-IsAscending ("manifest.json" ∷ keys files)))

    few_members : length ms ≤ max_files
    few_members = omega (arith, member_names-length ms, ap (λ l. length l) listed, few_names)

    IsStaged-of :
        (staging : Tree) (seen : List String)
        → extract (stream_of ms) [] 0 [] ≡ ok staging
        → All (IsCopied bundle seen) staging
        → total_size staging ≤ max_expanded
        → IsStaged ms staging
    IsStaged-of staging seen h copied small =
        let (_, x) = extract_lem (stream_of ms) staging h in
        let there : (n : String) (bytes : List ℕ)
            → HasFile bundle n bytes
            → lookup n staging ≡ some (file (file_mode n) bytes) =
          λ n bytes g.
            extracted_file bundle staging n bytes ms x.files good
              (ap (λ l. contains l n) listed
                ∙ IsVerified-listed P bundle version arch manifest files v n bytes g)
              g in
        let back : (n : String) (bytes : List ℕ)
            → HasFile staging n bytes
            → HasFile bundle n bytes =
          λ n bytes g. (All-lookup (IsCopied bundle seen) n staging copied g.1).0 in
        record {
          extracted = h;
          verified =
              IsVerified-copied staging
                (λ n bytes. (λ g. (file_mode n, there n bytes g), back n bytes))
                (All-map (IsCopied bundle seen) (IsListed files) (IsListed-copied seen) staging
                  copied)
                small;
          files_there = λ n bytes. (there n bytes, λ g. back n bytes (file_mode n, g));
        }

    pub staged : (staging : Tree) × IsStaged ms staging
    staged =
        let size = byte_count-bound bundle ms Distinct-names good in
        let (staging, seen, h, copied, total) =
          extract-IsCopied bundle f ms [] 0 [] good (IsAccepted-members ms good) (none_seen ms)
            Distinct-names (omega (arith, size, v.small)) (omega (arith, few_members)) tt in
        (staging, IsStaged-of staging seen h copied (omega (arith, total, size, v.small, no_bytes)))
