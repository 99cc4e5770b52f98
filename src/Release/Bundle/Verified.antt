-- ===== src/Release/Bundle/Verified.antt =====
-- What a directory that passes `verify_bundle` is like.
use aura_server.Base.{
  ℕ, ◌*◌, ◌<◌, ◌≤◌, ◌≡◌, ◌⊎◌, String, true, some, List, length, All, nat_eq, string_eq, list_eq,
  contains, codes, ok,
}
use aura_server.Base.Dict.{Dict, keys, lookup}
use aura_server.Json.{Value, int, pos, str, object, as_object, to_dict, value_eq}
use aura_server.Json.Unique.{HasUniqueKeys}
use aura_server.Release.Member.Parts.{IsAccepted}
use aura_server.Release.Tree.{
  Tree, Node, file, folder, link, special, Platform, max_expanded, max_files, required, total_size,
}
use aura_server.Release.Bundle.{get, is_version, is_sha256, is_arch, lock, is_executable_for}

-- A file of the directory, with these bytes.
abbrev pub HasFile : Tree → String → List ℕ → Type 0
HasFile root name bytes = (mode : ℕ) × (lookup name root ≡ some (file mode bytes))

-- An entry is a directory, or a file under an acceptable name that the manifest lists or that is the
-- manifest itself.
abbrev pub IsListed : Dict Value → String × Node → Type 0
IsListed files (name, file _ _) =
    IsAccepted (codes name) × ((name ≡ "manifest.json") ⊎ (contains (keys files) name ≡ true))
IsListed files (name, folder) = Unit
IsListed files (name, link) = ⊥
IsListed files (name, special) = ⊥

-- An item of the manifest's inventory is a file with that digest.
abbrev pub IsIntact : Platform → Tree → String × Value → Type 0
IsIntact P root (name, v) =
    (bytes : List ℕ) × HasFile root name bytes
    × (v ≡ str (P.sha256 bytes))
    × (is_sha256 (P.sha256 bytes) ≡ true)

abbrev pub IsExecutable : Tree → String → String → Type 0
IsExecutable root arch name =
    (bytes : List ℕ) × HasFile root name bytes × (is_executable_for arch bytes ≡ true)

pub record IsVerified (P : Platform) (root : Tree) (version arch : String)
    (manifest files : Dict Value) : Type 0 where
  pub known_arch : is_arch arch ≡ true
  pub plain_version : is_version version ≡ true
  pub manifest_bytes : List ℕ
  pub manifest_file : HasFile root "manifest.json" manifest_bytes
  pub manifest_small : length manifest_bytes ≤ 128 * 1024
  pub value : Value
  pub parsed : P.loads manifest_bytes ≡ some value
  pub unique : HasUniqueKeys value
  pub is_dict : as_object value ≡ ok manifest
  pub format : value_eq (get manifest "format") (int (pos 1)) ≡ true
  pub same_version : get manifest "version" ≡ str version
  pub same_arch : get manifest "arch" ≡ str arch
  pub components : Dict Value
  pub locked : lock P ≡ ok components
  pub provenance : All (λ (field, v). value_eq (get manifest field) v ≡ true) components
  pub inventory_of : (fs : _) × (get manifest "files" ≡ object fs) × (to_dict fs ≡ files)
  pub complete : All (λ name. contains (keys files) name ≡ true) required
  pub few : length files < max_files
  pub closed : All (IsListed files) root
  pub intact : All (IsIntact P root) files
  pub small : total_size root ≤ max_expanded
  pub server : IsExecutable root arch "bin/aura-server"
  pub navidrome : IsExecutable root arch "bin/navidrome"
