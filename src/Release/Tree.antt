-- ===== src/Release/Tree.antt =====
-- A directory on disk as release.py sees it, and what the program takes from outside its source.
use aura_server.Base.{ℕ, ◌*◌, ◌+◌, String, Option, List, [], ◌∷◌, length}
use aura_server.Base.Dict.{Dict}
use aura_server.Json.{Value}

-- `folder` is a directory that holds what is listed below it; a file has its mode and its bytes.
pub data Node : Type 0 where
  file : ℕ → List ℕ → Node
  folder link special : Node

-- What lies below a directory, each under its relative path with slashes, in the order in which
-- `rglob` lists it.
abbrev pub Tree : Type 0
Tree = Dict Node

-- `hashlib.sha256` as a hexadecimal text, `json.loads` (objects as lists of pairs), and the bytes of
-- components.json.
pub record Platform : Type 0 where
  pub sha256 : List ℕ → String
  pub loads : List ℕ → Option Value
  pub components : List ℕ

abbrev pub max_archive : ℕ
max_archive = 512 * 1024 * 1024

abbrev pub max_expanded : ℕ
max_expanded = 1024 * 1024 * 1024

abbrev pub max_files : ℕ
max_files = 256

abbrev pub required : List String
required = "bin/aura-server" ∷ "bin/navidrome" ∷ "aura-package.py" ∷ "README.md" ∷ []

-- The bytes of all files.
unfoldable pub total_size : Tree → ℕ
total_size [] = 0
total_size ((name, file _ bytes) ∷ rest) = length bytes + total_size rest
total_size ((name, _) ∷ rest) = total_size rest
