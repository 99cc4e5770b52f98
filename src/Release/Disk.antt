-- ===== src/Release/Disk.antt =====
-- The places on disk that a command of release.py names, and the two library calls that change them.
pub mod Parents
pub mod Effect
pub mod Extended
use aura_server.Base.{
  ℕ, String, Bool, true, false, ◌||◌, ◌&&◌, all, none, some, List, Option, ◌==◌, string_eq,
  if◌then◌else◌, Result, ok, err, os_error, [], ◌∷◌,
}
use aura_server.Base.Dict.{Dict, lookup, insert}
use aura_server.Release.Tree.{Tree}
use aura_server.Release.Disk.Parents.{parents}

-- What a link leads to, with the bytes of a file.
pub data Target : Type 0 where
  dangling to_folder : Target
  to_file : List ℕ → Target

-- A directory holds what lies below it, except for what has an entry of its own.
pub data Entry : Type 0 where
  plain : List ℕ → Entry
  directory : Tree → Entry
  symlink : Target → Entry

-- Absolute paths, and what stands there.
abbrev pub Disk : Type 0
Disk = Dict Entry

-- `path.exists()`, which follows a link
abbrev pub entry_exists : Option Entry → Bool
entry_exists none = false
entry_exists (some (plain _)) = true
entry_exists (some (directory _)) = true
entry_exists (some (symlink dangling)) = false
entry_exists (some (symlink (to_file _))) = true
entry_exists (some (symlink to_folder)) = true

unfoldable pub exists : Disk → String → Bool
exists d path = entry_exists (lookup path d)

abbrev pub entry_is_symlink : Option Entry → Bool
entry_is_symlink (some (symlink _)) = true
entry_is_symlink _ = false

unfoldable pub is_symlink : Disk → String → Bool
is_symlink d path = entry_is_symlink (lookup path d)

abbrev pub is_directory : Entry → Bool
is_directory (directory _) = true
is_directory (symlink to_folder) = true
is_directory _ = false

-- A directory that takes entries stands there.
abbrev pub is_place : Option Entry → Bool
is_place none = false
is_place (some entry) = is_directory entry

abbrev pub has_parents : Disk → String → Bool
has_parents d path = all (λ p. is_place (lookup p d)) (parents path)

-- `os.rename` of what is in a temporary directory: it fails where that directory, or one above the
-- new name, is gone.
abbrev pub rename_to : Bool → String → Disk → Result Disk → Result Disk
rename_to leaves path d moved =
    if leaves && has_parents d path then moved else err (os_error "FileNotFoundError")

-- `os.rename` of a directory: it replaces nothing but an empty directory.
unfoldable pub rename_directory : Tree → String → Disk → Result (Disk)
rename_directory t path d = elim (lookup path d) [
  | none ↦ ok (insert path (directory t) d)
  | some entry ↦ elim entry [
    | plain _ ↦ err (os_error "NotADirectoryError")
    | directory old ↦ elim old [
      | [] ↦ ok (insert path (directory t) d)
      | _ ∷ _ ↦ err (os_error "OSError")
    ]
    | symlink _ ↦ err (os_error "NotADirectoryError")
  ]
]

-- `os.rename` of a file: it replaces anything but a directory.
unfoldable pub rename_file : List ℕ → String → Disk → Result Disk
rename_file bytes path d = elim (lookup path d) [
  | none ↦ ok (insert path (plain bytes) d)
  | some entry ↦ elim entry [
    | plain _ ↦ ok (insert path (plain bytes) d)
    | directory _ ↦ err (os_error "IsADirectoryError")
    | symlink _ ↦ ok (insert path (plain bytes) d)
  ]
]
