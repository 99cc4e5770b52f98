-- ===== src/Deploy/Site.antt =====
-- The publication directory of ip_deploy.py, and the system calls on it.
pub mod Changes
pub mod Kept
use Prim.Native.Nat.{bit_and}
use Prim.Native.Char.{code}
use aura_server.Base.{
  ℕ, zero, suc, String, Bool, true, false, not, ◌&&◌, ◌||◌, Option, none, some, List, [], ◌∷◌, ◌==◌,
  nat_eq, string_eq, list_eq, if◌then◌else◌, all, take, drop, codes, is_alnum, Result, ok, err,
  os_error, value_error,
}
use aura_server.Base.Dict.{Dict, lookup, insert, erase}

-- An entry: a directory with its files, a link, or anything else.
pub data Item : Type 0 where
  folder : Dict (List ℕ) → Item
  link : String → Item
  other : Item

-- The directory itself: absent, a real directory with its owner and mode, or something else (which
-- may lead to a directory).
pub data Root : Type 0 where
  absent : Root
  real : ℕ → ℕ → Root
  unreal : Bool → Root

pub record Site : Type 0 where
  pub root : Root
  pub items : Dict Item

abbrev pub make_root_at : ℕ → Root → Site → Result Site
make_root_at euid absent s = ok (record { root = real euid 0o700; items = [] })
make_root_at euid (real uid mode) s = ok s
make_root_at euid (unreal true) s = ok s
make_root_at euid (unreal false) s = err (os_error "FileExistsError")

-- `root.mkdir(mode=0o700, exist_ok=True)`
unfoldable pub make_root : ℕ → Site → Result Site
make_root euid s = make_root_at euid s.root s

-- The test on `root.lstat()`
unfoldable pub check_root : ℕ → Site → Result (Unit {0})
check_root euid s = elim (s.root) [
  | real uid mode ↦
      if not (uid == euid) || not (bit_and mode 0o077 == 0)
      then err (value_error "Unsafe certificate publication directory")
      else ok tt
  | absent ↦ err (os_error "FileNotFoundError")
  | unreal leads ↦ err (value_error "Unsafe certificate publication directory")
]

abbrev pub set_item : String → Item → Site → Site
set_item name item s = record s { items = insert name item s.items }

abbrev pub drop_item : String → Site → Site
drop_item name s = record s { items = erase name s.items }

abbrev pub unlink_at : String → Site → Option Item → Result Site
unlink_at name s none = err (os_error "FileNotFoundError")
unlink_at name s (some (folder _)) = err (os_error "IsADirectoryError")
unlink_at name s (some (link _)) = ok (drop_item name s)
unlink_at name s (some other) = ok (drop_item name s)

unfoldable pub unlink : String → Site → Result Site
unlink name s = unlink_at name s (lookup name s.items)

abbrev pub add_at : String → Item → Site → Option Item → Result Site
add_at name item s none = ok (set_item name item s)
add_at name item s (some _) = err (os_error "FileExistsError")

unfoldable pub symlink : String → String → Site → Result Site
symlink name target s = add_at name (link target) s (lookup name s.items)

unfoldable pub make_folder : String → Site → Result Site
make_folder name s = add_at name (folder []) s (lookup name s.items)

abbrev pub replace_at : String → String → Site → Option Item → Option Item → Result Site
replace_at source destination s none _ = err (os_error "FileNotFoundError")
replace_at source destination s (some moved) none =
    ok (set_item destination moved (drop_item source s))
replace_at source destination s (some moved) (some (folder _)) = err (os_error "IsADirectoryError")
replace_at source destination s (some moved) (some (link _)) =
    ok (set_item destination moved (drop_item source s))
replace_at source destination s (some moved) (some other) =
    ok (set_item destination moved (drop_item source s))

-- `os.replace` of a link
unfoldable pub replace : String → String → Site → Result Site
replace source destination s =
    replace_at source destination s (lookup source s.items) (lookup destination s.items)

abbrev pub put_files : String → Site → Result (Dict (List ℕ)) → Result Site
put_files name s (ok files) = ok (set_item name (folder files) s)
put_files name s (err e) = err e

abbrev pub in_folder_at :
    String → (Dict (List ℕ) → Result (Dict (List ℕ))) → Site → Option Item → Result Site
in_folder_at name f s none = err (os_error "FileNotFoundError")
in_folder_at name f s (some (folder files)) = put_files name s (f files)
in_folder_at name f s (some (link _)) = err (os_error "NotADirectoryError")
in_folder_at name f s (some other) = err (os_error "NotADirectoryError")

-- A call on the files of a directory.
unfoldable pub in_folder : String → (Dict (List ℕ) → Result (Dict (List ℕ))) → Site → Result Site
in_folder name f s = in_folder_at name f s (lookup name s.items)

-- `open("xb")`, a write to the open file, and `unlink`
abbrev pub create_file : String → Dict (List ℕ) → Result (Dict (List ℕ))
create_file name files = elim (lookup name files) [
  | none ↦ ok (insert name [] files)
  | some _ ↦ err (os_error "FileExistsError")
]

abbrev pub write_file : String → List ℕ → Dict (List ℕ) → Result (Dict (List ℕ))
write_file name bytes files = ok (insert name bytes files)

abbrev pub unlink_file : String → Dict (List ℕ) → Result (Dict (List ℕ))
unlink_file name files = elim (lookup name files) [
  | none ↦ err (os_error "FileNotFoundError")
  | some _ ↦ ok (erase name files)
]

abbrev pub rmdir_at : String → Site → Option Item → Result Site
rmdir_at name s none = err (os_error "FileNotFoundError")
rmdir_at name s (some (folder [])) = ok (drop_item name s)
rmdir_at name s (some (folder (_ ∷ _))) = err (os_error "OSError")
rmdir_at name s (some (link _)) = err (os_error "NotADirectoryError")
rmdir_at name s (some other) = err (os_error "NotADirectoryError")

unfoldable pub rmdir : String → Site → Result Site
rmdir name s = rmdir_at name s (lookup name s.items)

abbrev pub folder_behind : (String → Bool) → Option Item → Bool
folder_behind leads none = false
folder_behind leads (some (folder _)) = true
folder_behind leads (some (link target)) = leads target
folder_behind leads (some other) = false

-- `path.is_dir()`, which follows links; the system gives up after forty.
unfoldable pub leads_to_folder : ℕ → Dict Item → String → Bool
leads_to_folder zero items name = false
leads_to_folder (suc n) items name = folder_behind (leads_to_folder n items) (lookup name items)

-- `pair-[a-zA-Z0-9_-]+`
unfoldable pub is_pair_name : String → Bool
is_pair_name name =
    take 5 (codes name) == codes "pair-"
    && not (drop 5 (codes name) == [])
    && all (λ c. is_alnum c || c == b'_' || c == b'-') (drop 5 (codes name))

abbrev pub find_previous_at : Dict Item → Option Item → Result (Option String)
find_previous_at items none = ok none
find_previous_at items (some (link target)) =
    if is_pair_name target && leads_to_folder 41 items target
    then ok (some target)
    else err (value_error "Invalid previous certificate generation")
find_previous_at items (some (folder _)) = err (value_error "Unexpected current certificate object")
find_previous_at items (some other) = err (value_error "Unexpected current certificate object")

-- What `publish` finds under `current`: nothing, or the name of the previous pair.
unfoldable pub find_previous : Site → Result (Option String)
find_previous s = find_previous_at s.items (lookup "current" s.items)
