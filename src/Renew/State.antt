-- ===== src/Renew/State.antt =====
-- The owner service's directory as renew.py sees it, and the calls on it.
use Prim.Native.Nat.{bit_and}
use aura_server.Base.{
  ℕ, String, not, ◌||◌, Option, none, some, List, [], ◌∷◌, ◌==◌, nat_eq, if◌then◌else◌, Result, ok,
  err, ◌>>=◌, os_error, value_error,
}
use aura_server.Base.Dict.{Dict, lookup, insert, erase}
use aura_server.Deploy.Site.{Root, absent, real, unreal}

-- A regular file has its owner, its mode and its bytes.
pub data File : Type 0 where
  regular : ℕ → ℕ → List ℕ → File
  special : File

-- `live` lists the directory's files. `backup` is `.owner-tls-before-renewal`, and `staged` the
-- temporary directory of the new pair. The files of `mkstemp`, `.tls-renew-…`, are in `temps` by
-- name: no other call uses such a name.
pub record Owner : Type 0 where
  pub root : Root
  pub live : Dict File
  pub backup : Option (Dict (List ℕ))
  pub staged : Option (Dict (List ℕ))
  pub temps : Dict (List ℕ)

-- `private_regular`
abbrev pub private_regular : ℕ → Option File → Result (Unit {0})
private_regular uid none = err (os_error "FileNotFoundError")
private_regular uid (some special) = err (value_error "Unsafe private file")
private_regular uid (some (regular owner mode bytes)) =
    if not (owner == uid) || not (bit_and mode 0o077 == 0)
    then err (value_error "Unsafe private file")
    else ok tt

abbrev pub check_owner_root : ℕ → Root → Result (Unit {0})
check_owner_root uid (real owner mode) =
    if not (owner == uid) || not (bit_and mode 0o077 == 0)
    then err (value_error "Unsafe owner state directory")
    else ok tt
check_owner_root uid absent = err (os_error "FileNotFoundError")
check_owner_root uid (unreal _) = err (value_error "Unsafe owner state directory")

abbrev pub bytes_of : Option File → Result (List ℕ)
bytes_of none = err (os_error "FileNotFoundError")
bytes_of (some special) = err (os_error "special file")
bytes_of (some (regular owner mode bytes)) = ok bytes

abbrev pub read_live : String → Owner → Result (List ℕ)
read_live name s = bytes_of (lookup name s.live)

abbrev pub found : Option (List ℕ) → Result (List ℕ)
found none = err (os_error "FileNotFoundError")
found (some bytes) = ok bytes

abbrev pub read_in : String → Option (Dict (List ℕ)) → Result (List ℕ)
read_in name none = err (os_error "FileNotFoundError")
read_in name (some files) = found (lookup name files)

abbrev pub read_staged : String → Owner → Result (List ℕ)
read_staged name s = read_in name s.staged

-- `mkstemp`, a write to the open file, and the removal of what is left
abbrev pub make_temp_at : String → Owner → Option (List ℕ) → Result Owner
make_temp_at temp s none = ok (record s { temps = insert temp [] s.temps })
make_temp_at temp s (some _) = err (os_error "FileExistsError")

abbrev pub make_temp : String → Owner → Result Owner
make_temp temp s = make_temp_at temp s (lookup temp s.temps)

abbrev pub write_temp : String → List ℕ → Owner → Result Owner
write_temp temp bytes s = ok (record s { temps = insert temp bytes s.temps })

abbrev pub drop_temp : String → Owner → Result Owner
drop_temp temp s = ok (record s { temps = erase temp s.temps })

-- Where `atomic_copy` writes to, with the file's name.
pub data Place : Type 0 where
  to_live to_backup : String → Place

abbrev pub put_in : String → List ℕ → Option (Dict (List ℕ)) → Result (Dict (List ℕ))
put_in name bytes none = err (os_error "FileNotFoundError")
put_in name bytes (some files) = ok (insert name bytes files)

abbrev pub put : ℕ → Place → List ℕ → Owner → Result Owner
put uid (to_live name) bytes s =
    ok (record s { live = insert name (regular uid 0o600 bytes) s.live })
put uid (to_backup name) bytes s =
    put_in name bytes s.backup >>= λ files. ok (record s { backup = some files })

-- `os.replace(name, destination)`
abbrev pub replace_temp_at : ℕ → String → Place → Owner → Option (List ℕ) → Result Owner
replace_temp_at uid temp place s none = err (os_error "FileNotFoundError")
replace_temp_at uid temp place s (some bytes) =
    put uid place bytes (record s { temps = erase temp s.temps })

abbrev pub replace_temp : ℕ → String → Place → Owner → Result Owner
replace_temp uid temp place s = replace_temp_at uid temp place s (lookup temp s.temps)

-- `previous.mkdir(exist_ok=False)`
abbrev pub make_backup_at : Owner → Option (Dict (List ℕ)) → Result Owner
make_backup_at s none = ok (record s { backup = some [] })
make_backup_at s (some _) = err (os_error "FileExistsError")

abbrev pub make_backup : Owner → Result Owner
make_backup s = make_backup_at s s.backup

abbrev pub unlink_in : String → Option (Dict (List ℕ)) → Result (Dict (List ℕ))
unlink_in name none = err (os_error "FileNotFoundError")
unlink_in name (some files) = found (lookup name files) >>= λ _. ok (erase name files)

abbrev pub unlink_backup : String → Owner → Result Owner
unlink_backup name s = unlink_in name s.backup >>= λ files. ok (record s { backup = some files })

abbrev pub rmdir_backup_at : Owner → Option (Dict (List ℕ)) → Result Owner
rmdir_backup_at s none = err (os_error "FileNotFoundError")
rmdir_backup_at s (some []) = ok (record s { backup = none })
rmdir_backup_at s (some (_ ∷ _)) = err (os_error "OSError")

abbrev pub rmdir_backup : Owner → Result Owner
rmdir_backup s = rmdir_backup_at s s.backup

-- The temporary directory, a file in it, and its end
abbrev pub make_staged : Owner → Result Owner
make_staged s = ok (record s { staged = some [] })

abbrev pub write_staged : String → List ℕ → Owner → Result Owner
write_staged name bytes s =
    put_in name bytes s.staged >>= λ files. ok (record s { staged = some files })

abbrev pub drop_staged : Owner → Result Owner
drop_staged s = ok (record s { staged = none })
