-- ===== src/Renew/Install.antt =====
-- `atomic_copy`, `owner_files`, `as_owner` and `owner_install` of renew.py.
pub mod Copy
pub mod Pairs
pub mod Steps
pub mod Recover
pub mod Safe
pub mod Total
pub mod Returns
pub mod Order
pub mod Blocked
pub mod Runs
use aura_server.Base.{
  ℕ, String, Bool, true, false, Option, none, some, List, [], ◌∷◌, Error, Result, ok, err,
  value_error,
}
use aura_server.Base.Dict.{Dict, lookup}
use aura_server.Script.{
  Machine, Script, pure, throw, lift, gets, ◌>>=◌, ◌>>◌, try_except, try_finally, for_each, when,
  change, command,
}
use aura_server.Renew.State.{
  File, Owner, private_regular, check_owner_root, read_live, read_staged, make_temp, write_temp,
  drop_temp, Place, to_live, to_backup, replace_temp, make_backup, unlink_backup, rmdir_backup,
  make_staged, write_staged, drop_staged,
}

abbrev pub is_left : Option (List ℕ) → Bool
is_left none = false
is_left (some _) = true

abbrev pub names : List String
names = "owner.crt" ∷ "owner.key" ∷ []

unfoldable pub check_private : ℕ → String → Script Owner (Unit {0})
check_private uid name = do r ← gets (λ s. private_regular uid (lookup name s.live)); lift r

-- What a child process does; its exceptions come back as one.
unfoldable pub as_owner : Script Owner (Unit {0}) → Script Owner (Unit {0})
as_owner operation =
    try_except operation (λ _. throw (value_error "Owner certificate file operation needs repair"))

-- `h` is what the machine decides, `fresh` the name that `mkstemp` chooses.
module _ (h : Machine) where
  -- `fchmod`, `fchown`, `chown`, `chmod`, `fsync`: nothing that is modelled changes, but the call may fail.
  unfoldable pub settle : Script Owner (Unit {0})
  settle = change h ok

  unfoldable pub clean_temp : String → Script Owner (Unit {0})
  clean_temp temp = do
    left ← gets (λ s. is_left (lookup temp s.temps))
    when left (change h (drop_temp temp))

  unfoldable pub copy_by : String → (Owner → Result (List ℕ)) → ℕ → Place → Script Owner (Unit {0})
  copy_by temp source uid place = do
    settle
    settle
    given ← gets source
    bytes ← lift given
    change h (write_temp temp bytes)
    settle
    change h (replace_temp uid temp place)
    settle

  unfoldable pub clean_previous : Script Owner (Unit {0})
  clean_previous = do for_each (λ name. change h (unlink_backup name)) names; change h rmdir_backup

  module _ (fresh : Owner → String) where
    unfoldable pub atomic_copy : (Owner → Result (List ℕ)) → ℕ → Place → Script Owner (Unit {0})
    atomic_copy source uid place = do
      temp ← gets fresh
      change h (make_temp temp)
      try_finally (copy_by temp source uid place) (clean_temp temp)

    unfoldable pub save_one : ℕ → String → Script Owner (Unit {0})
    save_one uid name = atomic_copy (read_live name) uid (to_backup name)

    unfoldable pub install_one : ℕ → String → List ℕ → Script Owner (Unit {0})
    install_one uid name bytes = do
      change h (write_staged name bytes)
      settle
      atomic_copy (read_staged name) uid (to_live name)

    unfoldable pub owner_files : List ℕ → List ℕ → ℕ → Script Owner (Unit {0})
    owner_files cert key uid = do
      r ← gets (λ s. check_owner_root uid s.root)
      lift r
      for_each (check_private uid) names
      change h make_backup
      settle
      save_one uid "owner.crt"
      save_one uid "owner.key"
      change h make_staged
      try_finally (install_one uid "owner.crt" cert >> install_one uid "owner.key" key)
          (change h drop_staged)

    -- `root` is the directory's path. The sources are what reading the snapshots gives.
    unfoldable pub owner_install :
        Result (List ℕ) → Result (List ℕ) → String → ℕ → Bool → Script Owner (Unit {0})
    owner_install cert key root uid active = do
      cert_bytes ← lift cert
      key_bytes ← lift key
      when active (command h ("systemctl" ∷ "stop" ∷ "aura-server.service" ∷ []))
      as_owner (owner_files cert_bytes key_bytes uid)
      command h (
          "runuser" ∷ "-u" ∷ "aura-server" ∷ "--" ∷ "/opt/aura-server/current/bin/aura-server"
          ∷ "check" ∷ root ∷ [])
      when active do
        command h ("systemctl" ∷ "start" ∷ "aura-server.service" ∷ [])
        command h ("systemctl" ∷ "is-active" ∷ "--quiet" ∷ "aura-server.service" ∷ [])
      as_owner clean_previous
