-- ===== src/Deploy/Publish.antt =====
-- `point` and `publish` of ip_deploy.py.
pub mod Point
pub mod Build
pub mod Retire
pub mod Live
pub mod GoLive
pub mod Atomic
pub mod Steps
pub mod Removal
pub mod Returns
pub mod Rooted
pub mod Runs
use aura_server.Base.{
  ℕ, String, ◌<>◌, Bool, true, false, not, ◌&&◌, ◌||◌, Option, none, some, List, [], ◌∷◌, ◌==◌,
  string_eq, list_eq, contains, if◌then◌else◌, all, take, codes, nat_eq, Error, Result, ok, err,
  raise_if, value_error,
}
use aura_server.Base.Dict.{Dict, keys, lookup}
use aura_server.Script.{
  Machine, Script, pure, throw, lift, gets, ◌>>=◌, ◌>>◌, try_except, for_each, when, change,
  command,
}
use aura_server.Deploy.Site.{
  Site, Item, folder, link, other, make_root, check_root, unlink, symlink, replace, make_folder,
  in_folder, create_file, write_file, unlink_file, rmdir, find_previous,
}

abbrev pub services : List String
services = "aura-derp.service" ∷ "aura-rendezvous.service" ∷ []

abbrev pub is_present : String → Site → Bool
is_present name s = elim (lookup name s.items) [ none ↦ false | some _ ↦ true ]

abbrev pub is_outdated_at : String → Option String → String → Option Item → Bool
is_outdated_at generation previous old none = false
is_outdated_at generation previous old (some (folder files)) =
    not (old == generation || (elim previous [ none ↦ false | some p ↦ old == p ]))
    && all (contains (keys files)) ("fullchain.pem" ∷ "privkey.pem" ∷ [])
    && all (contains ("fullchain.pem" ∷ "privkey.pem" ∷ [])) (keys files)
is_outdated_at generation previous old (some (link _)) = false
is_outdated_at generation previous old (some other) = false

-- A complete pair that is neither the new generation nor the previous one.
unfoldable pub is_outdated : String → Option String → String → Site → Bool
is_outdated generation previous old s = is_outdated_at generation previous old (lookup old s.items)

-- `root.glob("pair-*")`
abbrev pub pairs : List String → List String
pairs [] = []
pairs (name ∷ names) =
    let rest = pairs names in if take 5 (codes name) == codes "pair-" then name ∷ rest else rest

module _ (h : Machine) where
  -- `sync_directory`, and `os.fchmod` and `os.fsync` of a file: nothing that is modelled changes, but the
  -- call may fail.
  unfoldable pub sync : Script Site (Unit {0})
  sync = change h ok

  unfoldable pub point : String → Script Site (Unit {0})
  point name = do
    stale ← gets (is_present ".current-next")
    when stale (change h (unlink ".current-next"))
    change h (symlink ".current-next" name)
    change h (replace ".current-next" "current")
    sync

  -- One of the two files of a new generation. `source` is what opening the snapshot gives.
  unfoldable pub copy_into : String → String → Result (List ℕ) → Script Site (Unit {0})
  copy_into generation name source = do
    bytes ← lift source
    change h (in_folder generation (create_file name))
    sync
    change h (in_folder generation (write_file name bytes))
    sync

  unfoldable pub restart_one : String → Script Site (Unit {0})
  restart_one service = do
    command h ("systemctl" ∷ "restart" ∷ service ∷ [])
    command h ("systemctl" ∷ "is-active" ∷ "--quiet" ∷ service ∷ [])

  -- A command whose failure is passed over.
  unfoldable pub attempt : String → String → Script Site (Unit {0})
  attempt verb service = try_except (command h ("systemctl" ∷ verb ∷ service ∷ [])) (λ _. pure tt)

  -- The handler of a failed restart.
  unfoldable pub roll_back : Option String → List String → Error → Script Site (Unit {0})
  roll_back (some previous) active e = do
    point previous
    for_each (attempt "restart") active
    throw e
  roll_back none active e = do
    change h (unlink "current")
    sync
    for_each (attempt "stop") active
    throw e

  unfoldable pub retire : String → Option String → String → Script Site (Unit {0})
  retire generation previous old = do
    outdated ← gets (is_outdated generation previous old)
    when outdated do
      change h (in_folder old (unlink_file "fullchain.pem"))
      change h (in_folder old (unlink_file "privkey.pem"))
      change h (rmdir old)

  -- The last steps: the link, the services, and the older generations.
  unfoldable pub go_live : String → Option String → List String → Script Site (Unit {0})
  go_live generation previous active = do
    point generation
    try_except (for_each restart_one active) (roll_back previous active)
    olds ← gets (λ s. pairs (keys s.items))
    for_each (retire generation previous) olds

  -- `suffix` is what `mkdtemp` chooses to write behind `pair-`.
  unfoldable pub publish :
      ℕ → (Site → String) → Result (List ℕ) → Result (List ℕ) → List String → Script Site (Unit {0})
  publish euid suffix cert key active = do
    lift (raise_if (not (all (contains services) active)) (value_error "Invalid service"))
    change h (make_root euid)
    safe ← gets (check_root euid)
    lift safe
    found ← gets find_previous
    previous ← lift found
    generation ← gets (λ s. "pair-" <> suffix s)
    change h (make_folder generation)
    copy_into generation "fullchain.pem" cert
    copy_into generation "privkey.pem" key
    sync
    go_live generation previous active
