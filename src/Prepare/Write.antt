-- ===== src/Prepare/Write.antt =====
-- `write` of prepare.py and its command.
use aura_server.Base.{
  ℕ, String, Bool, true, false, Option, none, some, List, [], length, ltb, if◌then◌else◌, Error,
  invalid_release, value_error, os_error, type_error, Result, ok, err, raise_if,
}
use aura_server.Base.Dict.{Dict, lookup, insert}
use aura_server.Json.{Value, object, to_dict}
use aura_server.Release.Disk.Parents.{parents, mkdirs}
use aura_server.Script.{
  Machine, Script, pure, throw, lift, ◌>>=◌, ◌>>◌, try_except, for_each, change,
}
use aura_server.Prepare.Render.{Library, render}

pub data Item : Type 0 where
  folder : Item
  file : ℕ → String → Item

-- What stands at the destination: nothing, something that was there, or the directory that is made,
-- with what lies below it.
pub data Place : Type 0 where
  free taken : Place
  made : Dict Item → Place

abbrev pub is_folder : Item → Bool
is_folder folder = true
is_folder (file _ _) = false

-- `destination.mkdir(mode=0o700, parents=False, exist_ok=False)`
abbrev pub make_root : Place → Result Place
make_root free = ok (made [])
make_root _ = err (os_error "FileExistsError")

abbrev pub made_of : Result (Dict Item) → Result Place
made_of (ok t) = ok (made t)
made_of (err e) = err e

abbrev pub below : (Dict Item → Result (Dict Item)) → Place → Result Place
below f (made t) = made_of (f t)
below f _ = err (os_error "FileNotFoundError")

-- `p.parent.mkdir(mode=0o700, parents=True, exist_ok=True)`
abbrev pub make_parent : String → Dict Item → Result (Dict Item)
make_parent name t = mkdirs is_folder folder (parents name) t

-- `p.open("x")`
abbrev pub create_by : ℕ → String → Dict Item → Option Item → Result (Dict Item)
create_by mode name t none = ok (insert name (file mode "") t)
create_by mode name t (some _) = err (os_error "FileExistsError")

abbrev pub create : ℕ → String → Dict Item → Result (Dict Item)
create mode name t = create_by mode name t (lookup name t)

abbrev pub put : ℕ → String → String → Dict Item → Result (Dict Item)
put mode name content t = ok (insert name (file mode content) t)

-- One round of the loop. `mode` is what the umask leaves of a new file's mode; the last step is the
-- `chmod`.
unfoldable pub write_file : Machine → ℕ → String × String → Script Place (Unit {0})
write_file h mode (name, content) = do
  change h (below (make_parent name))
  change h (below (create mode name))
  change h (below (put mode name content))
  change h (below (put 0o600 name content))

unfoldable pub write : Machine → ℕ → Library → Dict Value → Script Place (Unit {0})
write h mode L config = do
  files ← lift (render L config)
  change h make_root
  for_each (write_file h mode) files

-- The errors that the command turns into one line.
abbrev pub is_caught : Error → Bool
is_caught (value_error _) = true
is_caught (invalid_release _) = true
is_caught (os_error _) = true
is_caught type_error = true
is_caught _ = false

-- How the command ends: with a line on its output, or with `SystemExit` and a line.
pub data Exit : Type 0 where
  printed exited : String → Exit

-- A configuration that is no object is refused; which of two errors it gives is not told apart outside.
abbrev pub config_of : Value → Result (Dict Value)
config_of (object fs) = ok (to_dict fs)
config_of _ = err type_error

abbrev pub loaded : Option Value → Result (Dict Value)
loaded none = err (value_error "")
loaded (some value) = config_of value

-- `json.loads`, nothing where it raises `ValueError`
unfoldable pub read_config : (List ℕ → Option Value) → List ℕ → Result (Dict Value)
read_config loads raw = loaded (loads raw)

unfoldable pub prepare_all :
    Machine → ℕ → Library → (List ℕ → Option Value) → Result (List ℕ) → Script Place Exit
prepare_all h mode L loads source = do
  raw ← lift source
  lift (raise_if (ltb 4096 (length raw)) (value_error "Configuration exceeds its budget"))
  config ← lift (read_config loads raw)
  write h mode L config
  pure (printed "Operator inputs prepared; no services or authorization state changed")

abbrev pub report : Error → Script Place Exit
report e =
    if is_caught e
    then pure (
        exited
          "Preparation failed: check schema, owned DNS/public IPs and a new private output directory")
    else throw e

unfoldable pub main :
    Machine → ℕ → Library → (List ℕ → Option Value) → Result (List ℕ) → Script Place Exit
main h mode L loads source = try_except (prepare_all h mode L loads source) report
