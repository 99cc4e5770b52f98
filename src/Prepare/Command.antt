-- ===== src/Prepare/Command.antt =====
-- The command of prepare.py on every way that it can end.
use aura_server.Base.{ℕ, ◌≡◌, ◌≤◌, String, Option, some, List, [], length, Error, Result, ok, err}
use aura_server.Base.Dict.{Dict}
use aura_server.Json.{Value, object, Fields, to_dict}
use aura_server.Script.{World, Machine, pure, continue, recover, ◌>>=◌}
use aura_server.Prepare.Render.{Library, render}
use aura_server.Prepare.Write.{Place, write, Exit, printed, exited, report}
use aura_server.Prepare.Parts.{Files, IsPartial}
use aura_server.Prepare.Written.{IsComplete}
use aura_server.Prepare.Exits.{Caught}

abbrev success : Exit
success = printed "Operator inputs prepared; no services or authorization state changed"

abbrev failure : Exit
failure =
    exited
      "Preparation failed: check schema, owned DNS/public IPs and a new private output directory"

-- The file read is within its budget and holds the configuration.
pub record IsRead (loads : List ℕ → Option Value) (source : Result (List ℕ)) (config : Dict Value)
    : Type 0 where
  pub raw : List ℕ
  pub there : source ≡ ok raw
  pub small : length raw ≤ 4096
  pub fields : Fields
  pub holds : loads raw ≡ some (object fields)
  pub same : to_dict fields ≡ config

module _ (h : Machine) (mode : ℕ) (L : Library) (loads : List ℕ → Option Value)
    (source : Result (List ℕ)) (before : Place) where
  -- With its line of success, and all the files of the configuration that was read; or with its line of
  -- failure, and no more than parts of them, or nothing where there is no such configuration or
  -- `render` refuses it.
  pub data Ended (run : Result Exit × World Place) : Type 0 where
    good :
        (config : Dict Value) (files : Files)
        → run.0 ≡ ok success
        → IsRead loads source config
        → render L config ≡ ok files
        → IsComplete before files run.1.now
        → Ended run
    partial :
        (config : Dict Value) (files : Files)
        → run.0 ≡ ok failure
        → IsRead loads source config
        → render L config ≡ ok files
        → IsPartial before files run.1.now
        → Ended run
    unread :
        run.0 ≡ ok failure
        → run.1.now ≡ before
        → ((config : Dict Value) → ¬ IsRead loads source config)
        → Ended run
    rejected :
        (config : Dict Value) (e : Error)
        → run.0 ≡ ok failure
        → run.1.now ≡ before
        → IsRead loads source config
        → render L config ≡ err e
        → Ended run

  -- The end of a run from what `write` gives.
  after_write : (files : Files) → Result (Unit {0}) × World Place → Result Exit × World Place
  after_write files (r, w) =
      recover report (continue (λ _. pure success) r w).0 (continue (λ _. pure success) r w).1

  start : List (List String) → World Place
  start commands = record { now = before; past = []; commands = commands }

  -- The run on a configuration that was read.
  write_config : Dict Value → World Place → Result Exit × World Place
  write_config config w =
      recover report ((write h mode L config >>= λ _. pure success) w).0
        ((write h mode L config >>= λ _. pure success) w).1
