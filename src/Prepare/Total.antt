-- ===== src/Prepare/Total.antt =====
-- prepare.py where nothing is refused.
use aura_server.Base.{
  ◌≡◌, refl, ℕ, true, false, some, List, [], ◌∷◌, ok, ltb, length, arith, ◌≤◌, Option, string_eq,
}
use aura_server.Base.Dict.{Dict, lookup, insert}
use aura_server.Json.{Value, Fields, object, to_dict}
use aura_server.Release.Disk.Parents.{above, mkdirs}
use aura_server.Script.Total.{Ends-ok}
use aura_server.Script.{World, Machine, pure, lift, ◌>>=◌, try_except, for_each, change}
use aura_server.Prepare.Render.{Library, Plan, role_files, plan_files, render}
use aura_server.Prepare.Planned.{render-eq-ok}
use aura_server.Prepare.Write.{
  Place, free, made, write_file, write, printed, read_config, prepare_all, main,
}
use aura_server.Prepare.Written.{write-IsWritten, IsComplete}
use aura_server.Prepare.Parts.{Files}

-- A machine that refuses no change.
abbrev pub willing : Machine
willing = record { refuses = λ _. false; succeeds = λ _ _. true }

abbrev pub fresh : World Place
fresh = record { now = free; past = []; commands = [] }

plan_written :
    (mode : ℕ) (L : Library) (p : Plan)
    → (for_each
        (write_file willing mode)
        (plan_files L p)
        (record { now = made []; past = free ∷ []; commands = [] })).0
      ≡ ok tt
unfolding plan_files role_files for_each write_file change ◌>>=◌ pure mkdirs above lookup insert
plan_written mode L p = refl

write_total :
    (mode : ℕ) (L : Library) (config : Dict Value) {files : Files}
    → render L config ≡ ok files
    → (write willing mode L config fresh).0 ≡ ok tt
unfolding write lift change ◌>>=◌
write_total mode L config {files} given =
    let (p, _, _, same) = (render-eq-ok L config files).0 given in
    rw (given, ← same) (plan_written mode L p)

read_config-object :
    (loads : List ℕ → Option Value) (raw : List ℕ) {fs : Fields}
    → loads raw ≡ some (object fs)
    → read_config loads raw ≡ ok (to_dict fs)
unfolding read_config
read_config-object loads raw e = rw e

-- Where the system refuses nothing, the destination is free, and the configuration has at most 4096 bytes and is
-- an object that `render` accepts, the command ends with its line of success, and leaves all the files in
-- the new directory and no other.
pub main_total :
    (mode : ℕ) (L : Library) (loads : List ℕ → Option Value) (raw : List ℕ) {fs : Fields}
    {files : Files}
    → length raw ≤ 4096
    → loads raw ≡ some (object fs)
    → render L (to_dict fs) ≡ ok files
    → let run = main willing mode L loads (ok raw) fresh in
      (run.0 ≡ ok (printed "Operator inputs prepared; no services or authorization state changed"))
      × IsComplete free files run.1.now
unfolding main prepare_all try_except pure lift ◌>>=◌ lookup
main_total mode L loads raw {fs} {files} small parsed given =
    let fits : ltb 4096 (length raw) ≡ false = ground (arith, small) in
    let done = write_total mode L (to_dict fs) given in
    let (_, complete) = write-IsWritten willing mode L (to_dict fs) free [] given in
    let config = read_config-object loads raw parsed in
    rw (fits, lift, config, lift, done)
      (refl, Ends-ok _ _ (write willing mode L (to_dict fs) fresh) tt done complete)
