-- ===== src/SelfHosted/Write.antt =====
-- `main` of self_hosted.py.
use aura_server.Base.{ℕ, String, List, Option, if◌then◌else◌, Error, key_error, Result}
use aura_server.Json.{Value}
use aura_server.Script.{
  Machine, Script, pure, throw, lift, ◌>>=◌, ◌>>◌, try_except, for_each, change,
}
use aura_server.Prepare.Render.{Library}
use aura_server.Prepare.Write.{
  Place, make_root, below, create, put, is_caught, Exit, printed, exited,
}
use aura_server.SelfHosted.Render.{prepared}

-- One round of the loop. `mode` is what the umask leaves of a new file's mode; the last step is the
-- `chmod`.
unfoldable pub write_home_file : Machine → ℕ → String × String → Script Place (Unit {0})
write_home_file h mode (name, content) = do
  change h (below (create mode name))
  change h (below (put mode name content))
  change h (below (put 0o600 name content))

unfoldable pub write_home : Machine → ℕ → List (String × String) → Script Place Exit
write_home h mode files = do
  change h make_root
  for_each (write_home_file h mode) files
  pure (printed "Self-hosted inputs prepared; no services, ports or trust state changed")

-- The handler, which catches `KeyError` too.
abbrev pub report_home : Error → Script Place Exit
report_home key_error =
    pure
      (exited "Preparation failed: review explicit public/LAN addresses and a new output directory")
report_home e =
    if is_caught e
    then pure (
        exited
          "Preparation failed: review explicit public/LAN addresses and a new output directory")
    else throw e

unfoldable pub main :
    Machine
    → ℕ
    → Library
    → (List ℕ → String)
    → (List ℕ → Option Value)
    → Result (List ℕ)
    → Script Place Exit
main h mode L text loads source =
    try_except (lift (prepared L text loads source) >>= write_home h mode) report_home
