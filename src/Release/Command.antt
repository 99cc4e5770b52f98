-- ===== src/Release/Command.antt =====
-- `main` of release.py, once the arguments are parsed.
use aura_server.Base.{
  ℕ, ◌≡◌, refl, sym, ap, ◌⊎◌, inl, inr, ◌≢◌, String, ◌<>◌, Bool, true, false, not, Bool-cases,
  Option, none, some, List, ◌==◌, string_eq, Error, invalid_release, value_error, os_error,
  tar_error, type_error, key_error, attribute_error, process_error, Result, ok, err, if◌then◌else◌,
}
use text.Mathlib.TextEquality.{eq_iff}
use aura_server.Release.Tree.{Tree, Platform}
use aura_server.Release.Disk.{Disk}
use aura_server.Release.Archive.{Stream}
use aura_server.Release.Archive.Install.{unpack}
use aura_server.Release.Disk.Effect.{Outcome, Others}
use aura_server.Release.Pack.{Tar, pack}
use aura_server.Release.Fetch.{Network}
use aura_server.Release.Fetch.Save.{fetch}

-- The three commands with their arguments.
pub data Command : Type 0 where
  pack_command : Tree → String → String → String → Command
  verify_command : String → String → String → String → String → Command
  fetch_command : String → String → String → Bool → Command

-- A line on standard output, a line on standard error with exit status 1, or an exception that
-- `main` does not catch.
pub data Exit : Type 0 where
  printed rejected : String → Exit
  raised : Error → Exit

-- The handler. A `TarError` is named by its class.
abbrev pub on_error : Error → Exit
on_error (invalid_release message) = rejected ("Release rejected: " <> message)
on_error (value_error message) = rejected "Release rejected: ValueError"
on_error (os_error name) = rejected ("Release rejected: " <> name)
on_error tar_error = rejected "Release rejected: TarError"
on_error type_error = raised type_error
on_error key_error = raised key_error
on_error attribute_error = raised attribute_error
on_error process_error = raised process_error

abbrev pub report : {A : Type 0} → (A → String) → Result A → Exit
report line (ok a) = printed (line a)
report line (err e) = on_error e

-- The architecture for `platform.machine()`
abbrev pub host_arch : String → Option String
host_arch machine =
    if machine == "x86_64"
    then some "amd64"
    else if machine == "AMD64"
    then some "amd64"
    else if machine == "aarch64"
    then some "arm64"
    else if machine == "ARM64"
    then some "arm64"
    else none

abbrev pub is_host : String → Option String → Bool
is_host arch none = false
is_host arch (some actual) = arch == actual

-- What the program runs on and with.
pub record Host : Type 0 where
  pub platform : Platform
  pub tar : Tar
  pub open_tar : List ℕ → Stream
  pub network : Network
  pub others : Others
  pub machine : String

abbrev pub closed : {A : Type 0} → (A → String) → Outcome A → Exit × Disk
closed line o = (report line o.result, o.disk)

unfoldable pub main : Host → Command → Disk → Exit × Disk
main host (pack_command bundle output version arch) d =
    closed (λ digest. digest) (pack host.platform host.tar bundle output version arch d)
main host (verify_command archive destination sha256 version arch) d =
    if not (is_host arch (host_arch host.machine))
    then (rejected "Release rejected: Selected artifact is not for this host", d)
    else closed (λ _. "Release verified; no service or downloaded program was executed")
        (unpack host.platform host.open_tar host.others archive destination sha256 version arch d)
main host (fetch_command url output sha256 controlled_http) d =
    closed (λ _. "Release downloaded and checksum verified")
      (fetch host.network host.others url output sha256 controlled_http d)

report_printed : (e : Error) (line : String) → on_error e ≢ printed line
report_printed (invalid_release m) line h = absurd (cc h)
report_printed (value_error m) line h = absurd (cc h)
report_printed (os_error m) line h = absurd (cc h)
report_printed tar_error line h = absurd (cc h)
report_printed type_error line h = absurd (cc h)
report_printed key_error line h = absurd (cc h)
report_printed attribute_error line h = absurd (cc h)
report_printed process_error line h = absurd (cc h)

is_host-some : (arch : String) (o : Option String) → is_host arch o ≡ true → o ≡ some arch
is_host-some arch none h = absurd (cc h)
is_host-some arch (some actual) h = ap some (sym ((eq_iff arch actual).0 h))

report-ok :
    (r : Result (Unit {0})) (line line' : String) → report (λ _. line) r ≡ printed line' → r ≡ ok tt
report-ok (ok a) line line' h = refl
report-ok (err e) line line' h = absurd (report_printed e line' h)

-- The verify command: where the machine is not of the architecture that was asked for, it is
-- rejected and the disk is as before; otherwise the disk is as `unpack` leaves it, and the line of
-- success is printed only if `unpack` succeeded.
main_verify :
    (host : Host) (archive destination sha256 version arch : String) (d : Disk)
    → let run = main host (verify_command archive destination sha256 version arch) d in
      let unpacked =
        unpack host.platform host.open_tar host.others archive destination sha256 version arch d in
      ((host_arch host.machine ≢ some arch)
        × (run ≡ (rejected "Release rejected: Selected artifact is not for this host", d)))
      ⊎ ((host_arch host.machine ≡ some arch)
          × (run.1 ≡ unpacked.disk)
          × ((line : String) → run.0 ≡ printed line → unpacked.result ≡ ok tt))
unfolding main
main_verify host archive destination sha256 version arch d =
    elim (Bool-cases (is_host arch (host_arch host.machine))) [
      | inr e ↦
          inl (λ n. absurd (cc (e, ap (is_host arch) n, (eq_iff arch arch).1 refl)), rw e refl)
      | inl e ↦ inr (
        is_host-some arch (host_arch host.machine) e,
        rw e refl,
        rw e (λ line h. report-ok _ _ line h),
      )
    ]
