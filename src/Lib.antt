-- ===== src/Lib.antt =====
-- Verification of the Aura Server delivery tools: release.py and the scripts under infrastructure/.
--
-- Parts.
--   Base      text, lists, dicts and exceptions as the scripts use them. An exception is a value of
--             `Error`; a function that may raise returns a `Result`. The texts of an `os_error` name
--             the class of the exception, no message.
--   Json      the values of `json.loads`, Python's `==` on them, and `read_json` of release.py.
--   Release   release.py. `Release/Member` has `member_name`; `Release/Bundle` has `lock` and
--             `verify_bundle`; `Release/Archive` has `RegularTarInfo` and the parts
--             of `unpack`, which is in `Release/Archive/Install`; `Release/Tree` and
--             `Release/Disk` have the directories that these read and write, `Release/Disk/Effect` the
--             calls one after the other, and `Release/Disk/Extended` what they leave where one fails.
--             `Release/Redirect` has `ReleaseRedirect` and the opener; `Release/Fetch` has the parts
--             of `fetch`, which is in `Release/Fetch/Save`;
--             `Release/Pack` has `pack`; `Release/Command` has `main`.
--   Script    scripts that change files and run commands, step by step, with rules for what every
--             state on the way is like (`Rules`, `Finally`), for the commands run (`Commands`), for
--             runs in which nothing is refused (`Total`), and for runs one after the other, with
--             crashes in between (`Runs`).
--   Deploy    infrastructure/ip_deploy.py. `Deploy/Site` has the publication directory and the system
--             calls, `Deploy/Publish` has `point` and `publish`; the files below it follow `publish`
--             from the new generation (`Build`) by way of the link (`Point`, `Live`, `GoLive`) to the
--             removal of older ones (`Retire`), and `Atomic` is about the whole. `Steps`, `Removal` and
--             `Returns` follow a run in which nothing is refused; `Rooted` and `Runs` are about
--             renewals one after the other. `Deploy/Configuration`
--             has `configuration` and the tests of `main`, `Deploy/Command` has `main`, and
--             `Deploy/Validated` and `Deploy/Returns` are about it.
--   Address   `public_ip` of infrastructure/renew.py, and the private IPv4 networks.
--   Renew     infrastructure/renew.py. `Renew/State` has the owner's directory and the calls on it,
--             `Renew/Install` has `atomic_copy`, `owner_files` and `owner_install`; the files below it follow
--             the pair of files (`Copy`, `Pairs`, `Steps`, `Recover`, `Safe`) and the commands (`Order`),
--             a run in which nothing is refused (`Total`, `Returns`), and renewals one after the other
--             (`Blocked`, `Runs`).
--             `Renew/Validate` has `validate_pair` and the tests that the commands of infrastructure/
--             share, with what its callers may rely on (`Then`, `Total`); `Renew/Command` has `main`,
--             and `Renew/Command/Prepared` is about the configurations that prepare.py writes for it.
--   Refresh   infrastructure/owner_ip_refresh.py: `check_host`, `refresh` and `main`.
--   Prepare   infrastructure/prepare.py. `Prepare` has `hostname`, `Prepare/Render` has `unit` and
--             `render`, `Prepare/Write` has `write` and the command.
--   SelfHosted  infrastructure/self_hosted.py. `SelfHosted` has the tests of `render`,
--             `SelfHosted/Render` the files, `SelfHosted/Write` has `main`, and `SelfHosted/Taken`
--             is about the configuration that it writes for ip_deploy.py.
--   Probe     infrastructure/reachability_probe.py: `probe` over a schedule of delays and events, and
--             `main`.
--   Firewall  `render` of infrastructure/owner_guard.py, infrastructure/local_endpoints.py and
--             infrastructure/host_guard.py.
--   Watch     infrastructure/wan_watch.py. `Watch/Table` has `Rows`, `Watch/Address` has
--             `observed_ipv4`, `Watch/Observe` has `observe`, `Watch/Enforce` has `enforce`,
--             `Watch/Command` has `main`.
--
-- State. A directory (`Tree`) lists what lies below it by relative path. A disk (`Disk`) lists the
-- places that a command names by absolute path; a directory's entry holds what lies below it, except
-- for what has an entry of its own, and links in the middle of a path are taken to be resolved. A
-- command takes the disk and returns its result with the disk that it leaves, on errors too: it is a
-- sequence of calls, and what the calls before an exception did stays done. What other processes do is
-- an argument (`Others`): they act once during a download, and in `unpack` once between the two
-- readings of the archive and once before the last look at the destination; they leave the temporary
-- directory where it was made or not; and the system may refuse to make any directory.
--
-- What comes from outside the source is an argument too: SHA-256 and the text format of JSON
-- (`Platform`), the decoding of a gzip-compressed tar file into headers and bytes (`open_tar`) and the
-- encoding (`Tar`).
-- So are `urlsplit`, the servers' answers and the clock (`Network`), `ipaddress` (`Address`,
-- `Ipv4`), the events of `HTMLParser`, and what the operating system refuses and whether a command
-- succeeds (`Machine`).
-- Regular expressions, `PurePosixPath`, `dict` and `set` are written out. Loops are recursions on the
-- list or the stream that they go through, so none needs fuel, except for these: `open_url`
-- follows redirects for at most four requests, which the handler's count of three bounds too;
-- `leads_to_folder` follows forty links, as the system does; a connection of the probe is read at
-- most 33 times, since each read but the last brings a byte and 32 are enough; and the probe's loop
-- has a round for each millisecond of its time, enough where the clock advances by one at least
-- from one round to the next.
--
-- A change of files by a script of infrastructure/ is one step that is made whole or refused, where a
-- refusal says nothing of the calls after it, a clean-up among them; and a
-- crash leaves the files as they are at such a step; that a step is on disk, and not only in the
-- system's memory, is taken to be so.
--
-- Not modelled: infrastructure/smoke_systemd.py, a test by hand on a real host; the
-- systemd units in `UNIT`, `TIMER` and `DEPENDENCY`; the parsing of command lines; what other processes do while a
-- lock is held; time limits of commands, a `systemctl is-active` that takes too long included;
-- umasks and the modes of directories; what is refused within the temporary directory beside a
-- destination, which would end the command with an error (the directory is gone in every case); what
-- other processes do between the last look at a destination and the rename, or between the test of
-- an archive's size and its digest; and hardware faults. A text that is no JSON and repeats a key before the fault
-- counts as no JSON. A device or a pipe among the files of a release is an error where it is read.
pub mod Address
pub mod Base
pub mod Deploy
pub mod Firewall
pub mod Json
pub mod Prepare
pub mod Probe
pub mod Refresh
pub mod Release
pub mod Renew
pub mod Script
pub mod SelfHosted
pub mod Watch
