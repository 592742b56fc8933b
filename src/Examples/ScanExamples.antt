-- ===== src/Examples/ScanExamples.antt =====
-- Runs of core/src/scan.
use wardsweep.Base.{
  head_or, Option, List, ◌≡◌, ◌↔◌, refl, true, false, none, some, [], ◌∷◌, map, any, All, ok, ◌++◌,
  if◌then◌else◌,
}
use wardsweep.Text.Chars.{Text, to_upper, char_len}
use wardsweep.Text.{codes, eq_ignore_case, text_eq, ends_with, find, ascii_upper}
use wardsweep.Catalog.Schema.{AntiCheat, Catalog, critical}
use wardsweep.Catalog.Expand.{
  extend_one, extend, is_known, expand_pieces, expand_with, known_variables,
}
use wardsweep.Catalog.Gate.{exceptions_for}
use wardsweep.Scan.Model
use wardsweep.Scan.Model.{
  Classification, confirmed, probable, suspicious, RegView, bits64, Evidence, signed, in_view,
  directory_exists, not_signed,
}
use wardsweep.Scan.View.{unreadable, found, absent, file, directory, verified, MachineView}
use wardsweep.Scan.Judge.{
  is_ours, judge, is_redirected, views, Pending, is_confirmed, is_suspicious, classify, settle_one,
  settle,
}
use wardsweep.Scan.Judge.Sound.{
  IsAttestation, IsPublisher, judge-confirmed_iff, settle-confirmed_iff, settle-distrusted,
}
use wardsweep.Scan.Targets.{
  refusal, key_refused, path_refused, read_key, key_unless, registry_key, is_signable, describe,
  pending_path, refused_at, path_unless, path_at, each_path, expanded_paths, path, run_keys,
  run_paths, run_targets,
}
use wardsweep.Scan.Environment.{Environment, empty, insert, get, with_values, lookup, system_root}
use wardsweep.Scan.Environment.Lookup.{lookup-with_values}
use wardsweep.Scan.State.{
  State, report_unreadable, report_protected, report_disbelieved, push, fold,
}
use wardsweep.Scan.Image.{
  executable_end, slice_to, slice_from, cut_at, unquoted, without_arguments, kernel_spelling,
  percent_spelling, system_root_spelling, expand_image, image_of, image_file, file_name,
}
use wardsweep.Scan.Image.Total.{image_file-Returns}
use wardsweep.Scan.Registered.{
  judged_image, imaged, with_image, unlisted_service, service_status, service, is_image_of,
  registering, unregistered_driver, is_present, registered_pending, registered_driver,
  drivers_image, driver_among, driver,
}
use wardsweep.Scan.View.{ServiceKey}
use wardsweep.Scan.Model.{
  Evidence, Finding, Report, past_scm, image_said, registered_by, own_image_said,
  publisher_confirmed, stale_record, not_on_disk,
}
use wardsweep.Scan.Audit
use wardsweep.Scan.Audit.{
  settled, audit_entry, of_environment, of_key, unreadable_keys, driver_keys, first_report, audit,
}
use wardsweep.Scan.Audit.Grounded.{FindingIsGrounded, audit-AllGrounded}
use wardsweep.Scan.Audit.Complete.{KeysAreRead, EntryIsRead, audit-IsRead}
use wardsweep.Scan.Grounded.{IsSafe}
use wardsweep.Scan.Targets.Safe.{run_targets-IsSafe}
use wardsweep.Examples.Running.{Run, run, denylist}
use wardsweep.Examples.CatalogExamples.{vanguard, catalog}

abbrev riot_inc : Text
riot_inc = codes "Riot Games, Inc."

abbrev entry : AntiCheat
entry = record vanguard { authenticode_cn = riot_inc ∷ [] }

abbrev driver_path : Text
driver_path = codes "C:\\Windows\\System32\\drivers\\vgk.sys"

abbrev folder_path : Text
folder_path = codes "C:\\Program Files\\Riot Vanguard"

abbrev driver_key : ServiceKey
driver_key = record {
  name = codes "vgk";
  image = codes "\\SystemRoot\\System32\\drivers\\vgk.sys";
  service_type = 1;
}

-- A folder, a signed driver file that `vgk` registers, and the service's key. The control manager lists
-- `vgc`, stale, and not `vgk`.
abbrev machine : MachineView
machine = record {
  service = λ name.
      unfold text_eq in
      if text_eq name (codes "vgc")
      then found (record { image = codes "C:\\vgc.exe"; stale = true })
      else absent;
  service_key = λ name. found driver_key;
  driver_keys = found (record { drivers = driver_key ∷ []; unreadable = [] });
  registry_key = λ key view. found tt;
  path = λ path.
      unfold ends_with text_eq in
      if ends_with path (codes ".sys") then found file else found directory;
  signature = λ path. verified riot_inc;
}

abbrev environment : Environment
environment =
    unfold with_values insert empty ascii_upper to_upper text_eq in
    with_values (codes "SystemRoot") (codes "C:\\Windows" ∷ [])
      (with_values (codes "programfiles") (codes "C:\\Program Files" ∷ []) empty)

abbrev start : State
start = record { protected = []; disbelieved = []; unreadable = []; found = [] }

abbrev key_pending : Pending
key_pending = record {
  artifact = Model.registry_key (codes "HKLM\\SYSTEM\\CurrentControlSet\\Services\\vgk") bits64;
  evidence = in_view bits64 ∷ [];
  judged = none;
}

abbrev folder_pending : Pending
folder_pending = record {
  artifact = Model.path folder_path true;
  evidence = directory_exists ∷ [];
  judged = none;
}

abbrev driver_pending : Pending
driver_pending = record {
  artifact = Model.path driver_path false;
  evidence = signed riot_inc ∷ [];
  judged = some confirmed;
}

abbrev finish : State
finish = record start { found = key_pending ∷ folder_pending ∷ driver_pending ∷ [] }

unfoldable scans : Run
unfolding denylist find char_len executable_end slice_to slice_from cut_at unquoted
    without_arguments kernel_spelling percent_spelling system_root_spelling expand_image image_of
    image_file file_name empty insert get with_values lookup system_root judged_image imaged
    with_image unlisted_service service_status service is_image_of registering unregistered_driver
    is_present registered_pending registered_driver drivers_image driver_among driver
    report_disbelieved Audit.run settled audit_entry of_environment of_key unreadable_keys
    driver_keys first_report audit known_variables extend_one extend is_known expand_pieces
    expand_with exceptions_for is_ours judge is_redirected views is_confirmed is_suspicious classify
    settle_one settle report_unreadable report_protected push refusal key_refused path_refused
    read_key key_unless registry_key is_signable describe pending_path refused_at path_unless
    path_at fold each_path expanded_paths path run_keys run_paths run_targets
scans = run

runs : run_targets machine environment entry start ≡ ok finish
unfolding scans
runs = refl

run_targets-IsSafe_example : IsSafe machine environment entry finish
run_targets-IsSafe_example = run_targets-IsSafe machine environment entry start finish runs tt

judge-confirmed_iff_example : ((judge (verified riot_inc) entry).0 ≡ confirmed) ↔ (
    (signer : Text) × (verified riot_inc ≡ verified signer)
    × ¬ (IsAttestation signer)
    × IsPublisher entry signer)
judge-confirmed_iff_example = judge-confirmed_iff (verified riot_inc) entry

settle-confirmed_iff_example :
    (any
        (λ finding. is_confirmed (some finding.classification))
        (settle entry (key_pending ∷ folder_pending ∷ driver_pending ∷ []))
      ≡ true)
    ↔ (any
          (λ pending. is_confirmed pending.judged)
          (key_pending ∷ folder_pending ∷ driver_pending ∷ [])
        ≡ true)
settle-confirmed_iff_example =
    settle-confirmed_iff entry (key_pending ∷ folder_pending ∷ driver_pending ∷ [])

-- A file beside the signed one that carries no signature.
abbrev forged_pending : Pending
forged_pending = record driver_pending { evidence = not_signed ∷ []; judged = some suspicious }

forged_is_suspicious :
    any
      (λ pending. is_suspicious pending.judged)
      (folder_pending ∷ driver_pending ∷ forged_pending ∷ [])
    ≡ true
unfolding scans any
forged_is_suspicious = refl

settle-distrusted_example :
    map
      (λ finding. is_confirmed (some finding.classification))
      (settle entry (folder_pending ∷ driver_pending ∷ forged_pending ∷ []))
    ≡ map
        (λ pending. is_confirmed pending.judged)
        (folder_pending ∷ driver_pending ∷ forged_pending ∷ [])
settle-distrusted_example =
    settle-distrusted entry (folder_pending ∷ driver_pending ∷ forged_pending ∷ [])
      forged_is_suspicious

-- The expansion of a configured image, as the engine's own tests have it.
images :
    map
      (λ configured. image_file (codes configured) (codes "C:\\Windows"))
      ("\"C:\\Program Files\\a b.exe\" -k" ∷ "\\??\\C:\\x.sys" ∷ "system32\\DRIVERS\\a.sys"
        ∷ "C:\\a.exe /run" ∷ "" ∷ [])
    ≡ map some (
        map
          (λ image. some (codes image))
          ("C:\\Program Files\\a b.exe" ∷ "C:\\x.sys" ∷ "C:\\Windows\\system32\\DRIVERS\\a.sys"
            ∷ "C:\\a.exe" ∷ [])
        ++ (none ∷ []))
unfolding scans
images = refl

image_file-Returns_example :
    (image : Option Text) × (image_file driver_key.image (codes "C:\\Windows") ≡ some image)
image_file-Returns_example = image_file-Returns driver_key.image (codes "C:\\Windows")

abbrev moved : Environment
moved = with_values (codes "SYSTEMROOT") (codes "D:\\W" ∷ []) environment

lookup-with_values_example :
    (lookup moved (codes "systemroot") ≡ (
      if eq_ignore_case (codes "SYSTEMROOT") (codes "systemroot")
      then some (codes "D:\\W" ∷ [])
      else lookup environment (codes "systemroot")))
    × (system_root moved ≡ (
        if eq_ignore_case (codes "SYSTEMROOT") (codes "SystemRoot")
        then head_or (codes "C:\\Windows") (codes "D:\\W" ∷ [])
        else system_root environment))
    × (moved.unreadable ≡ environment.unreadable)
lookup-with_values_example =
    lookup-with_values (codes "SYSTEMROOT") (codes "systemroot") (codes "D:\\W" ∷ []) environment

abbrev audited : Catalog
audited = record catalog { anticheat = entry ∷ [] }

abbrev confirmed_finding : Model.Artifact → List Evidence → Finding
confirmed_finding artifact evidence = record {
  anticheat = codes "riot-vanguard";
  risk = critical;
  artifact = artifact;
  classification = confirmed;
  evidence = evidence;
}

abbrev report : Report
report = record {
  v = 1;
  findings =
      confirmed_finding (Model.service (codes "vgk") (some driver_key.image) true)
        (past_scm ∷ image_said driver_path (signed riot_inc) ∷ [])
      ∷ confirmed_finding (Model.driver (codes "vgk.sys") (some (codes "vgk")) driver_path true)
          (registered_by (codes "vgk") ∷ own_image_said (signed riot_inc) ∷ [])
      ∷ confirmed_finding key_pending.artifact (in_view bits64 ∷ publisher_confirmed ∷ [])
      ∷ confirmed_finding folder_pending.artifact (directory_exists ∷ publisher_confirmed ∷ [])
      ∷ confirmed_finding driver_pending.artifact (signed riot_inc ∷ [])
      ∷ [];
  protected = [];
  disbelieved =
      (record { anticheat = codes "riot-vanguard"; item = codes "vgc"; reason = stale_record })
      ∷ [];
  unreadable = [];
}

audit_runs : audit audited machine environment ≡ ok report
unfolding scans
audit_runs = refl

audit-AllGrounded_example : All (FindingIsGrounded audited machine environment) report.findings
audit-AllGrounded_example = audit-AllGrounded audited machine environment report audit_runs

audit-IsRead_example :
    (environment.unreadable ≡ [])
    × KeysAreRead machine.driver_keys
    × All (EntryIsRead machine environment (driver_keys machine.driver_keys)) audited.anticheat
audit-IsRead_example = audit-IsRead audited machine environment report audit_runs refl

-- The same machine, where no path can be read.
abbrev locked : MachineView
locked = record machine { path = λ path. unreadable (codes "denied") }

-- An image that a driver key names and that cannot be read is said not to be on disk, and nothing is listed as
-- unreadable for it.
locked_image :
    driver locked environment (driver_key ∷ []) entry start (codes "vgk.sys")
    ≡ ok (record start {
      found =
          (record {
            artifact = Model.driver (codes "vgk.sys") (some (codes "vgk")) driver_path false;
            evidence = registered_by (codes "vgk") ∷ not_on_disk ∷ [];
            judged = none;
          })
          ∷ [];
    })
unfolding scans
locked_image = refl
