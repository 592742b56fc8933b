-- ===== src/Scan/Targets.antt =====
-- core/src/scan/engine.rs: `Audit::registry_key` and `Audit::path`, the keys and paths of one entry.
pub mod Safe
pub mod Complete
use wardsweep.Base.{
  Bool, true, false, ◌&&◌, Option, none, some, List, [], ◌∷◌, ◌++◌, any, Outcome, ok, err, panic,
  ◌>>=◌, if◌then◌else◌,
}
use wardsweep.Text.Chars.{Text}
use wardsweep.Text.{codes, ascii_lower, ascii_upper, ends_with}
use wardsweep.Paths.Canonical.{CanonicalPath, PathError, canonicalise_syntactic}
use wardsweep.Paths.RegKey.{CanonicalRegKey, RegKeyError, canonicalise_reg_key}
use wardsweep.Denylist.Exceptions.{Exceptions}
use wardsweep.Denylist.Check.{DenyReason, reparse_point_in_path, Verdict, catalog_load, check_path}
use wardsweep.Denylist.Keys.{check_registry_key}
use wardsweep.Catalog.Schema.{AntiCheat, PathEntry, RegistryEntry}
use wardsweep.Catalog.Expand.{ExpandError, expand_with}
use wardsweep.Catalog.Gate.{exceptions_for}
use wardsweep.Scan.Model
use wardsweep.Scan.Model.{
  RegView, Evidence, in_view, file_exists, directory_exists, link_exists, Protected, Unreadable,
  Item, plain, key_item, Reason, denied, path_error, key_error, cannot_be_expanded, platform,
}
use wardsweep.Scan.View.{
  Lookup, found, absent, unreadable, PathKind, file, directory, reparse_point, MachineView,
}
use wardsweep.Scan.Environment.{Environment, lookup}
use wardsweep.Scan.Judge.{Pending, judge, views}
use wardsweep.Scan.State.{State, report_unreadable, report_protected, push, fold}

-- What `refused` is: `.err()`, with the reason.
unfoldable pub refusal : Verdict → Outcome DenyReason (Option Reason)
refusal (ok _) = ok none
refusal (err reason) = ok (some (denied reason))
refusal panic = panic

unfoldable pub key_refused :
    Exceptions → Outcome RegKeyError CanonicalRegKey → Outcome DenyReason (Option Reason)
key_refused exceptions (ok canonical) = refusal (check_registry_key canonical exceptions)
key_refused exceptions (err error) = ok (some (key_error error))
key_refused exceptions panic = panic

unfoldable pub path_refused :
    Exceptions → Outcome PathError CanonicalPath → Outcome DenyReason (Option Reason)
path_refused exceptions (ok canonical) = refusal (check_path canonical exceptions catalog_load)
path_refused exceptions (err error) = ok (some (path_error error))
path_refused exceptions panic = panic

unfoldable pub read_key :
    MachineView → AntiCheat → Text → RegView → Lookup (Unit {0}) → State → State
read_key machine entry key view (found _) state =
    push
      (record {
        artifact = Model.registry_key key view;
        evidence = in_view view ∷ [];
        judged = none;
      })
      state
read_key machine entry key view absent state = state
read_key machine entry key view (unreadable reason) state =
    report_unreadable entry (key_item key view) (platform reason) state

unfoldable pub key_unless : MachineView → AntiCheat → Text → RegView → State → Option Reason → State
key_unless machine entry key view state (some reason) = report_protected entry key reason state
key_unless machine entry key view state none =
    read_key machine entry key view (machine.registry_key key view) state

-- `Audit::registry_key`
unfoldable pub registry_key :
    MachineView → AntiCheat → Text → State → RegView → Outcome DenyReason State
registry_key machine entry key state view = do
  refused ← key_refused (exceptions_for entry) (canonicalise_reg_key key)
  ok (key_unless machine entry key view state refused)

unfoldable pub is_signable : Text → Bool
is_signable path =
    any (λ extension. ends_with (ascii_lower path) extension)
      (codes ".exe" ∷ codes ".dll" ∷ codes ".sys" ∷ codes ".msi" ∷ [])

unfoldable pub describe : PathKind → Evidence
describe file = file_exists
describe directory = directory_exists
describe reparse_point = link_exists

abbrev pub is_file : PathKind → Bool
is_file file = true
is_file _ = false

abbrev pub is_directory : PathKind → Bool
is_directory directory = true
is_directory _ = false

-- What is pushed for a path that the deny-list allows.
unfoldable pub pending_path : MachineView → AntiCheat → Text → PathKind → Pending
pending_path machine entry path kind =
    let (classification, said) = judge (machine.signature path) entry in
    let signable = is_file kind && is_signable path in
    record {
      artifact = Model.path path (is_directory kind);
      evidence = (if signable then said else describe kind) ∷ [];
      judged = if signable then some classification else none;
    }

unfoldable pub refused_at : AntiCheat → Text → PathKind → Outcome DenyReason (Option Reason)
refused_at entry path reparse_point = ok (some (denied reparse_point_in_path))
refused_at entry path file = path_refused (exceptions_for entry) (canonicalise_syntactic path)
refused_at entry path directory = path_refused (exceptions_for entry) (canonicalise_syntactic path)

unfoldable pub path_unless :
    MachineView → AntiCheat → Text → PathKind → State → Option Reason → State
path_unless machine entry path kind state (some reason) = report_protected entry path reason state
path_unless machine entry path kind state none = push (pending_path machine entry path kind) state

-- One pass of the loop of `Audit::path`, with what the machine has there.
unfoldable pub path_at :
    MachineView → AntiCheat → Text → State → Lookup PathKind → Outcome DenyReason State
path_at machine entry path state absent = ok state
path_at machine entry path state (unreadable reason) =
    ok (report_unreadable entry (plain path) (platform reason) state)
path_at machine entry path state (found kind) = do
  refused ← refused_at entry path kind
  ok (path_unless machine entry path kind state refused)

unfoldable pub each_path : MachineView → AntiCheat → State → List Text → Outcome DenyReason State
each_path machine entry state paths =
    fold (λ state path. path_at machine entry path state (machine.path path)) state paths

unfoldable pub expanded_paths :
    MachineView
    → AntiCheat
    → Text
    → State
    → Outcome ExpandError (List Text)
    → Outcome DenyReason State
expanded_paths machine entry template state (ok expansions) =
    each_path machine entry state expansions
expanded_paths machine entry template state (err error) =
    ok (report_unreadable entry (plain template) (cannot_be_expanded error) state)
expanded_paths machine entry template state panic = panic

-- `Audit::path`
unfoldable pub path :
    MachineView → Environment → AntiCheat → State → Text → Outcome DenyReason State
path machine environment entry state template =
    expanded_paths machine entry template state (expand_with template (lookup environment))

-- The loops of `Audit::run` over an entry's keys and paths.
unfoldable pub run_keys :
    MachineView → AntiCheat → State → List RegistryEntry → Outcome DenyReason State
run_keys machine entry state keys =
    fold (λ state key. fold (registry_key machine entry key.key) state (views key.key key.view))
      state keys

unfoldable pub run_paths :
    MachineView → Environment → AntiCheat → State → List PathEntry → Outcome DenyReason State
run_paths machine environment entry state paths =
    fold (λ state listed. path machine environment entry state listed.path) state paths

-- `Audit::run` behind its services and drivers.
unfoldable pub run_targets :
    MachineView → Environment → AntiCheat → State → Outcome DenyReason State
run_targets machine environment entry state = do
  keys ← run_keys machine entry state entry.registry
  run_paths machine environment entry keys entry.paths
