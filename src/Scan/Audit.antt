-- ===== src/Scan/Audit.antt =====
-- core/src/scan/engine.rs: `Audit::run` and `audit`, a machine against a catalog.
pub mod Grounded
pub mod Complete
use wardsweep.Base.{none, List, [], ◌∷◌, ◌++◌, map, Outcome, ok, ◌>>=◌}
use wardsweep.Text.Chars.{Text}
use wardsweep.Denylist.Check.{DenyReason}
use wardsweep.Catalog.Schema.{Catalog, AntiCheat}
use wardsweep.Scan.Model.{
  Report, Unreadable, plain, service_item, services_item, platform, report_version,
}
use wardsweep.Scan.View.{Lookup, found, absent, unreadable, ServiceKey, DriverKeys, MachineView}
use wardsweep.Scan.Environment.{Environment}
use wardsweep.Scan.Judge.{settle}
use wardsweep.Scan.State.{State, fold}
use wardsweep.Scan.Registered.{service, driver}
use wardsweep.Scan.Targets.{run_targets}

-- `Audit::run` before `settle`
unfoldable pub run :
    MachineView → Environment → List ServiceKey → AntiCheat → State → Outcome DenyReason State
run machine environment keys entry state = do
  services ← fold (service machine environment entry) state entry.services
  drivers ← fold (driver machine environment keys entry) services entry.drivers
  run_targets machine environment entry drivers

abbrev pub start : Report → State
start report = record {
  protected = report.protected;
  disbelieved = report.disbelieved;
  unreadable = report.unreadable;
  found = [];
}

-- The report behind `settle`.
unfoldable pub settled : AntiCheat → Report → State → Report
settled entry report state = record report {
  findings = report.findings ++ settle entry state.found;
  protected = state.protected;
  disbelieved = state.disbelieved;
  unreadable = state.unreadable;
}

-- One pass of the loop over `catalog.anticheat`.
unfoldable pub audit_entry :
    MachineView → Environment → List ServiceKey → Report → AntiCheat → Outcome DenyReason Report
audit_entry machine environment keys report entry = do
  state ← run machine environment keys entry (start report)
  ok (settled entry report state)

unfoldable pub of_environment : Text × Text → Unreadable
of_environment (item, reason) = record {
  anticheat = none;
  item = plain item;
  reason = platform reason;
}

unfoldable pub of_key : Text × Text → Unreadable
of_key (name, reason) = record {
  anticheat = none;
  item = service_item name;
  reason = platform reason;
}

-- What the lookup of the driver keys adds to the unreadable items, and the keys.
unfoldable pub unreadable_keys : Lookup DriverKeys → List Unreadable
unreadable_keys (found keys) = map of_key keys.unreadable
unreadable_keys absent = []
unreadable_keys (unreadable reason) =
    (record { anticheat = none; item = services_item; reason = platform reason }) ∷ []

unfoldable pub driver_keys : Lookup DriverKeys → List ServiceKey
driver_keys (found keys) = keys.drivers
driver_keys absent = []
driver_keys (unreadable reason) = []

unfoldable pub first_report : MachineView → Environment → Report
first_report machine environment = record {
  v = report_version;
  findings = [];
  protected = [];
  disbelieved = [];
  unreadable = map of_environment environment.unreadable ++ unreadable_keys machine.driver_keys;
}

unfoldable pub audit : Catalog → MachineView → Environment → Outcome DenyReason Report
audit catalog machine environment =
    fold (audit_entry machine environment (driver_keys machine.driver_keys))
      (first_report machine environment) catalog.anticheat
