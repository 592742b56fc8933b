-- ===== src/Scan/Audit/Complete.antt =====
-- core/src/scan/engine.rs: a report with nothing unreadable comes of an audit that read everything.
use wardsweep.Base.{◌≡◌, refl, sym, List, [], ◌∷◌, ◌++◌, map, All, ok, >>=-eq-ok, subst, ◌>>=◌}
use wardsweep.Catalog.Schema.{Catalog, AntiCheat}
use wardsweep.Scan.Model.{Report}
use wardsweep.Scan.View.{Lookup, found, absent, unreadable, ServiceKey, DriverKeys, MachineView}
use wardsweep.Scan.Environment.{Environment}
use wardsweep.Scan.State.{State, fold}
use wardsweep.Scan.State.Loops.{ok-injective, fold_backwards}
use wardsweep.Scan.Registered.{service, driver}
use wardsweep.Scan.Registered.Read.{ServiceIsRead, DriverIsRead, service-IsRead, driver-IsRead}
use wardsweep.Scan.Targets.{run_targets}
use wardsweep.Scan.Targets.Complete.{
  TemplateIsRead, EntryKeyIsRead, run_targets-IsRead, run_targets-IsComplete,
}
use wardsweep.Scan.Read.{IsComplete}
use wardsweep.Scan.Audit.{
  run, start, settled, audit_entry, of_environment, unreadable_keys, of_key, driver_keys,
  first_report, audit,
}

-- Everything that an entry names was read.
pub record EntryIsRead (machine : MachineView) (environment : Environment) (keys : List ServiceKey)
    (entry : AntiCheat) : Type 0 where
  pub services : All (ServiceIsRead machine) entry.services
  pub drivers : All (DriverIsRead machine environment keys) entry.drivers
  pub paths : All (TemplateIsRead machine environment) entry.paths
  pub registry : All (EntryKeyIsRead machine entry) entry.registry

run-IsRead :
    (machine : MachineView) (environment : Environment) (keys : List ServiceKey) (entry : AntiCheat)
    (state next : State)
    → run machine environment keys entry state ≡ ok next
    → IsComplete next
    → IsComplete state × EntryIsRead machine environment keys entry
unfolding run
run-IsRead machine environment keys entry state next h complete =
    let (services, first, rest) =
      >>=-eq-ok (fold (service machine environment entry) state entry.services)
        (λ services. do
          drivers ← fold (driver machine environment keys entry) services entry.drivers
          run_targets machine environment entry drivers)
        h in
    let (drivers, second, last) =
      >>=-eq-ok (fold (driver machine environment keys entry) services entry.drivers)
        (run_targets machine environment entry) rest in
    let (paths, registry) =
      run_targets-IsRead machine environment entry drivers next last complete in
    let (behind_services, drivers_read) =
      fold_backwards (driver machine environment keys entry) IsComplete
        (DriverIsRead machine environment keys) (driver-IsRead machine environment keys entry)
        services entry.drivers drivers second
        (run_targets-IsComplete machine environment entry drivers next last complete) in
    let (before, services_read) =
      fold_backwards (service machine environment entry) IsComplete (ServiceIsRead machine)
        (service-IsRead machine environment entry) state entry.services services first
        behind_services in
    (
      before,
      record {
        services = services_read;
        drivers = drivers_read;
        paths = paths;
        registry = registry;
      },
    )

abbrev HasRead : Report → Type 0
HasRead report = report.unreadable ≡ []

audit_entry-IsRead :
    (machine : MachineView) (environment : Environment) (keys : List ServiceKey) (report : Report)
    (entry : AntiCheat) (next : Report)
    → audit_entry machine environment keys report entry ≡ ok next
    → HasRead next
    → HasRead report × EntryIsRead machine environment keys entry
unfolding audit_entry settled
audit_entry-IsRead machine environment keys report entry next h complete =
    let (state, first, rest) =
      >>=-eq-ok (run machine environment keys entry (start report))
        (λ state. ok (settled entry report state)) h in
    let complete' : HasRead (settled entry report state) =
      subst HasRead (sym (ok-injective rest)) complete in
    run-IsRead machine environment keys entry (start report) state first complete'

map-nil : {A B : Type 0} (f : A → B) (xs : List A) → map f xs ≡ [] → xs ≡ []
map-nil f [] h = refl
map-nil f (x ∷ xs) h = cc

append-nil_both : {A : Type 0} (xs ys : List A) → xs ++ ys ≡ [] → (xs ≡ []) × (ys ≡ [])
append-nil_both [] ys h = (refl, h)
append-nil_both (x ∷ xs) ys h = cc

-- The driver keys were listed, and each of them was read.
abbrev pub KeysAreRead : Lookup DriverKeys → Type 0
KeysAreRead (found keys) = keys.unreadable ≡ []
KeysAreRead absent = Unit
KeysAreRead (unreadable reason) = ⊥

unreadable_keys-KeysAreRead :
    (keys : Lookup DriverKeys) → unreadable_keys keys ≡ [] → KeysAreRead keys
unfolding unreadable_keys
unreadable_keys-KeysAreRead (found keys) h = map-nil of_key keys.unreadable h
unreadable_keys-KeysAreRead absent h = tt
unreadable_keys-KeysAreRead (unreadable reason) h = cc

-- An audit whose report lists nothing as unreadable had every library list and every driver key, and had an
-- answer for what each of the catalog's anti-cheat entries names: of each service from the control manager,
-- and from the registry where the control manager does not list it; of each driver, from a driver key that
-- registers it, or else for its file in the drivers directory; of each expansion of each path template; and
-- of each key that the deny-list does not refuse, in each view that is called for. The images that services
-- and registering driver keys name are not among these.
pub audit-IsRead :
    (catalog : Catalog) (machine : MachineView) (environment : Environment) (report : Report)
    → audit catalog machine environment ≡ ok report
    → report.unreadable ≡ []
    → (environment.unreadable ≡ [])
      × KeysAreRead machine.driver_keys
      × All (EntryIsRead machine environment (driver_keys machine.driver_keys)) catalog.anticheat
unfolding audit first_report
audit-IsRead catalog machine environment report h complete =
    let (before, read) =
      fold_backwards (audit_entry machine environment (driver_keys machine.driver_keys)) HasRead
        (EntryIsRead machine environment (driver_keys machine.driver_keys))
        (audit_entry-IsRead machine environment (driver_keys machine.driver_keys))
        (first_report machine environment) catalog.anticheat report h complete in
    let (libraries, keys) = append-nil_both _ (unreadable_keys machine.driver_keys) before in
    (
      map-nil of_environment environment.unreadable libraries,
      unreadable_keys-KeysAreRead machine.driver_keys keys,
      read,
    )
