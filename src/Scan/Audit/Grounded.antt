-- ===== src/Scan/Audit/Grounded.antt =====
-- core/src/scan/engine.rs: every finding of an audit is one that the machine shows.
use mathlib.Core.List.{Memᴰ}
use wardsweep.Base.{
  ◌↔◌, ◌≡◌, refl, Bool, List, [], ◌∷◌, map, All, All-append, ok, >>=-eq-ok, subst, ◌>>=◌,
}
use wardsweep.Catalog.Schema.{Catalog, AntiCheat}
use wardsweep.Catalog.Gate.{exceptions_for}
use wardsweep.Scan.Model.{Finding, Report}
use wardsweep.Scan.View.{Lookup, found, absent, unreadable, ServiceKey, DriverKeys, MachineView}
use wardsweep.Scan.Environment.{Environment}
use wardsweep.Scan.Judge.{Pending, settle_one, settle}
use wardsweep.Scan.State.{State, fold}
use wardsweep.Scan.State.Loops.{ok-injective, fold_invariant, fold_invariant_on}
use wardsweep.Scan.Registered.{service, driver}
use wardsweep.Scan.Registered.Grounded.{service-IsSafe, AreListed, driver-IsSafe}
use wardsweep.Scan.Targets.{run_targets}
use wardsweep.Scan.Targets.Safe.{run_targets-IsSafe}
use wardsweep.Scan.Grounded.{IsListed, IsGrounded, IsSafe}
use wardsweep.Scan.Audit.{run, start, settled, audit_entry, driver_keys, first_report, audit}

-- A finding of an entry of the catalog, under that entry's id, of an artifact that the machine shows.
pub record FindingIsGrounded (catalog : Catalog) (machine : MachineView) (environment : Environment)
    (finding : Finding) : Type 0 where
  pub entry : AntiCheat
  pub listed : Memᴰ entry catalog.anticheat
  pub owner : finding.anticheat ≡ entry.id
  pub grounded : IsGrounded machine environment (exceptions_for entry) finding.artifact

run-IsSafe :
    (machine : MachineView) (environment : Environment) (keys : List ServiceKey) (entry : AntiCheat)
    (state next : State)
    → AreListed machine keys
    → run machine environment keys entry state ≡ ok next
    → IsSafe machine environment entry state
    → IsSafe machine environment entry next
unfolding run
run-IsSafe machine environment keys entry state next known h safe =
    let (services, first, rest) =
      >>=-eq-ok (fold (service machine environment entry) state entry.services)
        (λ services. do
          drivers ← fold (driver machine environment keys entry) services entry.drivers
          run_targets machine environment entry drivers)
        h in
    let (drivers, second, last) =
      >>=-eq-ok (fold (driver machine environment keys entry) services entry.drivers)
        (run_targets machine environment entry) rest in
    run_targets-IsSafe machine environment entry drivers next last (
      fold_invariant (driver machine environment keys entry) (IsSafe machine environment entry)
        (λ state driver_file next.
          driver-IsSafe machine environment keys entry state driver_file next known)
        services entry.drivers drivers second
        (fold_invariant (service machine environment entry) (IsSafe machine environment entry)
          (service-IsSafe machine environment entry) state entry.services services first safe))

module _ (catalog : Catalog) (machine : MachineView) (environment : Environment) where
  abbrev AllGrounded : Report → Type 0
  AllGrounded report = All (FindingIsGrounded catalog machine environment) report.findings

  settle-grounded :
      (entry : AntiCheat) (c s : Bool) (pendings : List Pending)
      → Memᴰ entry catalog.anticheat
      → All
          (λ pending. IsGrounded machine environment (exceptions_for entry) pending.artifact)
          pendings
      → All (FindingIsGrounded catalog machine environment) (map (settle_one entry c s) pendings)
  unfolding settle_one
  settle-grounded entry c s [] listed safe = tt
  settle-grounded entry c s (pending ∷ pendings) listed safe = (
    record { entry = entry; listed = listed; owner = refl; grounded = safe.0 },
    settle-grounded entry c s pendings listed safe.1,
  )

  settled-AllGrounded :
      (entry : AntiCheat) (report : Report) (state : State)
      → Memᴰ entry catalog.anticheat
      → IsSafe machine environment entry state
      → AllGrounded report
      → AllGrounded (settled entry report state)
  unfolding settled settle
  settled-AllGrounded entry report state listed safe before =
      All-append _ report.findings _ before (settle-grounded entry _ _ state.found listed safe)

  audit_entry-AllGrounded :
      (keys : List ServiceKey) (report : Report) (entry : AntiCheat) (next : Report)
      → AreListed machine keys
      → Memᴰ entry catalog.anticheat
      → audit_entry machine environment keys report entry ≡ ok next
      → AllGrounded report
      → AllGrounded next
  unfolding audit_entry
  audit_entry-AllGrounded keys report entry next known listed h before =
      let (state, first, rest) =
        >>=-eq-ok (run machine environment keys entry (start report))
          (λ state. ok (settled entry report state)) h in
      subst AllGrounded (ok-injective rest) (
        settled-AllGrounded entry report state listed
          (run-IsSafe machine environment keys entry _ state known first tt) before)

All-Memᴰ :
    {A : Type 0} (xs ys : List A) → ((x : A) → Memᴰ x ys → Memᴰ x xs) → All (λ y. Memᴰ y xs) ys
All-Memᴰ xs [] among = tt
All-Memᴰ xs (y ∷ ys) among =
    (among y (Memᴰ.head refl), All-Memᴰ xs ys (λ x m. among x (Memᴰ.tail m)))

driver_keys-AreListed :
    (machine : MachineView) → AreListed machine (driver_keys machine.driver_keys)
unfolding driver_keys
driver_keys-AreListed machine key = by_answer machine.driver_keys refl
  where
    by_answer :
        (answer : Lookup DriverKeys)
        → machine.driver_keys ≡ answer
        → Memᴰ key (driver_keys answer) ↔ IsListed machine key
    by_answer (found keys) e =
        (λ m. (keys, e, m), λ (others, f, m). subst (λ k. Memᴰ key k.drivers) (same others f) m)
      where
        same : (others : DriverKeys) → machine.driver_keys ≡ found others → others ≡ keys
        same others f = cc
    by_answer absent e = (λ m. elim m [ ], λ (others, f, m). absurd cc)
    by_answer (unreadable reason) e = (λ m. elim m [ ], λ (others, f, m). absurd cc)

-- Every finding of an audit belongs to an entry of the catalog and is grounded in what the machine answered.
-- A service is one that the control manager lists and that is not stale, or one that it does not list and
-- whose key is there. A driver is registered by a listed driver key, named in the finding, whose image has the
-- driver's file name, and the finding says that the image is present exactly when the machine found a file
-- there (an image that is absent or cannot be read is alike said not to be); or it is a file in the drivers
-- directory that no listed key registers. A key and a path are there, the path no link, and the deny-list
-- allows them for that entry.
pub audit-AllGrounded :
    (catalog : Catalog) (machine : MachineView) (environment : Environment) (report : Report)
    → audit catalog machine environment ≡ ok report
    → All (FindingIsGrounded catalog machine environment) report.findings
unfolding audit first_report
audit-AllGrounded catalog machine environment report h =
    fold_invariant_on (audit_entry machine environment (driver_keys machine.driver_keys))
      (AllGrounded catalog machine environment) (λ entry. Memᴰ entry catalog.anticheat)
      (λ before entry next listed.
        audit_entry-AllGrounded catalog machine environment (driver_keys machine.driver_keys) before
          entry next (driver_keys-AreListed machine) listed)
      (first_report machine environment) catalog.anticheat report
      (All-Memᴰ catalog.anticheat catalog.anticheat (λ x m. m)) h tt
