-- ===== src/Observe/Diff/Compare/Accounted.antt =====
-- tools/observe/src/diff.rs: that a diff leaves no change of a service out.
use wardsweep.Base.{◌≡◌, true, some}
use wardsweep.Text.Chars.{Text}
use wardsweep.Observe.Coverage.{covers}
use wardsweep.Observe.Model.{Snapshot, services}
use wardsweep.Observe.Diff.Types.{ServiceChange}
use wardsweep.Observe.Diff.Filter.{NoiseFilter, rule_for}
use wardsweep.Observe.Diff.Filter.Sift.{IsSifted, kept-IsSifted}
use wardsweep.Observe.Diff.Services.{crowded, service_change, compare_services}
use wardsweep.Observe.Diff.Services.Keyed.{last_keyed, compare_services_iff}
use wardsweep.Observe.Diff.Compare.{compare_supported, changed_services}

-- Where the diff covers services, each change between the last records that two snapshots have under a key
-- is listed among the services when no rule of the filter matches it, and otherwise among the suppressed
-- changes, with the rule that does.
pub compare_supported-IsSifted :
    (before after : Snapshot) (filter : NoiseFilter) (key : Text) (change : ServiceChange)
    → covers (compare_supported before after filter).coverage services ≡ true
    → service_change key
        (last_keyed filter (crowded filter before.services after.services) key before.services)
        (last_keyed filter (crowded filter before.services after.services) key after.services)
      ≡ some change
    → IsSifted
        (rule_for filter)
        change
        (compare_supported before after filter).services
        (compare_supported before after filter).suppressed
unfolding compare_supported changed_services
compare_supported-IsSifted before after filter key change covered e = rw covered (
    kept-IsSifted (rule_for filter) change (compare_services before.services after.services filter)
      ((compare_services_iff before.services after.services filter change).1 (key, e)))
