-- ===== src/Observe/Diff/Compare/Errors.antt =====
-- tools/observe/src/diff.rs: when `compare` refuses.
use wardsweep.Base.{◌≡◌, ◌↔◌, ◌≤◌, true, ℕ, ok, arith}
use wardsweep.Observe.Model.{Snapshot, snapshot_format_version, oldest_snapshot_format}
use wardsweep.Observe.Diff.Filter.{NoiseFilter}
use wardsweep.Observe.Diff.Compare.{is_supported, compare, compare_supported}

-- The format versions that this build reads.
abbrev pub IsReadable : ℕ → Type 0
IsReadable version = (oldest_snapshot_format ≤ version) × (version ≤ snapshot_format_version)

is_supported_iff : (version : ℕ) → (is_supported version ≡ true) ↔ IsReadable version
unfolding is_supported
is_supported_iff version = ground arith

-- Two snapshots are compared exactly when both are in a format that this build reads, and in the same one.
pub compare-ok_iff :
    (before after : Snapshot) (filter : NoiseFilter)
    → (compare before after filter ≡ ok (compare_supported before after filter)) ↔ (
        IsReadable before.format_version
        × IsReadable after.format_version
        × (before.format_version ≡ after.format_version))
unfolding compare
compare-ok_iff before after filter =
    ground (arith, is_supported_iff before.format_version, is_supported_iff after.format_version)
