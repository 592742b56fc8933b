-- ===== src/Observe/Diff/Refilter.antt =====
-- tools/observe/src/diff.rs: `refilter`, which applies this build's policy to a diff that there is already.
pub mod Private
use wardsweep.Base.{
  ℕ, zero, suc, ◌+◌, ◌-◌, Bool, true, false, not, ◌&&◌, Option, none, some, List, [], ◌∷◌, length,
  ◌==◌, if◌then◌else◌, ltb,
}
use wardsweep.Text.Chars.{Text}
use wardsweep.Scan.Libraries.{retain}
use wardsweep.Observe.Index.{Index, filter_map}
use wardsweep.Observe.Model.{RegistryRecord, FileRecord, RegistryKeyRef}
use wardsweep.Observe.Policy.{
  Policy, Admission, dropped, borrowed, owned, admit, is_excluded_key, is_excluded_path,
}
use wardsweep.Observe.Diff.Types.{
  diff_format_version, RegistryChange, FileChange, Suppressed, Refiltered, Diff,
}
use wardsweep.Observe.Diff.Registry.{admission_counts, registry_change}
use wardsweep.Observe.Diff.Compare.{without_excluded_denials, excluded_denials, signer_counts}

-- `Refiltered::absorb`
unfoldable pub absorb : Refiltered → Refiltered → Refiltered
absorb counted other = record {
  registry_records = counted.registry_records + other.registry_records;
  registry_values = counted.registry_values + other.registry_values;
  access_denied = counted.access_denied + other.access_denied;
  emptied_keys = counted.emptied_keys + other.emptied_keys;
  files = counted.files + other.files;
  emptied_directories = counted.emptied_directories + other.emptied_directories;
}

-- The loops over the two lists of emptied keys, and over those of directories: what a list that was
-- recorded keeps, and how many entries go.
unfoldable pub kept_entries : {A : Type 0} → (A → Bool) → Option (List A) → Option (List A)
kept_entries excluded none = none
kept_entries excluded (some entries) = some (retain (λ x. not (excluded x)) entries)

unfoldable pub dropped_entries : {A : Type 0} → (A → Bool) → Option (List A) → ℕ
dropped_entries excluded none = 0
dropped_entries excluded (some entries) =
    length entries - length (retain (λ x. not (excluded x)) entries)

unfoldable pub is_borrowed : Admission → Bool
is_borrowed (borrowed record_) = true
is_borrowed _ = false

unfoldable pub untouched_record : Policy → Option RegistryRecord → Bool
untouched_record policy none = true
untouched_record policy (some record_) = is_borrowed (admit policy record_)

unfoldable pub untouched : Policy → RegistryChange → Bool
untouched policy change =
    untouched_record policy change.before && untouched_record policy change.after

unfoldable pub admitted_record : Admission → Option RegistryRecord
admitted_record dropped = none
admitted_record (borrowed record_) = some record_
admitted_record (owned record_ refused) = some record_

unfoldable pub admit_owned : Policy → Option RegistryRecord → Option RegistryRecord
admit_owned policy none = none
admit_owned policy (some record_) = admitted_record (admit policy record_)

-- What `admit_owned` adds to the counts of records and values.
unfoldable pub owned_counts : Policy → Option RegistryRecord → ℕ × ℕ → ℕ × ℕ
owned_counts policy none counted = counted
owned_counts policy (some record_) counted = admission_counts (admit policy record_) counted

-- One pass of the loop over the registry changes. The `match` on the two records is that of
-- `compare_registry`, which does not look at the place.
unfoldable pub refiltered_change : Policy → Bool → RegistryChange → Option RegistryChange
refiltered_change policy upgrading change =
    if not upgrading && untouched policy change
    then some change
    else registry_change (change.key, change.view) (admit_owned policy change.before)
        (admit_owned policy change.after)

unfoldable pub change_counts : Policy → Bool → ℕ × ℕ → List RegistryChange → ℕ × ℕ
change_counts policy upgrading counted [] = counted
change_counts policy upgrading counted (change ∷ changes) =
    change_counts policy upgrading
      (if not upgrading && untouched policy change
        then counted
        else owned_counts policy change.after (owned_counts policy change.before counted))
      changes

abbrev pub one_if_some : Option FileRecord → ℕ
one_if_some none = 0
one_if_some (some record_) = 1

-- What the closure `keep` counts for a change.
unfoldable pub dropped_records : List FileChange → ℕ
dropped_records [] = 0
dropped_records (change ∷ changes) =
    let rest = dropped_records changes in
    if is_excluded_path change.path
    then one_if_some change.before + one_if_some change.after + rest
    else rest

abbrev pub changes_of : {C : Type 0} → List (Suppressed C) → List C
changes_of [] = []
changes_of (entry ∷ entries) = entry.change ∷ changes_of entries

unfoldable pub dropped_files : Diff → ℕ
dropped_files diff = dropped_records diff.files + dropped_records (changes_of diff.suppressed_files)

-- `drop_excluded_files`
unfoldable pub without_excluded_files : Diff → Diff
without_excluded_files diff =
    let files = retain (λ change. not (is_excluded_path change.path)) diff.files in
    record diff {
      files = files;
      suppressed_files =
          retain (λ entry. not (is_excluded_path entry.change.path)) diff.suppressed_files;
      signers = if ltb 0 (dropped_files diff) then signer_counts files else diff.signers;
    }

unfoldable pub is_upgrading : Diff → Bool
is_upgrading diff = not (diff.format_version == diff_format_version)

unfoldable pub report_of : Policy → Diff → Refiltered
report_of policy diff =
    let (records, values) = change_counts policy (is_upgrading diff) (0, 0) diff.registry in
    record {
      registry_records = records;
      registry_values = values;
      access_denied = excluded_denials diff.coverage;
      emptied_keys =
          dropped_entries (λ key. is_excluded_key key.key) diff.emptied_keys
          + dropped_entries (λ key. is_excluded_key key.key) diff.formerly_empty_keys;
      files = dropped_files diff;
      emptied_directories =
          dropped_entries is_excluded_path diff.emptied_directories
          + dropped_entries is_excluded_path diff.formerly_empty_directories;
    }

-- The diff that is left, and the report.
unfoldable pub refilter : Policy → Diff → Diff × Refiltered
refilter policy diff =
    let report = report_of policy diff in
    (
      record (without_excluded_files diff) {
        coverage = without_excluded_denials diff.coverage;
        emptied_keys = kept_entries (λ key. is_excluded_key key.key) diff.emptied_keys;
        formerly_empty_keys =
            kept_entries (λ key. is_excluded_key key.key) diff.formerly_empty_keys;
        emptied_directories = kept_entries is_excluded_path diff.emptied_directories;
        formerly_empty_directories = kept_entries is_excluded_path diff.formerly_empty_directories;
        registry = filter_map (refiltered_change policy (is_upgrading diff)) diff.registry;
        format_version = diff_format_version;
        refiltered = absorb diff.refiltered report;
      },
      report,
    )
