-- ===== src/Observe/Diff/Compare.antt =====
-- tools/observe/src/diff.rs: `compare`, and what it reads besides the three lists of records.
pub mod Unchanged
pub mod Errors
pub mod Emptied
pub mod Accounted
use wardsweep.Base.{
  ℕ, suc, ◌+◌, ◌-◌, Bool, true, false, not, ◌&&◌, ◌||◌, Option, none, some, List, [], ◌∷◌, ◌++◌,
  any, length, leb, ltb, ◌==◌, if◌then◌else◌, Outcome, ok, err,
}
use wardsweep.Text.Chars.{Text}
use wardsweep.Text.{text_eq}
use wardsweep.Scan.Libraries.{Library, same_launcher, retain, common}
use wardsweep.Observe.Index.{Index, insert, get}
use wardsweep.Observe.Model
use wardsweep.Observe.Model.{
  snapshot_format_version, oldest_snapshot_format, Domain, services, registry, filesystem,
  AccessDenied, Coverage, RegistryKeyRef, BootSession, FilesystemPolicy, RegistryPolicy, Snapshot,
}
use wardsweep.Observe.Coverage.{covers, intersect}
use wardsweep.Observe.Policy.{
  Policy, current, is_excluded_key, is_excluded_path, excludes_denied_item,
}
use wardsweep.Observe.Diff.Types.{
  diff_format_version, FileChange, Diff, Refiltered, text_order, Suppressed, ServiceChange,
}
use wardsweep.Observe.Diff.Filter.{NoiseFilter, rule_for, file_rule_for, kept, moved_aside}
use wardsweep.Observe.Diff.Services.{compare_services, or_zero}
use wardsweep.Observe.Diff.Files.{compare_files, excluded_files}
use wardsweep.Observe.Diff.Registry.{compare_registry, refused_counts}

pub data DiffError : Type 0 where
  unsupported_format : ℕ → ℕ → ℕ → DiffError
  mixed_formats : ℕ → ℕ → DiffError

-- What this build excludes of a domain.
unfoldable pub excluded_in : Domain → Text → Bool
excluded_in registry item = excludes_denied_item item
excluded_in filesystem item = is_excluded_path item
excluded_in _ item = false

unfoldable pub is_excluded_denial : AccessDenied → Bool
is_excluded_denial denied = excluded_in denied.domain denied.item

-- `drop_excluded_denials`: the coverage that is left, and how many items went.
unfoldable pub without_excluded_denials : Coverage → Coverage
without_excluded_denials coverage = record coverage {
  access_denied = retain (λ denied. not (is_excluded_denial denied)) coverage.access_denied;
}

unfoldable pub excluded_denials : Coverage → ℕ
excluded_denials coverage =
    length coverage.access_denied - length (without_excluded_denials coverage).access_denied

-- What a list holds that another does not.
unfoldable pub newly_in : {A : Type 0} → (A → A → Bool) → List A → List A → List A
newly_in same was now = retain (λ x. not (any (same x) was)) now

-- `emptied_directories` and `emptied_keys`, by what is excluded: the entries that are left, and how many
-- went.
unfoldable pub emptied :
    {A : Type 0}
    → (A → A → Bool)
    → (A → Bool)
    → Bool
    → Option (List A)
    → Option (List A)
    → Option (List A)
emptied same excluded true (some was) (some now) =
    some (retain (λ x. not (excluded x)) (newly_in same was now))
emptied same excluded _ _ _ = none

unfoldable pub excluded_emptied :
    {A : Type 0} → (A → A → Bool) → (A → Bool) → Bool → Option (List A) → Option (List A) → ℕ
excluded_emptied same excluded true (some was) (some now) =
    length (retain excluded (newly_in same was now))
excluded_emptied same excluded _ _ _ = 0

unfoldable pub same_key : RegistryKeyRef → RegistryKeyRef → Bool
same_key a b = text_eq a.key b.key && text_eq a.view b.view

unfoldable pub emptied_directories : Snapshot → Snapshot → Coverage → Option (List Text)
emptied_directories before after coverage =
    emptied text_eq is_excluded_path (covers coverage filesystem) before.file_empty_directories
      after.file_empty_directories

unfoldable pub emptied_keys : Snapshot → Snapshot → Coverage → Option (List RegistryKeyRef)
emptied_keys before after coverage =
    emptied same_key (λ ref. is_excluded_key ref.key) (covers coverage registry)
      before.registry_empty_keys after.registry_empty_keys

unfoldable pub excluded_directories : Snapshot → Snapshot → Coverage → ℕ
excluded_directories before after coverage =
    excluded_emptied text_eq is_excluded_path (covers coverage filesystem)
      before.file_empty_directories after.file_empty_directories

unfoldable pub excluded_keys : Snapshot → Snapshot → Coverage → ℕ
excluded_keys before after coverage =
    excluded_emptied same_key (λ ref. is_excluded_key ref.key) (covers coverage registry)
      before.registry_empty_keys after.registry_empty_keys

abbrev pub same_boot_tolerance_ms : ℕ
same_boot_tolerance_ms = 120_000

-- `abs_diff`
abbrev pub abs_diff : ℕ → ℕ → ℕ
abs_diff a b = (a - b) + (b - a)

unfoldable pub rebooted : Option BootSession → Option BootSession → Option Bool
rebooted (some earlier) (some later) =
    some (ltb same_boot_tolerance_ms (abs_diff earlier.started_unix_ms later.started_unix_ms))
rebooted _ _ = none

unfoldable pub rebooted_between : Snapshot → Snapshot → Option Bool
rebooted_between before after = rebooted before.boot_session after.boot_session

abbrev pub count_signer : Option Text → Index Text ℕ → Index Text ℕ
count_signer none counted = counted
count_signer (some signer) counted = insert signer (suc (or_zero (get signer counted))) counted

unfoldable pub count_signers : Index Text ℕ → List FileChange → Index Text ℕ
count_signers counted [] = counted
count_signers counted (change ∷ changes) =
    count_signers (count_signer change.signer counted) changes

unfoldable pub signer_counts : List FileChange → Index Text ℕ
signer_counts files = count_signers [] files

-- `!=` on the derived equality of the two policies.
unfoldable pub same_list : {A : Type 0} → (A → A → Bool) → List A → List A → Bool
same_list same [] [] = true
same_list same [] (y ∷ ys) = false
same_list same (x ∷ xs) [] = false
same_list same (x ∷ xs) (y ∷ ys) = same x y && same_list same xs ys

abbrev pub same_option : {A : Type 0} → (A → A → Bool) → Option A → Option A → Bool
same_option same none none = true
same_option same none (some y) = false
same_option same (some x) none = false
same_option same (some x) (some y) = same x y

unfoldable pub same_filesystem_policy : FilesystemPolicy → FilesystemPolicy → Bool
same_filesystem_policy a b =
    same_list text_eq a.roots b.roots
    && same_list text_eq a.excluded b.excluded
    && same_list text_eq a.hashed_extensions b.hashed_extensions
    && a.max_hash_bytes == b.max_hash_bytes
    && same_list (λ x y. same_launcher x.launcher y.launcher && text_eq x.path y.path) a.libraries
        b.libraries

unfoldable pub same_registry_policy : RegistryPolicy → RegistryPolicy → Bool
same_registry_policy a b =
    same_list text_eq a.roots b.roots
    && same_list text_eq a.views b.views
    && same_list text_eq a.excluded b.excluded
    && a.max_value_bytes == b.max_value_bytes

abbrev pub libraries_of : Option FilesystemPolicy → List Library
libraries_of none = []
libraries_of (some policy) = policy.libraries

unfoldable pub is_supported : ℕ → Bool
is_supported version = leb oldest_snapshot_format version && leb version snapshot_format_version

abbrev pub unsupported : ℕ → DiffError
unsupported version = unsupported_format version oldest_snapshot_format snapshot_format_version

unfoldable pub changed_services : Snapshot → Snapshot → Coverage → NoiseFilter → List ServiceChange
changed_services before after coverage filter =
    if covers coverage services then compare_services before.services after.services filter else []

unfoldable pub changed_files : Snapshot → Snapshot → Coverage → List FileChange
changed_files before after coverage =
    if covers coverage filesystem then compare_files before.files after.files else []

unfoldable pub refiltered : Snapshot → Snapshot → Coverage → Refiltered
refiltered before after coverage =
    let (records, values) =
      if covers coverage registry
      then refused_counts current (refused_counts current (0, 0) before.registry) after.registry
      else (0, 0) in
    record {
      registry_records = records;
      registry_values = values;
      access_denied = excluded_denials (intersect before.coverage after.coverage);
      emptied_keys = excluded_keys after before coverage + excluded_keys before after coverage;
      files =
          if covers coverage filesystem
          then excluded_files before.files + excluded_files after.files
          else 0;
      emptied_directories =
          excluded_directories after before coverage + excluded_directories before after coverage;
    }

-- `compare` behind its checks of the formats
unfoldable pub compare_supported : Snapshot → Snapshot → NoiseFilter → Diff
compare_supported before after filter =
    let coverage = without_excluded_denials (intersect before.coverage after.coverage) in
    let service_changes = changed_services before after coverage filter in
    let file_changes = changed_files before after coverage in
    let files = kept (file_rule_for filter) file_changes in
    record {
      format_version = diff_format_version;
      snapshot_format_version = before.format_version;
      before_taken_utc = before.taken_utc;
      after_taken_utc = after.taken_utc;
      rebooted_between = rebooted_between before after;
      emptied_directories = emptied_directories before after coverage;
      emptied_keys = emptied_keys before after coverage;
      formerly_empty_directories = emptied_directories after before coverage;
      formerly_empty_keys = emptied_keys after before coverage;
      coverage = coverage;
      services = kept (rule_for filter) service_changes;
      suppressed = moved_aside (rule_for filter) service_changes;
      files = files;
      suppressed_files = moved_aside (file_rule_for filter) file_changes;
      registry =
          if covers coverage registry
          then compare_registry current before.registry after.registry
          else [];
      registry_policy_changed =
          not (same_option same_registry_policy before.registry_policy after.registry_policy);
      filesystem_policy_changed =
          not (same_option same_filesystem_policy before.filesystem_policy after.filesystem_policy);
      libraries =
          common
            (libraries_of before.filesystem_policy ∷ libraries_of after.filesystem_policy ∷ []);
      signers = signer_counts files;
      refiltered = refiltered before after coverage;
      intersection_of = none;
    }

unfoldable pub compare : Snapshot → Snapshot → NoiseFilter → Outcome DiffError Diff
compare before after filter =
    if not (is_supported before.format_version)
    then err (unsupported before.format_version)
    else if not (is_supported after.format_version)
    then err (unsupported after.format_version)
    else if not (before.format_version == after.format_version)
    then err (mixed_formats before.format_version after.format_version)
    else ok (compare_supported before after filter)
