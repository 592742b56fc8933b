-- ===== src/Examples/DiffExamples.antt =====
-- Comparing two small snapshots.
use mathlib.Core.List.{Memᴰ}
use wardsweep.Base.{
  ◌≡◌, ◌↔◌, ◌≤◌, ◌+◌, refl, ℕ, true, false, not, ◌&&◌, none, some, List, [], ◌∷◌, ok, any, all, map,
}
use wardsweep.Text.Chars.{Text, is_whitespace, to_lower, char_len}
use wardsweep.Text.{
  byte_len, codes, ascii_lower, replace, text_eq, ends_with, starts_with, eq_ignore_case, trim,
  trim_start, trim_end, trim_matches, strip_prefix,
}
use wardsweep.Text.Search.{is_hex_digit, rsplit_once_at, contains_text, text_before}
use wardsweep.Scan.Libraries.{retain}
use wardsweep.Observe.Index.{insert, get, insert_key, collect, filter_map, compare_with}
use wardsweep.Observe.Model
use wardsweep.Observe.Model.{
  Snapshot, ServiceRecord, FileRecord, RegistryRecord, Coverage, services, registry, filesystem,
  BootSession, is_boot_start, is_driver_image,
}
use wardsweep.Observe.Coverage.{
  covers, contains_domain, same_domain, rank, intersect, sort, insert_sorted, dedup,
}
use wardsweep.Observe.Coverage.Both.{intersect_lem}
use wardsweep.Observe.Policy.{
  current, is_hardware_identity, is_personal_identity_value, is_excluded_key, is_excluded_path,
  refusal, is_admitted, refused_values, admit,
}
use wardsweep.Observe.Policy.Tables.{
  personal_identity_value_names, excluded_key_fragments, excluded_path_fragments,
  hardware_identity_terms,
}
use wardsweep.Observe.Diff.Types.{
  Suppressed, Diff, ServiceChange, FileChange, RegistryChange, added, text_order,
}
use wardsweep.Observe.Diff.Filter.{standard, stem_or, canonical_name, rule_for}
use wardsweep.Observe.Diff.Filter.Sift.{IsSifted}
use wardsweep.Observe.Diff.Services.{
  counts, more_than_one, crowded, service_key, index_services, service_change, compare_services,
}
use wardsweep.Observe.Diff.Services.Keyed.{last_keyed, compare_services_iff}
use wardsweep.Observe.Diff.Files.Compared.{file_field_changes_iff}
use wardsweep.Observe.Diff.Files.{
  or_blank, file_field_changes, index_files, file_change, compare_files,
}
use wardsweep.Observe.Diff.Files.Outside.{IsOutsideIfAny, compare_files-IsOutside}
use wardsweep.Observe.Diff.Registry.{
  insert_admitted, admitted_index, registry_change, compare_registry,
}
use wardsweep.Observe.Diff.Registry.Admitted.{IsAdmittedIfAny, compare_registry-IsAdmitted}
use wardsweep.Observe.Diff.Compare.{
  compare, compare_supported, without_excluded_denials, rebooted, same_boot_tolerance_ms,
  emptied_directories,
}
use wardsweep.Observe.Diff.Compare.Errors.{IsReadable, compare-ok_iff}
use wardsweep.Observe.Diff.Compare.Unchanged.{compare_supported_unchanged}
use wardsweep.Observe.Diff.Compare.Accounted.{compare_supported-IsSifted}
use wardsweep.Observe.Diff.Compare.Emptied.{rebooted_iff, emptied_directories_iff}
use wardsweep.Observe.Diff.Refilter.{refilter}
use wardsweep.Observe.Diff.Refilter.Private.{refilter-IsAdmitted}
use wardsweep.Observe.Diff.Reversed.{reversed}
use wardsweep.Observe.Diff.Reversed.Twice.{reversed-compare_supported_twice}

abbrev a_service : Text → ServiceRecord
a_service name = record {
  name = name;
  display_name = name;
  service_type = codes "kernel_driver";
  start_type = codes "manual";
  error_control = codes "normal";
  binary_path = [];
  load_order_group = [];
  start_name = [];
  dependencies = [];
  description = [];
  delayed_auto_start = false;
}

abbrev a_file : FileRecord
a_file = record {
  path = codes "D:\\Games\\g.sys";
  size = 1;
  modified_utc = [];
  sha256 = none;
  signer = some (codes "S");
  not_hashed = none;
}

abbrev a_key : RegistryRecord
a_key = record {
  key = codes "HKLM\\SOFTWARE\\G";
  view = codes "64";
  values =
      record { name = codes "V"; kind = codes "sz"; value = codes "1"; oversized_bytes = none }
      ∷ [];
}

abbrev whole : Coverage
whole = record {
  captured = services ∷ registry ∷ filesystem ∷ [];
  not_captured = [];
  access_denied = [];
}

abbrev no_files : Coverage
no_files = record { captured = services ∷ []; not_captured = filesystem ∷ []; access_denied = [] }

abbrev a_session : ℕ → BootSession
a_session at = record { started_utc = []; started_unix_ms = at; uptime_ms = 5 }

abbrev a_snapshot : List ServiceRecord → List FileRecord → List RegistryRecord → Snapshot
a_snapshot ss fs ks = record {
  format_version = 2;
  taken_utc = codes "t";
  domain_started_utc = [];
  boot_session = none;
  harness_version = codes "1";
  label = [];
  coverage = whole;
  services = ss;
  files = fs;
  registry = ks;
  registry_policy = none;
  filesystem_policy = none;
  file_empty_directories = some (codes "D:\\Empty" ∷ []);
  registry_empty_keys = none;
}

abbrev clean : Snapshot
clean = a_snapshot [] [] []

abbrev installed : Snapshot
installed = a_snapshot (a_service (codes "vgk") ∷ []) (a_file ∷ []) (a_key ∷ [])

reversed-compare_supported_twice_example :
    reversed (reversed (compare_supported clean installed standard))
    ≡ compare_supported clean installed standard
reversed-compare_supported_twice_example = reversed-compare_supported_twice clean installed standard

compare_supported_unchanged_example :
    let diff = compare_supported installed installed standard in
    (diff.services ≡ [])
    × (diff.suppressed ≡ [])
    × (diff.files ≡ [])
    × (diff.suppressed_files ≡ [])
    × (diff.registry ≡ [])
compare_supported_unchanged_example = compare_supported_unchanged installed standard

compare-ok_iff_example :
    (compare clean installed standard ≡ ok (compare_supported clean installed standard))
    ↔ (IsReadable 2 × IsReadable 2 × (clean.format_version ≡ installed.format_version))
compare-ok_iff_example = compare-ok_iff clean installed standard

intersect_lem_example :
    (covers (intersect whole no_files) filesystem
      ≡ (covers whole filesystem && covers no_files filesystem))
    × (contains_domain (intersect whole no_files).not_captured filesystem
        ≡ not (covers whole filesystem && covers no_files filesystem))
intersect_lem_example = intersect_lem whole no_files filesystem

rebooted_iff_example :
    (rebooted (some (a_session 1_000)) (some (a_session 400_000)) ≡ some false)
    ↔ ((1_000 ≤ 400_000 + same_boot_tolerance_ms) × (400_000 ≤ 1_000 + same_boot_tolerance_ms))
rebooted_iff_example = rebooted_iff (a_session 1_000) (a_session 400_000)

abbrev added_service : ServiceChange
added_service = record {
  name = codes "vgk";
  kind = added;
  is_driver = true;
  is_boot_start = false;
  before = none;
  after = some (a_service (codes "vgk"));
  fields = [];
}

-- Two crowded instances of a template and an instance of another template, whose canonical name is the full
-- name of one of them: three services that went away, and two changes.
crowded_names_collide :
    map
      (λ change. change.name)
      (compare_services
        (map a_service (map codes ("a_1234" ∷ "a_5678" ∷ "a_1234_abcd" ∷ [])))
        []
        standard)
    ≡ map codes ("a_1234" ∷ "a_5678" ∷ [])
unfolding any all text_eq is_hex_digit rsplit_once_at contains_text text_before insert get
    insert_key collect filter_map compare_with Model.is_driver is_boot_start stem_or canonical_name
    standard counts more_than_one crowded service_key index_services service_change compare_services
    strip_prefix starts_with byte_len char_len
crowded_names_collide = refl

compare_services_iff_example :
    Memᴰ added_service (compare_services [] installed.services standard) ↔ (
      (key : Text) × (service_change key
          (last_keyed standard (crowded standard [] installed.services) key [])
          (last_keyed standard (crowded standard [] installed.services) key installed.services)
        ≡ some added_service))
compare_services_iff_example = compare_services_iff [] installed.services standard added_service

services_are_covered : covers (compare_supported clean installed standard).coverage services ≡ true
unfolding any covers contains_domain same_domain rank intersect retain sort insert_sorted dedup
    without_excluded_denials compare_supported
services_are_covered = refl

service_is_there :
    service_change
      (codes "vgk")
      (last_keyed standard
        (crowded standard clean.services installed.services)
        (codes "vgk")
        clean.services)
      (last_keyed standard
        (crowded standard clean.services installed.services)
        (codes "vgk")
        installed.services)
    ≡ some added_service
unfolding any all text_eq is_hex_digit rsplit_once_at contains_text text_before insert get
    insert_key collect Model.is_driver is_boot_start stem_or canonical_name standard counts
    more_than_one crowded service_key last_keyed service_change strip_prefix starts_with
service_is_there = refl

compare_supported-IsSifted_example :
    IsSifted
      (rule_for standard)
      added_service
      (compare_supported clean installed standard).services
      (compare_supported clean installed standard).suppressed
compare_supported-IsSifted_example =
    compare_supported-IsSifted clean installed standard (codes "vgk") added_service
      services_are_covered service_is_there

files_are_covered : covers whole filesystem ≡ true
unfolding any covers contains_domain same_domain rank
files_are_covered = refl

emptied_directories_iff_example :
    (items : List Text) × (emptied_directories clean installed whole ≡ some items)
    × ((path : Text)
        → Memᴰ path items ↔ (
            Memᴰ path (codes "D:\\Empty" ∷ [])
            × ¬ (Memᴰ path (codes "D:\\Empty" ∷ []))
            × (is_excluded_path path ≡ false)))
emptied_directories_iff_example =
    emptied_directories_iff clean installed whole (codes "D:\\Empty" ∷ []) (codes "D:\\Empty" ∷ [])
      files_are_covered refl refl

abbrev added_file : FileChange
added_file = record {
  path = a_file.path;
  kind = added;
  signer = some (codes "S");
  is_driver_image = true;
  before = none;
  after = some a_file;
  fields = [];
}

file_is_listed : Memᴰ added_file (compare_files [] installed.files)
unfolding any ascii_lower replace text_eq ends_with contains_text insert get insert_key collect
    filter_map compare_with is_excluded_path is_driver_image excluded_path_fragments index_files
    file_change compare_files starts_with to_lower
file_is_listed = Memᴰ.head refl

compare_files-IsOutside_example :
    (is_excluded_path a_file.path ≡ false) × IsOutsideIfAny none × IsOutsideIfAny (some a_file)
compare_files-IsOutside_example =
    compare_files-IsOutside [] installed.files added_file file_is_listed

abbrev added_key : RegistryChange
added_key = record {
  key = a_key.key;
  view = a_key.view;
  kind = added;
  before = none;
  after = some a_key;
  fields = [];
}

key_is_listed : Memᴰ added_key (compare_registry current [] installed.registry)
unfolding any ascii_lower starts_with eq_ignore_case trim text_eq contains_text insert get
    insert_key collect filter_map compare_with retain personal_identity_value_names
    excluded_key_fragments hardware_identity_terms is_hardware_identity is_personal_identity_value
    is_excluded_key current refusal is_admitted refused_values admit insert_admitted admitted_index
    registry_change compare_registry to_lower trim_matches trim_end trim_start is_whitespace
key_is_listed = Memᴰ.head refl

compare_registry-IsAdmitted_example :
    IsAdmittedIfAny current none × IsAdmittedIfAny current (some a_key)
compare_registry-IsAdmitted_example =
    compare_registry-IsAdmitted current [] installed.registry added_key key_is_listed

abbrev grown_file : FileRecord
grown_file = record a_file { size = 2 }

file_field_changes_iff_example : (file_field_changes a_file grown_file ≡ []) ↔ (
    (a_file.size ≡ grown_file.size)
    × (or_blank a_file.sha256 ≡ or_blank grown_file.sha256)
    × (or_blank a_file.signer ≡ or_blank grown_file.signer))
file_field_changes_iff_example = file_field_changes_iff a_file grown_file

abbrev a_diff : Diff
a_diff = compare_supported clean installed standard

refilter-IsAdmitted_example :
    ((change : RegistryChange)
      → Memᴰ change (refilter current a_diff).0.registry
      → IsAdmittedIfAny current change.before × IsAdmittedIfAny current change.after)
    × ((change : FileChange)
        → Memᴰ change (refilter current a_diff).0.files
        → is_excluded_path change.path ≡ false)
    × ((entry : Suppressed FileChange)
        → Memᴰ entry (refilter current a_diff).0.suppressed_files
        → is_excluded_path entry.change.path ≡ false)
refilter-IsAdmitted_example = refilter-IsAdmitted current a_diff
