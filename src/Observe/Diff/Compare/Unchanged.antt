-- ===== src/Observe/Diff/Compare/Unchanged.antt =====
-- tools/observe/src/diff.rs: a comparison of a snapshot with itself.
use wardsweep.Base.{◌≡◌, refl, Bool, true, false, Option, none, some, List, [], if◌then◌else◌}
use wardsweep.Text.Chars.{Text}
use wardsweep.Text.Laws.Case.{text_eq_refl}
use wardsweep.Observe.Index.Laws.{compare_with_self}
use wardsweep.Observe.Model.{ServiceRecord, FileRecord, RegistryRecord, Snapshot, Coverage}
use wardsweep.Observe.Policy.{Policy}
use wardsweep.Observe.Diff.Types.{compare_field, text_order, pair_order}
use wardsweep.Observe.Diff.Filter.{NoiseFilter}
use wardsweep.Observe.Diff.Filter.Sift.{kept-nothing, moved_aside-nothing}
use wardsweep.Observe.Diff.Services.{
  field_changes, modified_service, service_change, compare_services,
}
use wardsweep.Observe.Diff.Files.{file_field_changes, modified_file, file_change, compare_files}
use wardsweep.Observe.Diff.Registry.{
  value_change, value_differences, modification_of, modification, registry_change, compare_registry,
}
use wardsweep.Observe.Diff.Compare.{changed_services, changed_files, compare_supported}

compare_field_same : (field text : Text) → compare_field field text text ≡ []
unfolding compare_field
compare_field_same field text = rw (text_eq_refl text) refl

field_changes_same : (record_ : ServiceRecord) → field_changes record_ record_ ≡ []
unfolding field_changes
field_changes_same record_ = simp compare_field_same

service_change_same :
    (key : Text) (value : Option ServiceRecord) → service_change key value value ≡ none
unfolding service_change modified_service
service_change_same key none = refl
service_change_same key (some record_) = rw (field_changes_same record_) refl

compare_services_same :
    (records : List ServiceRecord) (filter : NoiseFilter)
    → compare_services records records filter ≡ []
unfolding compare_services
compare_services_same records filter = compare_with_self service_change _ service_change_same

file_field_changes_same : (record_ : FileRecord) → file_field_changes record_ record_ ≡ []
unfolding file_field_changes
file_field_changes_same record_ = simp compare_field_same

file_change_same : (key : Text) (value : Option FileRecord) → file_change key value value ≡ none
unfolding file_change modified_file
file_change_same key none = refl
file_change_same key (some record_) = rw (file_field_changes_same record_) refl

compare_files_same : (records : List FileRecord) → compare_files records records ≡ []
unfolding compare_files
compare_files_same records = compare_with_self file_change _ file_change_same

value_change_same : (name : Text) (value : Option Text) → value_change name value value ≡ none
unfolding value_change
value_change_same name none = refl
value_change_same name (some text) = rw (text_eq_refl text) refl

modification_same : (record_ : RegistryRecord) → modification record_ record_ ≡ none
unfolding modification value_differences modification_of
modification_same record_ = rw (compare_with_self value_change _ value_change_same) refl

registry_change_same :
    (at : Text × Text) (value : Option RegistryRecord) → registry_change at value value ≡ none
unfolding registry_change
registry_change_same at none = refl
registry_change_same at (some record_) = modification_same record_

compare_registry_same :
    (policy : Policy) (records : List RegistryRecord) → compare_registry policy records records ≡ []
unfolding compare_registry
compare_registry_same policy records = compare_with_self registry_change _ registry_change_same

if_same : {A : Type 0} (b : Bool) (x y : A) → x ≡ y → (if b then x else y) ≡ y
if_same true x y e = e
if_same false x y e = refl

changed_services_same :
    (snapshot : Snapshot) (coverage : Coverage) (filter : NoiseFilter)
    → changed_services snapshot snapshot coverage filter ≡ []
unfolding changed_services
changed_services_same snapshot coverage filter =
    if_same _ _ [] (compare_services_same snapshot.services filter)

changed_files_same :
    (snapshot : Snapshot) (coverage : Coverage) → changed_files snapshot snapshot coverage ≡ []
unfolding changed_files
changed_files_same snapshot coverage = if_same _ _ [] (compare_files_same snapshot.files)

-- A snapshot compared with itself reports no change of a service, a file or a registry key, and moves
-- nothing aside, whatever it holds and covers and whatever the filter.
pub compare_supported_unchanged :
    (snapshot : Snapshot) (filter : NoiseFilter)
    → let diff = compare_supported snapshot snapshot filter in
      (diff.services ≡ [])
      × (diff.suppressed ≡ [])
      × (diff.files ≡ [])
      × (diff.suppressed_files ≡ [])
      × (diff.registry ≡ [])
unfolding compare_supported
compare_supported_unchanged snapshot filter = (
  kept-nothing _ _ (changed_services_same snapshot _ filter),
  moved_aside-nothing _ _ (changed_services_same snapshot _ filter),
  kept-nothing _ _ (changed_files_same snapshot _),
  moved_aside-nothing _ _ (changed_files_same snapshot _),
  if_same _ _ [] (compare_registry_same _ snapshot.registry),
)
