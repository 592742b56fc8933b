-- ===== src/Observe/Diff/Services.antt =====
-- tools/observe/src/diff.rs: `compare_services`.
pub mod Keyed
use wardsweep.Base.{
  ℕ, suc, Bool, true, false, Option, none, some, List, [], ◌∷◌, ◌++◌, any, ltb, if◌then◌else◌,
  is_nil,
}
use wardsweep.Text.Chars.{Text}
use wardsweep.Text.{codes, text_eq}
use wardsweep.Text.Search.{rsplit_once_at, strip_suffix, join}
use wardsweep.Observe.Index.{Index, insert, get, collect, compare_with}
use wardsweep.Observe.Model.{ServiceRecord}
use wardsweep.Observe.Model
use wardsweep.Observe.Diff.Types.{
  added, removed, modified, FieldChange, ServiceChange, compare_field, text_order,
}
use wardsweep.Observe.Diff.Filter.{NoiseFilter, canonical_name}

abbrev pub or_zero : Option ℕ → ℕ
or_zero none = 0
or_zero (some n) = n

-- How many records of a snapshot have each template name.
unfoldable pub counts : NoiseFilter → Index Text ℕ → List ServiceRecord → Index Text ℕ
counts filter sofar [] = sofar
counts filter sofar (record_ ∷ records) =
    let name = canonical_name filter record_.name in
    counts filter (insert name (suc (or_zero (get name sofar))) sofar) records

unfoldable pub more_than_one : Index Text ℕ → List Text
more_than_one [] = []
more_than_one ((name, count) ∷ entries) =
    if ltb 1 count then name ∷ more_than_one entries else more_than_one entries

-- The template names that are ambiguous on either side.
unfoldable pub crowded : NoiseFilter → List ServiceRecord → List ServiceRecord → List Text
crowded filter before after =
    collect (more_than_one (counts filter [] before) ++ more_than_one (counts filter [] after))

-- The closure `key`.
unfoldable pub service_key : NoiseFilter → List Text → Text → Text
service_key filter ambiguous name =
    let canonical = canonical_name filter name in
    if any (λ other. text_eq other canonical) ambiguous then name else canonical

-- The closure `index`: `collect` into a map, where a later record replaces an earlier one.
unfoldable pub index_services :
    NoiseFilter
    → List Text
    → Index Text ServiceRecord
    → List ServiceRecord
    → Index Text ServiceRecord
index_services filter ambiguous sofar [] = sofar
index_services filter ambiguous sofar (record_ ∷ records) =
    index_services filter ambiguous
      (insert (service_key filter ambiguous record_.name) record_ sofar) records

abbrev pub rest_or : Text → Option Text → Text
rest_or display none = display
rest_or display (some rest) = rest

abbrev pub strip_from : Option Text → Text → Option Text
strip_from none suffix = none
strip_from (some rest) suffix = strip_suffix rest suffix

unfoldable pub without_suffix : Text → Option (Text × Text) → Text
without_suffix display none = display
without_suffix display (some (stem, suffix)) =
    rest_or display (strip_from (strip_suffix display suffix) (codes "_"))

unfoldable pub without_instance_suffix : Text → Text → Text
without_instance_suffix display service =
    without_suffix display (rsplit_once_at (codes "_") service)

abbrev pub shown : Bool → Text
shown true = codes "true"
shown false = codes "false"

unfoldable pub display_of : ServiceRecord → ServiceRecord → Text
display_of record_ other =
    if text_eq record_.name other.name
    then record_.display_name
    else without_instance_suffix record_.display_name record_.name

unfoldable pub field_changes : ServiceRecord → ServiceRecord → List FieldChange
field_changes before after =
    compare_field (codes "display_name") (display_of before after) (display_of after before)
    ++ (compare_field (codes "service_type") before.service_type after.service_type
        ++ (compare_field (codes "start_type") before.start_type after.start_type
            ++ (compare_field (codes "error_control") before.error_control after.error_control
                ++ (compare_field (codes "binary_path") before.binary_path after.binary_path
                    ++ (compare_field (codes "load_order_group") before.load_order_group
                          after.load_order_group
                        ++ (compare_field (codes "start_name") before.start_name after.start_name
                            ++ (compare_field (codes "description") before.description
                                  after.description
                                ++ (compare_field (codes "dependencies")
                                      (join (codes ";") before.dependencies)
                                      (join (codes ";") after.dependencies)
                                    ++ compare_field (codes "delayed_auto_start")
                                        (shown before.delayed_auto_start)
                                        (shown after.delayed_auto_start)))))))))

unfoldable pub modified_service :
    Text → ServiceRecord → ServiceRecord → List FieldChange → Option ServiceChange
modified_service name old new [] = none
modified_service name old new (field ∷ fields) = some (record {
  name = name;
  kind = modified;
  is_driver = Model.is_driver new;
  is_boot_start = Model.is_boot_start new;
  before = some old;
  after = some new;
  fields = field ∷ fields;
})

-- The `match` on the two records under a name.
unfoldable pub service_change :
    Text → Option ServiceRecord → Option ServiceRecord → Option ServiceChange
service_change name none none = none
service_change name none (some new) = some (record {
  name = name;
  kind = added;
  is_driver = Model.is_driver new;
  is_boot_start = Model.is_boot_start new;
  before = none;
  after = some new;
  fields = [];
})
service_change name (some old) none = some (record {
  name = name;
  kind = removed;
  is_driver = Model.is_driver old;
  is_boot_start = Model.is_boot_start old;
  before = some old;
  after = none;
  fields = [];
})
service_change name (some old) (some new) = modified_service name old new (field_changes old new)

unfoldable pub compare_services :
    List ServiceRecord → List ServiceRecord → NoiseFilter → List ServiceChange
compare_services before after filter =
    let ambiguous = crowded filter before after in
    compare_with service_change (index_services filter ambiguous [] before)
      (index_services filter ambiguous [] after)
