-- ===== src/Observe/Diff/Registry.antt =====
-- tools/observe/src/diff.rs: `compare_registry`.
pub mod Admitted
use wardsweep.Base.{
  ℕ, suc, ◌+◌, Bool, Option, none, some, List, [], ◌∷◌, any, is_nil, if◌then◌else◌,
}
use wardsweep.Text.Chars.{Text}
use wardsweep.Text.{codes, ascii_lower, text_eq}
use wardsweep.Scan.Libraries.{retain}
use wardsweep.Observe.Index.{Index, insert, compare_with}
use wardsweep.Observe.Model.{RegistryRecord, RegistryValue, comparable}
use wardsweep.Observe.Policy.{Policy, Admission, dropped, borrowed, owned, admit}
use wardsweep.Observe.Diff.Types.{
  added, removed, modified, FieldChange, RegistryChange, text_order, pair_order,
}

abbrev pub identity : RegistryRecord → Text × Text
identity record_ = (ascii_lower record_.key, record_.view)

unfoldable pub insert_admitted :
    Admission → Index (Text × Text) RegistryRecord → Index (Text × Text) RegistryRecord
insert_admitted dropped sofar = sofar
insert_admitted (borrowed record_) sofar = insert (identity record_) record_ sofar
insert_admitted (owned record_ refused) sofar = insert (identity record_) record_ sofar

unfoldable pub admitted_index :
    Policy
    → Index (Text × Text) RegistryRecord
    → List RegistryRecord
    → Index (Text × Text) RegistryRecord
admitted_index policy sofar [] = sofar
admitted_index policy sofar (record_ ∷ records) =
    admitted_index policy (insert_admitted (admit policy record_) sofar) records

-- What `admitted_index` adds to the counts of records and values.
unfoldable pub admission_counts : Admission → ℕ × ℕ → ℕ × ℕ
admission_counts dropped (records, values) = (suc records, values)
admission_counts (borrowed record_) counted = counted
admission_counts (owned record_ refused) (records, values) = (records, values + refused)

unfoldable pub refused_counts : Policy → ℕ × ℕ → List RegistryRecord → ℕ × ℕ
refused_counts policy counted [] = counted
refused_counts policy counted (record_ ∷ records) =
    refused_counts policy (admission_counts (admit policy record_) counted) records

-- The values of a record by their names; of two with one name the later counts.
unfoldable pub values_by_name : Index Text Text → List RegistryValue → Index Text Text
values_by_name sofar [] = sofar
values_by_name sofar (value ∷ values) =
    values_by_name (insert value.name (comparable value) sofar) values

abbrev pub or_empty : Option Text → Text
or_empty none = []
or_empty (some text) = text

abbrev pub same_text : Option Text → Option Text → Bool
same_text none none = Bool.true
same_text none (some new) = Bool.false
same_text (some old) none = Bool.false
same_text (some old) (some new) = text_eq old new

-- One pass of the loop of `value_differences`.
unfoldable pub value_change : Text → Option Text → Option Text → Option FieldChange
value_change name was now =
    if same_text was now
    then none
    else some (record {
      field = if is_nil name then codes "(default)" else name;
      before = or_empty was;
      after = or_empty now;
    })

unfoldable pub differing_name : Text → Option Text → Option Text → Option Text
differing_name name was now = if same_text was now then none else some name

unfoldable pub value_differences : RegistryRecord → RegistryRecord → List Text × List FieldChange
value_differences before after =
    let old = values_by_name [] before.values in
    let new = values_by_name [] after.values in
    (compare_with differing_name old new, compare_with value_change old new)

unfoldable pub only_differing : List Text → RegistryRecord → RegistryRecord
only_differing differing record_ = record record_ {
  values = retain (λ value. any (λ name. text_eq name value.name) differing) record_.values;
}

unfoldable pub modification_of :
    RegistryRecord → RegistryRecord → List Text × List FieldChange → Option RegistryChange
modification_of old new (differing, []) = none
modification_of old new (differing, field ∷ fields) = some (record {
  key = new.key;
  view = new.view;
  kind = modified;
  before = some (only_differing differing old);
  after = some (only_differing differing new);
  fields = field ∷ fields;
})

unfoldable pub modification : RegistryRecord → RegistryRecord → Option RegistryChange
modification old new = modification_of old new (value_differences old new)

unfoldable pub registry_change :
    Text × Text → Option RegistryRecord → Option RegistryRecord → Option RegistryChange
registry_change at none none = none
registry_change at none (some new) = some (record {
  key = new.key;
  view = new.view;
  kind = added;
  before = none;
  after = some new;
  fields = [];
})
registry_change at (some old) none = some (record {
  key = old.key;
  view = old.view;
  kind = removed;
  before = some old;
  after = none;
  fields = [];
})
registry_change at (some old) (some new) = modification old new

unfoldable pub compare_registry :
    Policy → List RegistryRecord → List RegistryRecord → List RegistryChange
compare_registry policy before after =
    compare_with registry_change (admitted_index policy [] before) (admitted_index policy [] after)
