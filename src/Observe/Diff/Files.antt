-- ===== src/Observe/Diff/Files.antt =====
-- tools/observe/src/diff.rs: `compare_files`.
pub mod Compared
pub mod Outside
use wardsweep.Base.{ℕ, suc, Bool, Option, none, some, List, [], ◌∷◌, ◌++◌, if◌then◌else◌}
use wardsweep.Text.Chars.{Text}
use wardsweep.Text.{codes, ascii_lower}
use wardsweep.Text.Search.{decimal}
use wardsweep.Observe.Index.{Index, insert, compare_with, get}
use wardsweep.Observe.Model.{FileRecord}
use wardsweep.Observe.Model
use wardsweep.Observe.Policy.{is_excluded_path}
use wardsweep.Observe.Diff.Types.{
  added, removed, modified, FieldChange, FileChange, compare_field, text_order,
}

-- The closure `index`, and the count that it adds to.
unfoldable pub index_files : Index Text FileRecord → List FileRecord → Index Text FileRecord
index_files sofar [] = sofar
index_files sofar (record_ ∷ records) =
    index_files
      (if is_excluded_path record_.path
        then sofar
        else insert (ascii_lower record_.path) record_ sofar)
      records

unfoldable pub excluded_files : List FileRecord → ℕ
excluded_files [] = 0
excluded_files (record_ ∷ records) =
    let rest = excluded_files records in if is_excluded_path record_.path then suc rest else rest

abbrev pub or_blank : Option Text → Text
or_blank none = []
or_blank (some text) = text

abbrev pub unless_none : List FieldChange → List FieldChange → List FieldChange
unless_none [] more = []
unless_none (field ∷ fields) more = (field ∷ fields) ++ more

unfoldable pub file_field_changes : FileRecord → FileRecord → List FieldChange
file_field_changes before after =
    unless_none
      (compare_field (codes "size") (decimal before.size) (decimal after.size)
        ++ (compare_field (codes "sha256") (or_blank before.sha256) (or_blank after.sha256)
            ++ compare_field (codes "signer") (or_blank before.signer) (or_blank after.signer)))
      (compare_field (codes "modified_utc") before.modified_utc after.modified_utc)

unfoldable pub modified_file : FileRecord → FileRecord → List FieldChange → Option FileChange
modified_file old new [] = none
modified_file old new (field ∷ fields) = some (record {
  path = new.path;
  kind = modified;
  signer = new.signer;
  is_driver_image = Model.is_driver_image new;
  before = some old;
  after = some new;
  fields = field ∷ fields;
})

unfoldable pub file_change : Text → Option FileRecord → Option FileRecord → Option FileChange
file_change path none none = none
file_change path none (some new) = some (record {
  path = new.path;
  kind = added;
  signer = new.signer;
  is_driver_image = Model.is_driver_image new;
  before = none;
  after = some new;
  fields = [];
})
file_change path (some old) none = some (record {
  path = old.path;
  kind = removed;
  signer = old.signer;
  is_driver_image = Model.is_driver_image old;
  before = some old;
  after = none;
  fields = [];
})
file_change path (some old) (some new) = modified_file old new (file_field_changes old new)

-- `compare_files` before the noise filter
unfoldable pub compare_files : List FileRecord → List FileRecord → List FileChange
compare_files before after = compare_with file_change (index_files [] before) (index_files [] after)
