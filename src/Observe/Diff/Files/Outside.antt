-- ===== src/Observe/Diff/Files/Outside.antt =====
-- tools/observe/src/diff.rs: no file that this build excludes reaches a diff.
use mathlib.Core.List.{Memᴰ}
use wardsweep.Base.{
  ◌≡◌, sym, subst, inl, inr, Bool, Bool-cases, true, false, Option, none, some, List, [], ◌∷◌,
  if◌then◌else◌,
}
use wardsweep.Text.Chars.{Text}
use wardsweep.Text.{ascii_lower}
use wardsweep.Observe.Index.{Index, insert, get}
use wardsweep.Observe.Index.Laws.{get-insert, Mem-compare_with_origin}
use wardsweep.Observe.Model.{FileRecord}
use wardsweep.Observe.Policy.{is_excluded_path}
use wardsweep.Observe.Diff.Types.{FieldChange, FileChange, text_order}
use wardsweep.Observe.Diff.Files.{
  index_files, file_change, modified_file, file_field_changes, compare_files,
}

abbrev pub IsOutside : FileRecord → Type 0
IsOutside record_ = is_excluded_path record_.path ≡ false

-- Of a record that there may be.
abbrev pub IsOutsideIfAny : Option FileRecord → Type 0
IsOutsideIfAny none = Unit {0}
IsOutsideIfAny (some record_) = IsOutside record_

abbrev IndexIsOutside : Index Text FileRecord → Type 0
IndexIsOutside index = (at : Text) → IsOutsideIfAny (get at index)

insert-IndexIsOutside :
    (key : Text) (record_ : FileRecord) (index : Index Text FileRecord)
    → IsOutside record_
    → IndexIsOutside index
    → IndexIsOutside (insert key record_ index)
insert-IndexIsOutside key record_ index h k at =
    subst IsOutsideIfAny (sym (get-insert key at record_ index)) (either (text_order.same at key))
  where
    either : (b : Bool) → IsOutsideIfAny (if b then some record_ else get at index)
    either true = h
    either false = k at

index_files-IndexIsOutside :
    (records : List FileRecord) (sofar : Index Text FileRecord)
    → IndexIsOutside sofar
    → IndexIsOutside (index_files sofar records)
unfolding index_files
index_files-IndexIsOutside [] sofar h = h
index_files-IndexIsOutside (record_ ∷ records) sofar h =
    index_files-IndexIsOutside records
      (if is_excluded_path record_.path
        then sofar
        else insert (ascii_lower record_.path) record_ sofar)
      (elim (Bool-cases (is_excluded_path record_.path)) [
        | inl excluded ↦ rw excluded h
        | inr outside ↦
            rw outside (insert-IndexIsOutside (ascii_lower record_.path) record_ sofar outside h)
      ])

-- The two records of a change, those of them that there are, and its path.
abbrev ChangeIsOutside : Option FileChange → Type 0
ChangeIsOutside none = Unit {0}
ChangeIsOutside (some change) =
    (is_excluded_path change.path ≡ false)
    × IsOutsideIfAny change.before
    × IsOutsideIfAny change.after

modified_file-ChangeIsOutside :
    (old new : FileRecord) (fields : List FieldChange)
    → IsOutside old
    → IsOutside new
    → ChangeIsOutside (modified_file old new fields)
unfolding modified_file
modified_file-ChangeIsOutside old new [] h k = tt
modified_file-ChangeIsOutside old new (field ∷ fields) h k = (k, h, k)

file_change-ChangeIsOutside :
    (path : Text) (was now : Option FileRecord)
    → IsOutsideIfAny was
    → IsOutsideIfAny now
    → ChangeIsOutside (file_change path was now)
unfolding file_change
file_change-ChangeIsOutside path none none h k = tt
file_change-ChangeIsOutside path none (some new) h k = (k, tt, k)
file_change-ChangeIsOutside path (some old) none h k = (h, h, tt)
file_change-ChangeIsOutside path (some old) (some new) h k =
    modified_file-ChangeIsOutside old new (file_field_changes old new) h k

-- No file change is of a path that this build excludes, and neither is a record that it shows, whatever the
-- two snapshots hold.
pub compare_files-IsOutside :
    (before after : List FileRecord) (change : FileChange)
    → Memᴰ change (compare_files before after)
    → (is_excluded_path change.path ≡ false)
      × IsOutsideIfAny change.before
      × IsOutsideIfAny change.after
unfolding compare_files get
compare_files-IsOutside before after change m =
    let (at, e) = Mem-compare_with_origin file_change _ _ change m in
    subst ChangeIsOutside e (
      file_change-ChangeIsOutside at _ _ (index_files-IndexIsOutside before [] nothing at)
        (index_files-IndexIsOutside after [] nothing at))
  where
    nothing : IndexIsOutside []
    nothing at = tt
