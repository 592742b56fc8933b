-- ===== src/Observe/Diff/Reversed/Twice.antt =====
-- tools/observe/src/diff.rs: reading a diff the other way round twice.
use mathlib.Core.List.{Memᴰ}
use wardsweep.Observe.Coverage.{covers, intersect}
use wardsweep.Base.{Bool-cases, subst, ◌≡◌, refl, Option, none, some, List, [], ◌∷◌, map, inl, inr}
use wardsweep.Text.Chars.{Text}
use wardsweep.Observe.Index.Laws.{Mem-compare_with_origin}
use wardsweep.Observe.Model.{ServiceRecord, FileRecord, Snapshot, Coverage, services, filesystem}
use wardsweep.Observe.Diff.Types.{
  ChangeKind, added, removed, modified, FieldChange, ServiceChange, FileChange, RegistryChange,
  text_order,
}
use wardsweep.Observe.Diff.Filter.{NoiseFilter, file_rule_for, kept, moved_aside}
use wardsweep.Observe.Diff.Filter.Sift.{Mem-kept, Mem-moved_aside}
use wardsweep.Observe.Diff.Services.{modified_service, service_change, compare_services}
use wardsweep.Observe.Diff.Files.{modified_file, file_change, compare_files}
use wardsweep.Observe.Diff.Compare.{
  changed_services, changed_files, compare_supported, without_excluded_denials,
}
use wardsweep.Observe.Diff.Reversed.{
  reversed_kind, reversed_field, later, map_or, reversed_service, reversed_file, reversed_registry,
  reversed_entry, reversed,
}

-- A change that is the same when it is reversed twice.
abbrev IsReversible : {C : Type 0} → (C → C) → C → Type 0
IsReversible reverse change = reverse (reverse change) ≡ change

map_twice :
    {C : Type 0} (reverse : C → C) (changes : List C)
    → ((change : C) → Memᴰ change changes → IsReversible reverse change)
    → map reverse (map reverse changes) ≡ changes
map_twice reverse [] h = refl
map_twice reverse (change ∷ changes) h =
    rw (h change (Memᴰ.head refl), map_twice reverse changes (λ other m. h other (Memᴰ.tail m)))
      refl

fields_twice : (fields : List FieldChange) → map reversed_field (map reversed_field fields) ≡ fields
unfolding reversed_field
fields_twice fields = map_twice reversed_field fields (λ field m. refl)

-- Of a change that there may be.
abbrev AllReversible : {C : Type 0} → (C → C) → Option C → Type 0
AllReversible reverse none = Unit {0}
AllReversible reverse (some change) = IsReversible reverse change

modified_service-AllReversible :
    (name : Text) (old new : ServiceRecord) (fields : List FieldChange)
    → AllReversible reversed_service (modified_service name old new fields)
unfolding modified_service reversed_service reversed_kind later map_or
modified_service-AllReversible name old new [] = tt
modified_service-AllReversible name old new (field ∷ fields) =
    rw (fields_twice (field ∷ fields)) refl

service_change-AllReversible :
    (name : Text) (was now : Option ServiceRecord)
    → AllReversible reversed_service (service_change name was now)
unfolding service_change reversed_service reversed_kind later map_or
service_change-AllReversible name none none = tt
service_change-AllReversible name none (some new) = refl
service_change-AllReversible name (some old) none = refl
service_change-AllReversible name (some old) (some new) =
    modified_service-AllReversible name old new _

modified_file-AllReversible :
    (old new : FileRecord) (fields : List FieldChange)
    → AllReversible reversed_file (modified_file old new fields)
unfolding modified_file reversed_file reversed_kind later map_or
modified_file-AllReversible old new [] = tt
modified_file-AllReversible old new (field ∷ fields) = rw (fields_twice (field ∷ fields)) refl

file_change-AllReversible :
    (path : Text) (was now : Option FileRecord)
    → AllReversible reversed_file (file_change path was now)
unfolding file_change reversed_file reversed_kind later map_or
file_change-AllReversible path none none = tt
file_change-AllReversible path none (some new) = refl
file_change-AllReversible path (some old) none = refl
file_change-AllReversible path (some old) (some new) = modified_file-AllReversible old new _

reversed_kind_twice : (kind : ChangeKind) → reversed_kind (reversed_kind kind) ≡ kind
unfolding reversed_kind
reversed_kind_twice added = refl
reversed_kind_twice removed = refl
reversed_kind_twice modified = refl

reversed_registry_twice : (change : RegistryChange) → IsReversible reversed_registry change
unfolding reversed_registry
reversed_registry_twice change =
    rw (reversed_kind_twice change.kind, fields_twice change.fields) refl

compare_services-IsReversible :
    (before after : List ServiceRecord) (filter : NoiseFilter) (change : ServiceChange)
    → Memᴰ change (compare_services before after filter)
    → IsReversible reversed_service change
unfolding compare_services
compare_services-IsReversible before after filter change m =
    let (key, e) = Mem-compare_with_origin service_change _ _ change m in
    subst (AllReversible reversed_service) e (service_change-AllReversible key _ _)

compare_files-IsReversible :
    (before after : List FileRecord) (change : FileChange)
    → Memᴰ change (compare_files before after)
    → IsReversible reversed_file change
unfolding compare_files
compare_files-IsReversible before after change m =
    let (key, e) = Mem-compare_with_origin file_change _ _ change m in
    subst (AllReversible reversed_file) e (file_change-AllReversible key _ _)

changed_services-IsReversible :
    (before after : Snapshot) (coverage : Coverage) (filter : NoiseFilter) (change : ServiceChange)
    → Memᴰ change (changed_services before after coverage filter)
    → IsReversible reversed_service change
unfolding changed_services
changed_services-IsReversible before after coverage filter change m =
    elim (Bool-cases (covers coverage services)) [
      | inl covered ↦
          compare_services-IsReversible before.services after.services filter change
            (rw covered at m)
      | inr not_covered ↦ elim (rw not_covered at m) [ ]
    ]

changed_files-IsReversible :
    (before after : Snapshot) (coverage : Coverage) (change : FileChange)
    → Memᴰ change (changed_files before after coverage)
    → IsReversible reversed_file change
unfolding changed_files
changed_files-IsReversible before after coverage change m =
    elim (Bool-cases (covers coverage filesystem)) [
      | inl covered ↦ compare_files-IsReversible before.files after.files change (rw covered at m)
      | inr not_covered ↦ elim (rw not_covered at m) [ ]
    ]

module _ {C : Type 0} (reverse : C → C) (rule : C → Option Text) (changes : List C)
    (reversible : (change : C) → Memᴰ change changes → IsReversible reverse change) where
  kept_twice : map reverse (map reverse (kept rule changes)) ≡ kept rule changes
  kept_twice = map_twice reverse _ (λ change m. reversible change (Mem-kept rule change changes m))

  moved_aside_twice :
      map (reversed_entry reverse) (map (reversed_entry reverse) (moved_aside rule changes))
      ≡ moved_aside rule changes
  unfolding reversed_entry
  moved_aside_twice =
      map_twice (reversed_entry reverse) _
        (λ entry m. rw (reversible entry.change (Mem-moved_aside rule entry changes m)) refl)

-- The coverage that `compare` works with.
abbrev shared : Snapshot → Snapshot → Coverage
shared before after = without_excluded_denials (intersect before.coverage after.coverage)

-- A diff that `compare` made is the same when it is reversed twice: the flags and the signers that
-- `reversed` reads again from the records come back as they were, and so do the lists of emptied and of
-- formerly empty directories and keys, which change places.
pub reversed-compare_supported_twice :
    (before after : Snapshot) (filter : NoiseFilter)
    → reversed (reversed (compare_supported before after filter))
      ≡ compare_supported before after filter
unfolding reversed compare_supported
reversed-compare_supported_twice before after filter =
    rw
      (
        kept_twice reversed_service _ _
            (changed_services-IsReversible before after (shared before after) filter),
        moved_aside_twice reversed_service _ _
            (changed_services-IsReversible before after (shared before after) filter),
        kept_twice reversed_file (file_rule_for filter) _
            (changed_files-IsReversible before after (shared before after)),
        moved_aside_twice reversed_file (file_rule_for filter) _
            (changed_files-IsReversible before after (shared before after)),
        map_twice reversed_registry _ (λ change m. reversed_registry_twice change),
      )
      refl
