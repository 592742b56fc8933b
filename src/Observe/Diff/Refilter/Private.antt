-- ===== src/Observe/Diff/Refilter/Private.antt =====
-- tools/observe/src/diff.rs: what a refiltered diff holds no more.
use mathlib.Core.List.{Memᴰ}
use wardsweep.Base.{
  ◌≡◌, subst, inl, inr, Bool, Bool-cases, true, false, not, ◌&&◌, Option, none, some, length, ◌==◌,
  ==_iff, is_nil, arith, and-eq_true,
}
use wardsweep.Scan.Libraries.{retain}
use wardsweep.Scan.Libraries.Retain.{Mem-retain, none_refused}
use wardsweep.Observe.Index.Laws.{Mem-filter_map_origin}
use wardsweep.Observe.Model.{RegistryRecord}
use wardsweep.Observe.Policy.{
  Policy, Admission, dropped, borrowed, owned, admit, is_admitted, refused_values, is_excluded_key,
  is_excluded_path,
}
use wardsweep.Observe.Diff.Types.{RegistryChange, FileChange, Suppressed, Diff}
use wardsweep.Observe.Diff.Registry.Admitted.{
  IsAdmitted, IsAdmittedIfAny, AdmissionIsAdmitted, admit-IsAdmitted, ChangeIsAdmitted,
  registry_change-ChangeIsAdmitted,
}
use wardsweep.Observe.Diff.Refilter.{
  is_borrowed, untouched_record, untouched, admitted_record, admit_owned, refiltered_change,
  without_excluded_files, refilter, is_upgrading,
}

is_borrowed-IsAdmitted :
    (policy : Policy) (record_ : RegistryRecord)
    → is_borrowed (admit policy record_) ≡ true
    → IsAdmitted policy record_
unfolding admit refused_values is_borrowed
is_borrowed-IsAdmitted policy record_ e = elim (Bool-cases (is_excluded_key record_.key)) [
  | inl excluded ↦ cc (rw excluded at e)
  | inr outside ↦
      elim (Bool-cases
        (length (retain (λ value. not (is_admitted policy value)) record_.values) == 0)) [
          | inl whole ↦ (
            outside,
            λ value. none_refused (is_admitted policy) record_.values ((==_iff _ 0).0 whole) value,
          )
          | inr cut ↦ elim (Bool-cases (is_nil (retain (is_admitted policy) record_.values))) [
            | inl nothing ↦ cc (rw (outside, cut, nothing) at e)
            | inr something ↦ cc (rw (outside, cut, something) at e)
          ]
        ]
]

untouched_record-IsAdmitted :
    (policy : Policy) (record_ : Option RegistryRecord)
    → untouched_record policy record_ ≡ true
    → IsAdmittedIfAny policy record_
unfolding untouched_record
untouched_record-IsAdmitted policy none e = tt
untouched_record-IsAdmitted policy (some record_) e = is_borrowed-IsAdmitted policy record_ e

admitted_record-IsAdmitted :
    (policy : Policy) (admission : Admission)
    → AdmissionIsAdmitted policy admission
    → IsAdmittedIfAny policy (admitted_record admission)
unfolding admitted_record
admitted_record-IsAdmitted policy dropped h = tt
admitted_record-IsAdmitted policy (borrowed record_) h = h
admitted_record-IsAdmitted policy (owned record_ refused) h = h

admit_owned-IsAdmitted :
    (policy : Policy) (record_ : Option RegistryRecord)
    → IsAdmittedIfAny policy (admit_owned policy record_)
unfolding admit_owned
admit_owned-IsAdmitted policy none = tt
admit_owned-IsAdmitted policy (some record_) =
    admitted_record-IsAdmitted policy (admit policy record_) (admit-IsAdmitted policy record_)

refiltered_change-ChangeIsAdmitted :
    (policy : Policy) (upgrading : Bool) (change : RegistryChange)
    → ChangeIsAdmitted policy (refiltered_change policy upgrading change)
unfolding refiltered_change untouched
refiltered_change-ChangeIsAdmitted policy upgrading change =
    elim (Bool-cases (not upgrading && untouched policy change)) [
      | inl stays ↦
          let (before, after) = and-eq_true _ _ (and-eq_true _ _ stays).1 in
          rw stays (
            untouched_record-IsAdmitted policy change.before before,
            untouched_record-IsAdmitted policy change.after after,
          )
      | inr rebuilt ↦ rw rebuilt (
          registry_change-ChangeIsAdmitted policy (change.key, change.view) _ _
            (admit_owned-IsAdmitted policy change.before)
            (admit_owned-IsAdmitted policy change.after))
    ]

-- After `refilter`, whatever the diff held before: no registry change shows a record under an excluded key
-- or with a refused value, and no file change is of an excluded path, neither among those that are listed
-- nor among those that are suppressed.
pub refilter-IsAdmitted :
    (policy : Policy) (diff : Diff)
    → ((change : RegistryChange)
        → Memᴰ change (refilter policy diff).0.registry
        → IsAdmittedIfAny policy change.before × IsAdmittedIfAny policy change.after)
      × ((change : FileChange)
          → Memᴰ change (refilter policy diff).0.files
          → is_excluded_path change.path ≡ false)
      × ((entry : Suppressed FileChange)
          → Memᴰ entry (refilter policy diff).0.suppressed_files
          → is_excluded_path entry.change.path ≡ false)
unfolding refilter without_excluded_files
refilter-IsAdmitted policy diff = (
  λ change m.
      let (from, e) = Mem-filter_map_origin _ change _ m in
      subst (ChangeIsAdmitted policy) e
        (refiltered_change-ChangeIsAdmitted policy (is_upgrading diff) from),
  λ change m. let (outside, there) = Mem-retain _ change _ m in ground (arith, outside),
  λ entry m. let (outside, there) = Mem-retain _ entry _ m in ground (arith, outside),
)
