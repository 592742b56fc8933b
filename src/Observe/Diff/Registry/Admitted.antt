-- ===== src/Observe/Diff/Registry/Admitted.antt =====
-- tools/observe/src/diff.rs and policy.rs: nothing that the policy refuses reaches a registry change.
use mathlib.Core.List.{Memᴰ}
use wardsweep.Base.{
  ◌≡◌, sym, subst, inl, inr, Bool, Bool-cases, true, false, not, Option, none, some, List, [], ◌∷◌,
  if◌then◌else◌, length, ◌==◌, ==_iff, is_nil,
}
use wardsweep.Text.Chars.{Text}
use wardsweep.Scan.Libraries.{retain}
use wardsweep.Scan.Libraries.Retain.{Mem-retain, none_refused}
use wardsweep.Observe.Index.{Index, insert, get}
use wardsweep.Observe.Index.Laws.{get-insert, Mem-compare_with_origin}
use wardsweep.Observe.Model.{RegistryValue, RegistryRecord}
use wardsweep.Observe.Policy.{
  Policy, Admission, dropped, borrowed, owned, admit, is_admitted, refused_values, is_excluded_key,
}
use wardsweep.Observe.Diff.Types.{FieldChange, RegistryChange, pair_order}
use wardsweep.Observe.Diff.Registry.{
  identity, insert_admitted, admitted_index, only_differing, modification_of, modification,
  registry_change, compare_registry, value_differences,
}

-- A record that the policy lets through whole: under a key that is not excluded, with no refused value.
abbrev pub IsAdmitted : Policy → RegistryRecord → Type 0
IsAdmitted policy record_ =
    (is_excluded_key record_.key ≡ false)
    × ((value : RegistryValue) → Memᴰ value record_.values → is_admitted policy value ≡ true)

-- Of a record that there may be.
abbrev pub IsAdmittedIfAny : Policy → Option RegistryRecord → Type 0
IsAdmittedIfAny policy none = Unit {0}
IsAdmittedIfAny policy (some record_) = IsAdmitted policy record_

-- What `admit` lets through.
abbrev pub AdmissionIsAdmitted : Policy → Admission → Type 0
AdmissionIsAdmitted policy dropped = Unit {0}
AdmissionIsAdmitted policy (borrowed record_) = IsAdmitted policy record_
AdmissionIsAdmitted policy (owned record_ refused) = IsAdmitted policy record_

pub admit-IsAdmitted :
    (policy : Policy) (record_ : RegistryRecord) → AdmissionIsAdmitted policy (admit policy record_)
unfolding admit refused_values
admit-IsAdmitted policy record_ = elim (Bool-cases (is_excluded_key record_.key)) [
  | inl excluded ↦ rw excluded tt
  | inr outside ↦
      elim (Bool-cases
        (length (retain (λ value. not (is_admitted policy value)) record_.values) == 0)) [
          | inl whole ↦
              rw (outside, whole)
                (
                  outside,
                  λ value.
                      none_refused (is_admitted policy) record_.values ((==_iff _ 0).0 whole) value,
                )
          | inr cut ↦ elim (Bool-cases (is_nil (retain (is_admitted policy) record_.values))) [
            | inl nothing ↦ rw (outside, cut, nothing) tt
            | inr something ↦
                rw (outside, cut, something)
                  (outside, λ value m. (Mem-retain (is_admitted policy) value record_.values m).0)
          ]
        ]
]

-- Every record of an index is one that the policy lets through.
abbrev IndexIsAdmitted : Policy → Index (Text × Text) RegistryRecord → Type 0
IndexIsAdmitted policy index = (at : Text × Text) → IsAdmittedIfAny policy (get at index)

insert-IndexIsAdmitted :
    (policy : Policy) (record_ : RegistryRecord) (index : Index (Text × Text) RegistryRecord)
    → IsAdmitted policy record_
    → IndexIsAdmitted policy index
    → IndexIsAdmitted policy (insert (identity record_) record_ index)
insert-IndexIsAdmitted policy record_ index h k at =
    subst (IsAdmittedIfAny policy) (sym (get-insert (identity record_) at record_ index))
      (either (pair_order.same at (identity record_)))
  where
    either : (b : Bool) → IsAdmittedIfAny policy (if b then some record_ else get at index)
    either true = h
    either false = k at

insert_admitted-IndexIsAdmitted :
    (policy : Policy) (admission : Admission) (index : Index (Text × Text) RegistryRecord)
    → AdmissionIsAdmitted policy admission
    → IndexIsAdmitted policy index
    → IndexIsAdmitted policy (insert_admitted admission index)
unfolding insert_admitted
insert_admitted-IndexIsAdmitted policy dropped index h k = k
insert_admitted-IndexIsAdmitted policy (borrowed record_) index h k =
    insert-IndexIsAdmitted policy record_ index h k
insert_admitted-IndexIsAdmitted policy (owned record_ refused) index h k =
    insert-IndexIsAdmitted policy record_ index h k

admitted_index-IndexIsAdmitted :
    (policy : Policy) (records : List RegistryRecord) (sofar : Index (Text × Text) RegistryRecord)
    → IndexIsAdmitted policy sofar
    → IndexIsAdmitted policy (admitted_index policy sofar records)
unfolding admitted_index
admitted_index-IndexIsAdmitted policy [] sofar h = h
admitted_index-IndexIsAdmitted policy (record_ ∷ records) sofar h =
    admitted_index-IndexIsAdmitted policy records (insert_admitted (admit policy record_) sofar) (
      insert_admitted-IndexIsAdmitted policy (admit policy record_) sofar
        (admit-IsAdmitted policy record_) h)

only_differing-IsAdmitted :
    (policy : Policy) (differing : List Text) (record_ : RegistryRecord)
    → IsAdmitted policy record_
    → IsAdmitted policy (only_differing differing record_)
unfolding only_differing
only_differing-IsAdmitted policy differing record_ (outside, h) =
    (outside, λ value m. h value (Mem-retain _ value record_.values m).1)

-- The two records of a change, those of them that there are.
abbrev pub ChangeIsAdmitted : Policy → Option RegistryChange → Type 0
ChangeIsAdmitted policy none = Unit {0}
ChangeIsAdmitted policy (some change) =
    IsAdmittedIfAny policy change.before × IsAdmittedIfAny policy change.after

modification_of-ChangeIsAdmitted :
    (policy : Policy) (old new : RegistryRecord) (differences : List Text × List FieldChange)
    → IsAdmitted policy old
    → IsAdmitted policy new
    → ChangeIsAdmitted policy (modification_of old new differences)
unfolding modification_of
modification_of-ChangeIsAdmitted policy old new (differing, []) h k = tt
modification_of-ChangeIsAdmitted policy old new (differing, field ∷ fields) h k = (
  only_differing-IsAdmitted policy differing old h,
  only_differing-IsAdmitted policy differing new k,
)

pub registry_change-ChangeIsAdmitted :
    (policy : Policy) (at : Text × Text) (was now : Option RegistryRecord)
    → IsAdmittedIfAny policy was
    → IsAdmittedIfAny policy now
    → ChangeIsAdmitted policy (registry_change at was now)
unfolding registry_change modification
registry_change-ChangeIsAdmitted policy at none none h k = tt
registry_change-ChangeIsAdmitted policy at none (some new) h k = (tt, k)
registry_change-ChangeIsAdmitted policy at (some old) none h k = (h, tt)
registry_change-ChangeIsAdmitted policy at (some old) (some new) h k =
    modification_of-ChangeIsAdmitted policy old new (value_differences old new) h k

-- No record that a registry change shows, before or after, is under a key that the policy excludes or has
-- a value that it refuses, whatever the two snapshots hold.
pub compare_registry-IsAdmitted :
    (policy : Policy) (before after : List RegistryRecord) (change : RegistryChange)
    → Memᴰ change (compare_registry policy before after)
    → IsAdmittedIfAny policy change.before × IsAdmittedIfAny policy change.after
unfolding compare_registry get
compare_registry-IsAdmitted policy before after change m =
    let (at, e) = Mem-compare_with_origin registry_change _ _ change m in
    subst (ChangeIsAdmitted policy) e (
      registry_change-ChangeIsAdmitted policy at _ _
        (admitted_index-IndexIsAdmitted policy before [] nothing at)
        (admitted_index-IndexIsAdmitted policy after [] nothing at))
  where
    nothing : IndexIsAdmitted policy []
    nothing at = tt
