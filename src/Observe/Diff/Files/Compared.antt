-- ===== src/Observe/Diff/Files/Compared.antt =====
-- tools/observe/src/diff.rs: when two records of a file are the same to a diff.
use wardsweep.Base.{◌≡◌, ◌↔◌, refl, sym, ap, inl, inr, Bool-cases, List, [], ◌∷◌, ◌++◌}
use wardsweep.Text.Chars.{Text}
use wardsweep.Text.{text_eq}
use wardsweep.Text.Laws.Case.{text_eq_refl, eq_of_text_eq}
use wardsweep.Text.Search.{decimal}
use wardsweep.Text.Search.Decimal.{decimal_injective}
use wardsweep.Observe.Model.{FileRecord}
use wardsweep.Observe.Diff.Types.{FieldChange, compare_field}
use wardsweep.Observe.Diff.Files.{or_blank, unless_none, file_field_changes}

compare_field_iff : (field was now : Text) → (compare_field field was now ≡ []) ↔ (was ≡ now)
unfolding compare_field
compare_field_iff field was now = (
  λ e. elim (Bool-cases (text_eq was now)) [
    | inl same ↦ eq_of_text_eq was now same
    | inr differ ↦ cc (rw differ at e)
  ],
  λ e. rw (sym e, text_eq_refl was) refl,
)

append_iff : {A : Type 0} (xs ys : List A) → ((xs ++ ys) ≡ []) ↔ ((xs ≡ []) × (ys ≡ []))
append_iff [] ys = (λ e. (refl, e), λ (e, f). f)
append_iff (x ∷ xs) ys = (λ e. cc e, λ (e, f). cc e)

unless_none_iff : (fields more : List FieldChange) → (unless_none fields more ≡ []) ↔ (fields ≡ [])
unless_none_iff [] more = (λ e. refl, λ e. refl)
unless_none_iff (field ∷ fields) more = (λ e. cc e, λ e. cc e)

-- Two records of a file are the same to a diff exactly when they agree in size, in hash and in signer, where
-- one that is not recorded counts as an empty text: a new time of modification alone is no change.
pub file_field_changes_iff :
    (before after : FileRecord)
    → (file_field_changes before after ≡ []) ↔ (
        (before.size ≡ after.size)
        × (or_blank before.sha256 ≡ or_blank after.sha256)
        × (or_blank before.signer ≡ or_blank after.signer))
unfolding file_field_changes
file_field_changes_iff before after = (
  λ e.
      let (size, rest) = (append_iff _ _).0 ((unless_none_iff _ _).0 e) in
      let (sha256, signer) = (append_iff _ _).0 rest in
      (
        decimal_injective before.size after.size ((compare_field_iff _ _ _).0 size),
        (compare_field_iff _ _ _).0 sha256,
        (compare_field_iff _ _ _).0 signer,
      ),
  λ (size, sha256, signer). (unless_none_iff _ _).1 (
      (append_iff _ _).1 (
        (compare_field_iff _ _ _).1 (ap decimal size),
        (append_iff _ _).1 ((compare_field_iff _ _ _).1 sha256, (compare_field_iff _ _ _).1 signer),
      )),
)
