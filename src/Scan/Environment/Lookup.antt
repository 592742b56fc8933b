-- ===== src/Scan/Environment/Lookup.antt =====
-- core/src/scan/engine.rs: a variable's name is read up to case.
use wardsweep.Base.{
  Bool, true, false, Option, head_or, ap, ◌∙◌, ◌≡◌, refl, some, List, [], ◌∷◌, arith, if◌then◌else◌,
  Bool-cases, inl, inr,
}
use wardsweep.Text.Chars.{Text}
use wardsweep.Text.{codes, text_eq, ascii_upper, eq_ignore_case}
use wardsweep.Text.Laws.Case.{text_eq_refl, eq_of_text_eq, eq_ignore_case_iff}
use wardsweep.Scan.Environment.{
  Environment, insert, get, with_values, lookup, first_or, system_root,
}

get-insert :
    (name other : Text) (values : List Text) (entries : List (Text × List Text))
    → get other (insert name values entries)
      ≡ (if text_eq name other then some values else get other entries)
unfolding get insert
get-insert name other values [] = refl
get-insert name other values ((key, old) ∷ entries) = elim (Bool-cases (text_eq key name)) [
  | inl same ↦ rw (same, eq_of_text_eq key name same) (ground arith)
  | inr differ ↦ rw differ (
      ground (
        arith,
        get-insert name other values entries,
        eq_of_text_eq name other,
        eq_of_text_eq key other,
        text_eq_refl other,
      ))
]

-- The key that the map holds tells two names apart as `eq_ignore_ascii_case` does.
eq_ignore_case-eq_upper :
    (t u : Text) → text_eq (ascii_upper t) (ascii_upper u) ≡ eq_ignore_case t u
eq_ignore_case-eq_upper t u = ground (
  arith,
  (eq_ignore_case_iff t u).0,
  (eq_ignore_case_iff t u).1,
  eq_of_text_eq (ascii_upper t) (ascii_upper u),
  text_eq_refl (ascii_upper u),
)

found_by :
    (name other : Text) (values : List Text) (environment : Environment)
    → lookup (with_values name values environment) other
      ≡ (if eq_ignore_case name other then some values else lookup environment other)
unfolding lookup with_values
found_by name other values environment =
    rw (get-insert (ascii_upper name) (ascii_upper other) values environment.values)
      (rw (eq_ignore_case-eq_upper name other))

first_or_if :
    (b : Bool) (default : Text) (values : List Text) (before : Option (List Text))
    → first_or default (if b then some values else before)
      ≡ (if b then head_or default values else first_or default before)
first_or_if true default values before = refl
first_or_if false default values before = refl

kept_unreadable :
    (name : Text) (values : List Text) (environment : Environment)
    → (with_values name values environment).unreadable ≡ environment.unreadable
unfolding with_values
kept_unreadable name values environment = refl

-- What is stored under a name is found under every spelling of it up to ASCII case: looking a name up after
-- `with` finds the new values if the two names are the same up to case, and what was there before if not.
-- The first value under a spelling of `SystemRoot` becomes the system root, and no other name moves it. The
-- list of what could not be read stays as it was.
pub lookup-with_values :
    (name other : Text) (values : List Text) (environment : Environment)
    → (lookup (with_values name values environment) other
        ≡ (if eq_ignore_case name other then some values else lookup environment other))
      × (system_root (with_values name values environment) ≡ (
          if eq_ignore_case name (codes "SystemRoot")
          then head_or (codes "C:\\Windows") values
          else system_root environment))
      × ((with_values name values environment).unreadable ≡ environment.unreadable)
unfolding system_root
lookup-with_values name other values environment = (
  found_by name other values environment,
  ap (first_or (codes "C:\\Windows")) (found_by name (codes "SystemRoot") values environment)
      ∙ first_or_if (eq_ignore_case name (codes "SystemRoot")) _ _ _,
  kept_unreadable name values environment,
)
