-- ===== src/Scan/Environment.antt =====
-- core/src/scan/engine.rs: `Environment`, the values that a machine has for a template's variables.
pub mod Lookup
use wardsweep.Base.{Option, none, some, List, [], ◌∷◌, ◌++◌, if◌then◌else◌, head_or}
use wardsweep.Text.Chars.{Text}
use wardsweep.Text.{codes, ascii_upper, text_eq}

-- The map of values is an association list without a second entry for a name.
pub record Environment : Type 0 where
  pub values : List (Text × List Text)
  pub unreadable : List (Text × Text)

unfoldable pub empty : Environment
empty = record { values = []; unreadable = [] }

-- `BTreeMap::insert` and `BTreeMap::get`
unfoldable pub insert : Text → List Text → List (Text × List Text) → List (Text × List Text)
insert name values [] = (name, values) ∷ []
insert name values ((key, old) ∷ entries) =
    if text_eq key name then (key, values) ∷ entries else (key, old) ∷ insert name values entries

unfoldable pub get : Text → List (Text × List Text) → Option (List Text)
get name [] = none
get name ((key, values) ∷ entries) = if text_eq key name then some values else get name entries

unfoldable pub with_values : Text → List Text → Environment → Environment
with_values name values environment = record environment {
  values = insert (ascii_upper name) values environment.values;
}

unfoldable pub with_unreadable : Text → Text → Environment → Environment
with_unreadable item reason environment = record environment {
  unreadable = environment.unreadable ++ ((item, reason) ∷ []);
}

unfoldable pub lookup : Environment → Text → Option (List Text)
lookup environment name = get (ascii_upper name) environment.values

abbrev pub first_or : Text → Option (List Text) → Text
first_or default none = default
first_or default (some values) = head_or default values

unfoldable pub system_root : Environment → Text
system_root environment = first_or (codes "C:\\Windows") (lookup environment (codes "SystemRoot"))
