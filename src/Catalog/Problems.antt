-- ===== src/Catalog/Problems.antt =====
-- core/src/catalog/validate.rs: `Problem`. A location and a message keep the parts that the source
-- formats into one text: one constructor for each format string.
use wardsweep.Base.{ℕ, suc, ◌≡◌, refl, Option, none, some, List, [], ◌∷◌, ◌++◌, All}
use wardsweep.Text.Chars.{Text}
use wardsweep.Catalog.Schema.{LauncherUninstallKind}
use wardsweep.Catalog.Expand.{ExpandError}
use wardsweep.Paths.Canonical.{PathError, CanonicalPath}
use wardsweep.Paths.RegKey.{RegKeyError}
use wardsweep.Denylist.Check.{DenyReason}

pub data Section : Type 0 where
  anticheat game launcher : Section

pub data Location : Type 0 where
  top : Text → Location
  -- section[index] `id`
  entry : Section → ℕ → Text → Location
  -- section `id`
  owner : Section → Text → Location
  -- location.field
  field : Location → Text → Location
  -- location.field[index]
  item : Location → Text → ℕ → Location

pub data Message : Type 0 where
  unsupported_schema_version : ℕ → Message
  must_not_be_empty kernel_without_drivers critical_usermode bad_hash empty_service_name : Message
  driver_is_path driver_not_sys not_kebab_case wildcard : Text → Message
  exe_requires_command msi_requires_command none_carries_command : Message
  not_product_code : Text → Message
  launcher_requires_command : LauncherUninstallKind → Message
  not_a_registry_key relative_component trailing_dot_or_space : Text → Message
  save_outside_saves not_save_in_saves save_for_registry : Message
  cannot_expand : ExpandError → Message
  does_not_canonicalise : Text → PathError → Message
  bad_registry_key : RegKeyError → Message
  id_already_used : Section → Message
  unknown_anticheat unknown_launcher : Text → Message
  inbox_driver inbox_service : Text → Message
  unchecked_expansion : Text → ExpandError → Message
  unchecked_path : Text → PathError → Message
  denied_path : Text → CanonicalPath → DenyReason → Message
  unchecked_key : Text → RegKeyError → Message
  denied_key : Text → DenyReason → Message
  evidence_required too_few_titles no_observation : Message

pub record Problem : Type 0 where
  pub location : Location
  pub message : Message

-- The problems that a check pushes; `none` is a panic, which ends the run.
abbrev pub Checked : Type 0
Checked = Option (List Problem)

-- `problems.push(Problem::new(..))`
abbrev pub problem : Location → Message → Checked
problem at what = some (record { location = at; message = what } ∷ [])

abbrev pub nothing : Checked
nothing = some []

infixr 60 ◌⊕◌
abbrev pub ◌⊕◌ : Checked → Checked → Checked
none ⊕ later = none
some first ⊕ none = none
some first ⊕ some later = some (first ++ later)

-- `for (index, x) in xs.iter().enumerate()`, from an index on
unfoldable pub each : {A : Type 0} → ℕ → (ℕ → A → Checked) → List A → Checked
each index check [] = some []
each index check (x ∷ xs) = check index x ⊕ each (suc index) check xs

-- A run that found nothing found nothing in each part.
pub ⊕-eq_nil : (a b : Checked) → (a ⊕ b) ≡ some [] → (a ≡ some []) × (b ≡ some [])
⊕-eq_nil none b h = cc
⊕-eq_nil (some xs) none h = cc
⊕-eq_nil (some []) (some ys) h = (refl, h)
⊕-eq_nil (some (x ∷ xs)) (some ys) h = cc

pub each-eq_nil :
    {A : Type 0} (index : ℕ) (check : ℕ → A → Checked) (xs : List A)
    → each index check xs ≡ some []
    → All (λ x. (i : ℕ) × (check i x ≡ some [])) xs
unfolding each
each-eq_nil index check [] h = tt
each-eq_nil index check (x ∷ xs) h =
    let (here, later) = ⊕-eq_nil (check index x) (each (suc index) check xs) h in
    ((index, here), each-eq_nil (suc index) check xs later)

module _ {A : Type 0} (check : ℕ → A → Checked) (Safe : A → Type 0)
    (sound : (index : ℕ) (x : A) → check index x ≡ nothing → Safe x) where
  each-All : (xs : List A) → All (λ x. (i : ℕ) × (check i x ≡ some [])) xs → All Safe xs
  each-All [] h = tt
  each-All (x ∷ xs) h = (sound h.0.0 x h.0.1, each-All xs h.1)

  pub each-sound : (index : ℕ) (xs : List A) → each index check xs ≡ nothing → All Safe xs
  each-sound index xs h = each-All xs (each-eq_nil index check xs h)
