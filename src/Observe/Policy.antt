-- ===== src/Observe/Policy.antt =====
-- tools/observe/src/policy.rs, and `is_excluded` of collect/filesystem.rs: what the harness refuses.
pub mod Tables
use wardsweep.Base.{
  ℕ, ◌+◌, Bool, true, false, ◌||◌, Option, none, some, List, [], ◌∷◌, ◌++◌, any, length, is_nil,
  ◌==◌, if◌then◌else◌, not,
}
use wardsweep.Text.Chars.{Text}
use wardsweep.Text.{codes, ascii_lower, starts_with, eq_ignore_case, trim, replace}
use wardsweep.Text.Search.{contains_text, rsplit_once_at, split_once_at}
use wardsweep.Scan.Libraries.{retain}
use wardsweep.Observe.Model.{RegistryValue, RegistryRecord}
use Tables.{
  personal_identity_value_names, excluded_key_fragments, excluded_path_fragments,
  hardware_identity_terms,
}

unfoldable pub is_hardware_identity : List Text → Text → Text → Bool
is_hardware_identity terms name value =
    if any (λ term. contains_text term (ascii_lower name)) terms
    then true
    else if starts_with (ascii_lower value) (codes "prop:")
    then false
    else any (λ term. contains_text term (ascii_lower value)) terms

unfoldable pub is_personal_identity_value : Text → Bool
is_personal_identity_value name =
    any (λ known. eq_ignore_case known (trim name)) personal_identity_value_names

-- `policy::is_excluded`, of a registry key
unfoldable pub is_excluded_key : Text → Bool
is_excluded_key key =
    let lowered = b'\\' ∷ (ascii_lower key ++ (b'\\' ∷ [])) in
    any (λ fragment. contains_text fragment lowered) excluded_key_fragments

-- `filesystem::is_excluded`
unfoldable pub is_excluded_path : Text → Bool
is_excluded_path path =
    let with_separator = replace b'/' b'\\' (ascii_lower path) ++ (b'\\' ∷ []) in
    any (λ fragment. contains_text fragment with_separator) excluded_path_fragments

pub data Refusal : Type 0 where
  hardware_identity personal_identity : Refusal

pub record Policy : Type 0 where
  pub terms : List Text

unfoldable pub current : Policy
current = record { terms = hardware_identity_terms }

unfoldable pub refusal : Policy → Text → Text → Option Refusal
refusal policy name value =
    if is_hardware_identity policy.terms name value
    then some hardware_identity
    else if is_personal_identity_value name
    then some personal_identity
    else none

abbrev pub is_none : {A : Type 0} → Option A → Bool
is_none none = true
is_none (some x) = false

unfoldable pub is_admitted : Policy → RegistryValue → Bool
is_admitted policy value = is_none (refusal policy value.name value.value)

-- A record is borrowed when nothing of it was refused, and owned when its values were cut down.
pub data Admission : Type 0 where
  dropped : Admission
  borrowed : RegistryRecord → Admission
  owned : RegistryRecord → ℕ → Admission

unfoldable pub refused_values : Policy → RegistryRecord → ℕ
refused_values policy record_ =
    length (retain (λ value. not (is_admitted policy value)) record_.values)

-- `Policy::admit`
unfoldable pub admit : Policy → RegistryRecord → Admission
admit policy record_ =
    let values = retain (is_admitted policy) record_.values in
    if is_excluded_key record_.key
    then dropped
    else if refused_values policy record_ == 0
    then borrowed record_
    else if is_nil values
    then dropped
    else owned (record { key = record_.key; view = record_.view; values = values })
        (refused_values policy record_)

abbrev pub before_or : Text → Option (Text × Text) → Text
before_or item none = item
before_or item (some (before, after)) = before

unfoldable pub excludes_denied_item : Text → Bool
excludes_denied_item item =
    let without_view = before_or item (rsplit_once_at (codes " [view ") item) in
    is_excluded_key (before_or without_view (split_once_at (codes " :: ") without_view))
