-- ===== src/Denylist/Check.antt =====
-- core/src/safety/denylist.rs: `check_path`. The log line that it writes is not modelled, so
-- `check_path` and `evaluate_path` are one function.
use wardsweep.Base.{
  ℕ, Bool, true, false, not, ◌&&◌, ◌||◌, Option, none, some, List, [], ◌∷◌, ltb, leb, ◌==◌,
  if◌then◌else◌, length, any, last, Outcome, ok, err,
}
use wardsweep.Text.Chars.{Text}
use wardsweep.Text
use wardsweep.Text.{codes, text_eq, eq_ignore_case}
use wardsweep.Paths.Canonical
use wardsweep.Paths.Canonical.{CanonicalPath, PathKind, is_drive_rooted}
use wardsweep.Denylist.Tables.Paths.{
  protected_top_level, container_top_level, library_leaves, steamapps_containers, user_hive_files,
  containers, windows_data,
}
use wardsweep.Denylist.Exceptions.{Exceptions, allows_driver_file}

pub data DenyReason : Type 0 where
  protected_system_path protected_top_level_directory protected_user_hive : DenyReason
  protected_program_data protected_container protected_windows_data : DenyReason
  volume_root too_shallow non_local_namespace eight_dot_three_unresolved : DenyReason
  reparse_point_in_path unresolved_at_execution : DenyReason
  protected_registry_hive protected_system_key protected_registry_key : DenyReason
  unknown_service_key registry_key_too_shallow : DenyReason

pub data Stage : Type 0 where
  catalog_load : Stage
  on_disk : Bool → Stage

abbrev pub Verdict : Type 0
Verdict = Outcome DenyReason (Unit {0})

abbrev pub allowed : Verdict
allowed = ok tt

abbrev pub min_components_under_drive_root : ℕ
min_components_under_drive_root = 2

-- `pattern.iter().zip(components).all(..)`
unfoldable pub zip_pattern : List Text → List Text → Bool
zip_pattern haves [] = true
zip_pattern [] (want ∷ wants) = true
zip_pattern (have ∷ haves) (want ∷ wants) =
    (text_eq want (codes "*") || eq_ignore_case have want) && zip_pattern haves wants

unfoldable pub starts_with_pattern : List Text → List Text → Bool
starts_with_pattern components pattern_ =
    leb (length pattern_) (length components) && zip_pattern components pattern_

unfoldable pub equals_pattern : List Text → List Text → Bool
equals_pattern components pattern_ =
    length components == length pattern_ && starts_with_pattern components pattern_

unfoldable pub is_named : List Text → Text → Bool
is_named names text = any (λ name. eq_ignore_case name text) names

abbrev pub last_two : List Text → Option (Text × Text)
last_two [] = none
last_two (x ∷ []) = none
last_two (x ∷ y ∷ []) = some (x, y)
last_two (x ∷ y ∷ z ∷ rest) = last_two (y ∷ z ∷ rest)

-- The `match` on the slice's end.
unfoldable pub is_library : List Text → Bool
is_library components =
    elim (last components) [ some leaf ↦ is_named library_leaves leaf | none ↦ false ]
    || elim (last_two components) [
      | some (steamapps, child) ↦
          eq_ignore_case steamapps (codes "STEAMAPPS") && is_named steamapps_containers child
      | none ↦ false
    ]

unfoldable pub is_container : List Text → Bool
is_container components = any (equals_pattern components) containers || is_library components

unfoldable pub is_driver_file : List Text → Exceptions → Bool
is_driver_file (windows ∷ system32 ∷ drivers ∷ file ∷ []) exceptions =
    eq_ignore_case windows (codes "WINDOWS")
    && eq_ignore_case system32 (codes "SYSTEM32")
    && eq_ignore_case drivers (codes "DRIVERS")
    && allows_driver_file exceptions file
is_driver_file _ exceptions = false

unfoldable pub windows_directory_exception : List Text → Exceptions → Verdict
windows_directory_exception components exceptions =
    if is_driver_file components exceptions
    then allowed
    else if length components == 1
    then err protected_top_level_directory
    else err protected_system_path

unfoldable pub is_user_hive : List Text → Bool
is_user_hive components = elim (last components) [
  | some leaf ↦ any (λ hive. Text.starts_with leaf hive) user_hive_files
  | none ↦ false
]

abbrev pub program_data_microsoft : List Text
program_data_microsoft = codes "ProgramData" ∷ codes "Microsoft" ∷ []

-- `evaluate_path` behind the test on the protected top-level directories; `top` is
-- `components[0]`.
unfoldable pub evaluate_outside : CanonicalPath → Text → List Text → Verdict
evaluate_outside path top components =
    if length components == 1 && is_named container_top_level top
    then err protected_top_level_directory
    else if is_user_hive components
    then err protected_user_hive
    else if Canonical.starts_with path program_data_microsoft
    then err protected_program_data
    else if any (starts_with_pattern components) windows_data
    then err protected_windows_data
    else if is_container components
    then err protected_container
    else if ltb (length components) min_components_under_drive_root
    then err too_shallow
    else allowed

-- `evaluate_path` from the test on `components.is_empty()` on
unfoldable pub evaluate_components : CanonicalPath → Exceptions → List Text → Verdict
evaluate_components path exceptions [] = err volume_root
evaluate_components path exceptions (top ∷ below) =
    if is_named protected_top_level top
    then windows_directory_exception (top ∷ below) exceptions
    else evaluate_outside path top (top ∷ below)

unfoldable pub evaluate_namespace : CanonicalPath → Exceptions → Verdict
evaluate_namespace path exceptions =
    if path.short_name
    then err eight_dot_three_unresolved
    else if not (is_drive_rooted path.kind)
    then err non_local_namespace
    else evaluate_components path exceptions path.components

unfoldable pub check_path : CanonicalPath → Exceptions → Stage → Verdict
check_path path exceptions catalog_load = evaluate_namespace path exceptions
check_path path exceptions (on_disk traverses_reparse_point) =
    if traverses_reparse_point
    then err reparse_point_in_path
    else if not path.resolved_via_handle
    then err unresolved_at_execution
    else evaluate_namespace path exceptions
