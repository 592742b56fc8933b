-- ===== src/Denylist/Keys.antt =====
-- core/src/safety/denylist.rs: `check_registry_key`. The log line that it writes is not modelled, so
-- `check_registry_key` and `evaluate_registry_key` are one function.
use wardsweep.Base.{
  Bool, true, false, not, ◌&&◌, ◌||◌, Option, none, some, List, [], ◌∷◌, ltb, if◌then◌else◌, length,
  any, all, Outcome, ok, err, or_panic, ◌>>=◌,
}
use wardsweep.Text.Chars.{Text, is_digit}
use wardsweep.Text
use wardsweep.Text.{codes, eq_ignore_case, byte_len, split_at_byte}
use wardsweep.Paths.RegKey.{CanonicalRegKey, Hive, hklm, hkcu, hku, hkcr, hkcc}
use wardsweep.Denylist.Tables.Keys.{
  protected_machine_hives, machine_container_keys, machine_protected_keys, user_container_keys,
}
use wardsweep.Denylist.Exceptions.{Exceptions, allows_service}
use wardsweep.Denylist.Check.{
  DenyReason, protected_registry_hive, protected_system_key, protected_registry_key,
  unknown_service_key, registry_key_too_shallow, Verdict, allowed, starts_with_pattern,
  equals_pattern, is_named,
}

unfoldable pub shallow_floor : List Text → Verdict
shallow_floor components =
    if ltb (length components) 2 then err registry_key_too_shallow else allowed

unfoldable pub is_user_container : List Text → Bool
is_user_container components = any (equals_pattern components) user_container_keys

unfoldable pub evaluate_user_key : List Text → Verdict
evaluate_user_key components =
    if is_user_container components then err protected_registry_key else shallow_floor components

pub data ServiceKey : Type 0 where
  named : Text → ServiceKey
  other : ServiceKey

-- The slices `control_set[..10]` and `control_set[10..]` panic inside a character.
unfoldable pub is_numbered_set : Text → Outcome DenyReason Bool
is_numbered_set control_set =
    if ltb 10 (byte_len control_set)
    then (do
      halves ← or_panic (split_at_byte 10 control_set)
      ok (eq_ignore_case halves.0 (codes "CONTROLSET") && all is_digit halves.1))
    else ok false

unfoldable pub is_control_set : Text → Outcome DenyReason Bool
is_control_set control_set =
    if eq_ignore_case control_set (codes "CURRENTCONTROLSET")
    then ok true
    else is_numbered_set control_set

abbrev pub service_of : List Text → ServiceKey
service_of (name ∷ []) = named name
service_of _ = other

unfoldable pub service_key_leaf : List Text → Outcome DenyReason (Option ServiceKey)
service_key_leaf (system ∷ control_set ∷ services ∷ rest) =
    if not (eq_ignore_case system (codes "SYSTEM"))
      || not (eq_ignore_case services (codes "SERVICES"))
    then ok none
    else do known ← is_control_set control_set; ok (if known then some (service_of rest) else none)
service_key_leaf _ = ok none

-- The 64-bit spelling of a key of the 32-bit view.
unfoldable pub native_view : List Text → Option (List Text)
native_view (software ∷ wow ∷ rest) =
    if eq_ignore_case software (codes "SOFTWARE") && eq_ignore_case wow (codes "WOW6432NODE")
    then some (software ∷ rest)
    else none
native_view _ = none

unfoldable pub is_protected_key : List Text → Bool
is_protected_key view = any (starts_with_pattern view) machine_protected_keys

unfoldable pub is_container_key : List Text → Bool
is_container_key view = any (equals_pattern view) machine_container_keys

abbrev pub on_view : (List Text → Bool) → Option (List Text) → Bool
on_view test none = false
on_view test (some view) = test view

-- `first.starts_with("BCD")`, or one of the protected hives
unfoldable pub is_protected_hive : List Text → Bool
is_protected_hive [] = false
is_protected_hive (first ∷ rest) =
    Text.starts_with first (codes "BCD") || is_named protected_machine_hives first

unfoldable pub is_system : List Text → Bool
is_system [] = false
is_system (first ∷ rest) = eq_ignore_case first (codes "SYSTEM")

-- `evaluate_machine_key` from the test on `SYSTEM` on
unfoldable pub evaluate_software : List Text → Verdict
evaluate_software components =
    let native = native_view components in
    if is_system components
    then err protected_system_key
    else if is_protected_key components || on_view is_protected_key native
    then err protected_registry_key
    else if is_container_key components
        || on_view (λ view. ltb 1 (length view) && is_container_key view) native
    then err protected_registry_key
    else shallow_floor components

unfoldable pub allows_leaf : Exceptions → ServiceKey → Verdict
allows_leaf exceptions other = err unknown_service_key
allows_leaf exceptions (named name) =
    if allows_service exceptions name then allowed else err unknown_service_key

-- `evaluate_machine_key` behind `service_key_leaf`
unfoldable pub machine_rest : List Text → Exceptions → Option ServiceKey → Verdict
machine_rest components exceptions (some leaf) = allows_leaf exceptions leaf
machine_rest components exceptions none = evaluate_software components

unfoldable pub evaluate_machine_key : List Text → Exceptions → Verdict
evaluate_machine_key components exceptions =
    if is_protected_hive components
    then err protected_registry_hive
    else do service ← service_key_leaf components; machine_rest components exceptions service

-- The `match` on the components below `HKEY_USERS`.
unfoldable pub evaluate_users_key : List Text → Verdict
evaluate_users_key (user ∷ next ∷ rest) =
    if Text.ends_with user (codes "_CLASSES")
    then evaluate_user_key (codes "SOFTWARE" ∷ codes "CLASSES" ∷ next ∷ rest)
    else evaluate_user_key (next ∷ rest)
evaluate_users_key _ = err registry_key_too_shallow

unfoldable pub evaluate_hive : Hive → List Text → Exceptions → Verdict
evaluate_hive hklm components exceptions = evaluate_machine_key components exceptions
evaluate_hive hkcu components exceptions = evaluate_user_key components
evaluate_hive hku components exceptions = evaluate_users_key components
evaluate_hive hkcc components exceptions = err protected_system_key
evaluate_hive hkcr components exceptions = shallow_floor components

unfoldable pub check_registry_key : CanonicalRegKey → Exceptions → Verdict
check_registry_key key exceptions = evaluate_hive key.hive key.components exceptions
