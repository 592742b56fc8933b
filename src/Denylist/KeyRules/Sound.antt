-- ===== src/Denylist/KeyRules/Sound.antt =====
-- core/src/safety/denylist.rs: each way for `check_registry_key` to allow a key, and what the
-- carve-outs of a catalog entry add.
use wardsweep.Base.{
  ◌≤◌, ◌≡◌, ◌⊎◌, inl, inr, refl, ap, ◌∙◌, true, false, Option, none, some, List, [], ◌∷◌, arith,
  length, Bool-cases, ok, >>=-eq-ok, if◌then◌else◌,
}
use wardsweep.Text.Chars.{Text}
use wardsweep.Text
use wardsweep.Text.{codes, eq_ignore_case}
use wardsweep.Text.Laws.Case.{eq_ignore_case_iff}
use wardsweep.Paths.RegKey.{CanonicalRegKey, Hive, hklm, hkcu, hku, hkcr, hkcc}
use wardsweep.Denylist.Exceptions.{Exceptions, allows_service}
use wardsweep.Denylist.Check.{allowed}
use wardsweep.Denylist.Keys.{
  shallow_floor, ServiceKey, named, other, is_control_set, service_key_leaf, is_protected_hive,
  evaluate_software, allows_leaf, evaluate_machine_key, machine_rest, evaluate_users_key,
  evaluate_hive, check_registry_key,
}
use wardsweep.Denylist.KeyRules.{
  IsNamedService, IsMachineKey, IsUserKey, evaluate_user_key-IsUserKey,
  evaluate_software-IsMachineKey,
}

-- What the check reads under a user's root: the rest of the key, with `<SID>_Classes` as that
-- user's `SOFTWARE\CLASSES`.
abbrev pub user_view : Text → List Text → List Text
user_view user rest =
    if Text.ends_with user (codes "_CLASSES")
    then codes "SOFTWARE" ∷ codes "CLASSES" ∷ rest
    else rest

pub data IsRemovableKey (exceptions : Exceptions) : Hive → List Text → Type 0 where
  service :
      {components : List Text}
      → IsNamedService exceptions components
      → IsRemovableKey exceptions hklm components
  machine :
      {components : List Text} → IsMachineKey components → IsRemovableKey exceptions hklm components
  current_user :
      {components : List Text} → IsUserKey components → IsRemovableKey exceptions hkcu components
  user :
      (sid next : Text) (rest : List Text)
      → IsUserKey (user_view sid (next ∷ rest))
      → IsRemovableKey exceptions hku (sid ∷ next ∷ rest)
  classes :
      {components : List Text} → 2 ≤ length components → IsRemovableKey exceptions hkcr components

-- Reaching a service key: the key has its shape.
pub service_key_leaf-shape :
    (components : List Text) (name : Text)
    → service_key_leaf components ≡ ok (some (named name))
    → (system control_set services : Text) × (components
        ≡ system ∷ control_set ∷ services ∷ name ∷ [])
      × (eq_ignore_case system (codes "SYSTEM") ≡ true)
      × (is_control_set control_set ≡ ok true)
      × (eq_ignore_case services (codes "SERVICES") ≡ true)
unfolding service_key_leaf
service_key_leaf-shape [] name h = cc
service_key_leaf-shape (a ∷ []) name h = cc
service_key_leaf-shape (a ∷ b ∷ []) name h = cc
service_key_leaf-shape (a ∷ b ∷ c ∷ []) name h = absurd (ground arith)
service_key_leaf-shape (a ∷ b ∷ c ∷ d ∷ e ∷ rest) name h = absurd (ground arith)
service_key_leaf-shape (a ∷ b ∷ c ∷ d ∷ []) name h =
    (a, b, c, ground arith, ground arith, ground arith, ground arith)

pub allows_leaf-allowed :
    (exceptions : Exceptions) (leaf : ServiceKey)
    → allows_leaf exceptions leaf ≡ allowed
    → (name : Text) × (leaf ≡ named name) × (allows_service exceptions name ≡ true)
unfolding allows_leaf
allows_leaf-allowed exceptions other h = cc
allows_leaf-allowed exceptions (named name) h = (name, refl, ground arith)

pub machine_rest-cases :
    (components : List Text) (exceptions : Exceptions) (service : Option ServiceKey)
    → service_key_leaf components ≡ ok service
    → machine_rest components exceptions service ≡ allowed
    → (service_key_leaf components ≡ ok none) × (evaluate_software components ≡ allowed)
      ⊎ ((name : Text) × (service_key_leaf components ≡ ok (some (named name)))
          × (allows_service exceptions name ≡ true))
unfolding machine_rest
machine_rest-cases components exceptions none e h = inl (e, h)
machine_rest-cases components exceptions (some leaf) e h =
    let (name, same, permitted) = allows_leaf-allowed exceptions leaf h in
    inr (name, e ∙ ap (λ x. ok (some x)) same, permitted)

-- A key of the machine that is allowed passes the software rules, or is a service that is named.
evaluate_machine_key-cases :
    (components : List Text) (exceptions : Exceptions)
    → evaluate_machine_key components exceptions ≡ allowed
    → (is_protected_hive components ≡ false)
      × ((service_key_leaf components ≡ ok none) × (evaluate_software components ≡ allowed)
          ⊎ ((name : Text) × (service_key_leaf components ≡ ok (some (named name)))
              × (allows_service exceptions name ≡ true)))
unfolding evaluate_machine_key
evaluate_machine_key-cases components exceptions h =
    elim (Bool-cases (is_protected_hive components)) [
      | inl refused ↦ absurd (ground arith)
      | inr other_hive ↦
          let (found, leaf, rest) =
            >>=-eq-ok (service_key_leaf components) (machine_rest components exceptions)
              (ground arith) in
          (other_hive, machine_rest-cases components exceptions found leaf rest)
    ]

pub service_key_leaf-IsNamedService :
    (components : List Text) (exceptions : Exceptions) (name : Text)
    → service_key_leaf components ≡ ok (some (named name))
    → allows_service exceptions name ≡ true
    → IsNamedService exceptions components
service_key_leaf-IsNamedService components exceptions name leaf permitted =
    let (system, control_set, services, place, s, c, v) =
      service_key_leaf-shape components name leaf in
    record {
      system = system;
      control_set = control_set;
      services = services;
      name = name;
      place = place;
      in_system = (eq_ignore_case_iff system (codes "SYSTEM")).0 s;
      in_control_set = c;
      in_services = (eq_ignore_case_iff services (codes "SERVICES")).0 v;
      allowed_name = permitted;
    }

evaluate_machine_key-IsRemovableKey :
    (components : List Text) (exceptions : Exceptions)
    → evaluate_machine_key components exceptions ≡ allowed
    → IsRemovableKey exceptions hklm components
evaluate_machine_key-IsRemovableKey components exceptions h =
    let (hive, cases) = evaluate_machine_key-cases components exceptions h in
    elim cases [
      | inl (no_service, software) ↦
          machine (evaluate_software-IsMachineKey components hive software)
      | inr (name, leaf, permitted) ↦
          service (service_key_leaf-IsNamedService components exceptions name leaf permitted)
    ]

evaluate_users_key-IsRemovableKey :
    (components : List Text) (exceptions : Exceptions)
    → evaluate_users_key components ≡ allowed
    → IsRemovableKey exceptions hku components
unfolding evaluate_users_key
evaluate_users_key-IsRemovableKey [] exceptions h = cc
evaluate_users_key-IsRemovableKey (sid ∷ []) exceptions h = cc
evaluate_users_key-IsRemovableKey (sid ∷ next ∷ rest) exceptions h =
    user sid next rest (evaluate_user_key-IsUserKey (user_view sid (next ∷ rest)) (ground arith))

evaluate_hive-IsRemovableKey :
    (hive : Hive) (components : List Text) (exceptions : Exceptions)
    → evaluate_hive hive components exceptions ≡ allowed
    → IsRemovableKey exceptions hive components
unfolding evaluate_hive shallow_floor
evaluate_hive-IsRemovableKey hklm components exceptions h =
    evaluate_machine_key-IsRemovableKey components exceptions h
evaluate_hive-IsRemovableKey hkcu components exceptions h =
    current_user (evaluate_user_key-IsUserKey components h)
evaluate_hive-IsRemovableKey hku components exceptions h =
    evaluate_users_key-IsRemovableKey components exceptions h
evaluate_hive-IsRemovableKey hkcr components exceptions h = classes (ground arith)
evaluate_hive-IsRemovableKey hkcc components exceptions h = cc

-- A registry key that the check allows is one of these: the service key of a named service; a key of
-- the machine at least two levels deep, outside the protected hives and `SYSTEM`, and in neither
-- view under a key of Windows' own or equal to one that holds other software's; a key of a user at
-- least two levels deep that is none of those that hold other software's; or a key of `HKCR` two
-- levels deep.
pub check_registry_key-IsRemovableKey :
    (key : CanonicalRegKey) (exceptions : Exceptions)
    → check_registry_key key exceptions ≡ allowed
    → IsRemovableKey exceptions key.hive key.components
unfolding check_registry_key
check_registry_key-IsRemovableKey key exceptions h =
    evaluate_hive-IsRemovableKey key.hive key.components exceptions h
