-- ===== src/Denylist/KeyRules.antt =====
-- core/src/safety/denylist.rs: what `check_registry_key` allows, stated without the code's tests.
pub mod Sound
pub mod Carveout
use wardsweep.Base.{
  ℕ, ◌≤◌, ◌≡◌, ◌≢◌, ◌↔◌, ◌⊎◌, inl, inr, refl, sym, ap, subst, ◌∙◌, Bool, true, false, ◌&&◌, ◌||◌,
  not, Option, none, some, List, [], ◌∷◌, ◌++◌, arith, ltb, length, any, All, Bool-cases,
  Option-cases, or-eq_false, any-eq_false→, Outcome, ok, err, panic, ◌>>=◌, >>=-eq-ok,
  if◌then◌else◌,
}
use wardsweep.Text.Chars.{Text}
use wardsweep.Text
use wardsweep.Text.{codes, eq_ignore_case}
use wardsweep.Text.Laws.Case.{eq_ignore_case_iff}
use wardsweep.Paths.RegKey.{CanonicalRegKey, Hive, hklm, hkcu, hku, hkcr, hkcc}
use wardsweep.Denylist.Tables.Keys.{
  protected_machine_hives, machine_container_keys, machine_protected_keys, user_container_keys,
}
use wardsweep.Denylist.Exceptions.{Exceptions, none_allowed, new, allows_service, is_inbox_service}
use wardsweep.Denylist.Check.{Verdict, allowed, is_named, starts_with_pattern, equals_pattern}
use wardsweep.Denylist.Keys.{
  shallow_floor, is_user_container, evaluate_user_key, ServiceKey, named, other, is_control_set,
  service_of, service_key_leaf, native_view, is_protected_key, is_container_key, on_view,
  is_protected_hive, is_system, evaluate_software, allows_leaf, evaluate_machine_key,
  evaluate_users_key, evaluate_hive, check_registry_key,
}
use wardsweep.Denylist.Patterns.{
  Same, Below, Exactly, NoneOf, Begins, starts_with_pattern_iff, equals_pattern_iff, is_named→,
  starts_with_iff,
}

-- The service key of a service that the entry names.
pub record IsNamedService (exceptions : Exceptions) (components : List Text) : Type 0 where
  pub system : Text
  pub control_set : Text
  pub services : Text
  pub name : Text
  pub place : components ≡ system ∷ control_set ∷ services ∷ name ∷ []
  pub in_system : Same system (codes "SYSTEM")
  pub in_control_set : is_control_set control_set ≡ ok true
  pub in_services : Same services (codes "SERVICES")
  pub allowed_name : allows_service exceptions name ≡ true

-- One view of a key of the machine: neither Windows' own nor a key that holds other software's.
pub record IsMachineView (view : List Text) : Type 0 where
  pub outside : All (λ shape. ¬ (Below view shape)) machine_protected_keys
  pub no_container : All (λ shape. ¬ (Exactly view shape)) machine_container_keys

pub record IsMachineKey (components : List Text) : Type 0 where
  pub deep : 2 ≤ length components
  pub hive :
      (first : Text) (rest : List Text)
      → components ≡ first ∷ rest
      → (¬ (Begins first (codes "BCD")))
        × NoneOf protected_machine_hives first
        × (¬ (Same first (codes "SYSTEM")))
  pub view : IsMachineView components
  pub native :
      (software wow next : Text) (rest : List Text)
      → components ≡ software ∷ wow ∷ next ∷ rest
      → Same software (codes "SOFTWARE")
      → Same wow (codes "WOW6432NODE")
      → IsMachineView (software ∷ next ∷ rest)

pub record IsUserKey (components : List Text) : Type 0 where
  pub deep : 2 ≤ length components
  pub no_container : All (λ shape. ¬ (Exactly components shape)) user_container_keys

pub evaluate_user_key-IsUserKey :
    (components : List Text) → evaluate_user_key components ≡ allowed → IsUserKey components
unfolding evaluate_user_key is_user_container shallow_floor
evaluate_user_key-IsUserKey components h = record {
  deep = ground arith;
  no_container =
      any-eq_false→ (equals_pattern components) (Exactly components) (equals_pattern_iff components)
        user_container_keys (ground arith);
}

is_protected_key-IsMachineView :
    (view : List Text)
    → is_protected_key view ≡ false
    → is_container_key view ≡ false
    → IsMachineView view
unfolding is_protected_key is_container_key
is_protected_key-IsMachineView view p c = record {
  outside =
      any-eq_false→ (starts_with_pattern view) (Below view) (starts_with_pattern_iff view)
        machine_protected_keys p;
  no_container =
      any-eq_false→ (equals_pattern view) (Exactly view) (equals_pattern_iff view)
        machine_container_keys c;
}

-- The tests of `evaluate_software`, one to a field.
record PassesSoftware (components : List Text) : Type 0 where
  deep : 2 ≤ length components
  system : is_system components ≡ false
  protected : is_protected_key components ≡ false
  container : is_container_key components ≡ false
  native_protected : on_view is_protected_key (native_view components) ≡ false
  native_container :
      on_view (λ view. ltb 1 (length view) && is_container_key view) (native_view components)
      ≡ false

evaluate_software-Passes :
    (components : List Text) → evaluate_software components ≡ allowed → PassesSoftware components
unfolding evaluate_software shallow_floor
evaluate_software-Passes components h = record {
  deep = ground arith;
  system = ground arith;
  protected = ground arith;
  container = ground arith;
  native_protected = ground arith;
  native_container = ground arith;
}

native_view_of_wow :
    (software wow : Text) (rest : List Text)
    → Same software (codes "SOFTWARE")
    → Same wow (codes "WOW6432NODE")
    → native_view (software ∷ wow ∷ rest) ≡ some (software ∷ rest)
unfolding native_view
native_view_of_wow software wow rest s w = ground (
  arith,
  (eq_ignore_case_iff software (codes "SOFTWARE")).1 s,
  (eq_ignore_case_iff wow (codes "WOW6432NODE")).1 w,
)

native-IsMachineView :
    (components : List Text) (software wow next : Text) (rest : List Text)
    → PassesSoftware components
    → components ≡ software ∷ wow ∷ next ∷ rest
    → Same software (codes "SOFTWARE")
    → Same wow (codes "WOW6432NODE")
    → IsMachineView (software ∷ next ∷ rest)
native-IsMachineView components software wow next rest p e s w =
    let v : native_view components ≡ some (software ∷ next ∷ rest) =
      ap native_view e ∙ native_view_of_wow software wow (next ∷ rest) s w in
    is_protected_key-IsMachineView (software ∷ next ∷ rest)
      (sym (ap (on_view is_protected_key) v) ∙ p.native_protected)
      (ground (arith, v, p.native_container))

hive_rules :
    (components : List Text)
    → is_protected_hive components ≡ false
    → is_system components ≡ false
    → (first : Text) (rest : List Text) → components ≡ first ∷ rest
    → (¬ (Begins first (codes "BCD")))
      × NoneOf protected_machine_hives first
      × (¬ (Same first (codes "SYSTEM")))
unfolding is_protected_hive is_system
hive_rules [] p s first rest e = cc
hive_rules (top ∷ below) p s first rest e =
    let (bcd, hives) =
      or-eq_false (Text.starts_with top (codes "BCD")) (is_named protected_machine_hives top) p in
    let same : top ≡ first = cc e in
    rw (← same) (
      (λ b. cc (bcd, (starts_with_iff top (codes "BCD")).1 b)),
      is_named→ protected_machine_hives top hives,
      (λ b. cc (s, (eq_ignore_case_iff top (codes "SYSTEM")).1 b)),
    )

pub evaluate_software-IsMachineKey :
    (components : List Text)
    → is_protected_hive components ≡ false
    → evaluate_software components ≡ allowed
    → IsMachineKey components
evaluate_software-IsMachineKey components hive h =
    let p = evaluate_software-Passes components h in
    record {
      deep = p.deep;
      hive = hive_rules components hive p.system;
      view = is_protected_key-IsMachineView components p.protected p.container;
      native = λ software wow next rest e s w.
          native-IsMachineView components software wow next rest p e s w;
    }
