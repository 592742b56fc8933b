-- ===== src/Denylist/KeyRules/Carveout.antt =====
-- core/src/safety/denylist.rs: what the named services add to the registry check, and that the
-- 32-bit view is no way round it.
use wardsweep.Base.{
  ◌≡◌, ◌≢◌, ◌⊎◌, inl, inr, refl, ap, subst, ◌∙◌, true, Option, none, some, List, arith, Bool-cases,
  ok, >>=-eq-ok,
}
use wardsweep.Text.Chars.{Text}
use wardsweep.Paths.RegKey.{CanonicalRegKey, Hive, hklm, hkcu, hku, hkcr, hkcc}
use wardsweep.Denylist.Exceptions.{Exceptions, none_allowed, new, allows_service, is_inbox_service}
use wardsweep.Denylist.Check.{allowed}
use wardsweep.Denylist.Keys.{
  ServiceKey, named, service_key_leaf, machine_rest, evaluate_machine_key, evaluate_hive,
  check_registry_key, is_protected_hive,
}
use wardsweep.Denylist.Carveout.{allows_service-inbox}
use wardsweep.Denylist.KeyRules.Sound.{service_key_leaf-IsNamedService, allows_leaf-allowed}
use wardsweep.Denylist.KeyRules.{IsNamedService}

machine_rest-carveout :
    (components : List Text) (exceptions : Exceptions) (service : Option ServiceKey)
    → machine_rest components exceptions service ≡ allowed
    → (machine_rest components none_allowed service ≡ allowed)
      ⊎ ((name : Text) × (service ≡ some (named name)) × (allows_service exceptions name ≡ true))
unfolding machine_rest
machine_rest-carveout components exceptions none h = inl h
machine_rest-carveout components exceptions (some leaf) h =
    let (name, same, permitted) = allows_leaf-allowed exceptions leaf h in
    inr (name, ap some same, permitted)

evaluate_machine_key-carveout :
    (components : List Text) (exceptions : Exceptions)
    → evaluate_machine_key components exceptions ≡ allowed
    → (evaluate_machine_key components none_allowed ≡ allowed)
      ⊎ ((name : Text) × (service_key_leaf components ≡ ok (some (named name)))
          × (allows_service exceptions name ≡ true))
unfolding evaluate_machine_key
evaluate_machine_key-carveout components exceptions h =
    elim (Bool-cases (is_protected_hive components)) [
      | inl refused ↦ absurd (ground arith)
      | inr other_hive ↦
          let (service, leaf, rest) =
            >>=-eq-ok (service_key_leaf components) (machine_rest components exceptions)
              (ground arith) in
          elim (machine_rest-carveout components exceptions service rest) [
            | inl plain ↦ inl (rw (other_hive, leaf) plain)
            | inr (name, same, permitted) ↦ inr (name, leaf ∙ ap ok same, permitted)
          ]
    ]

-- A key that some carve-outs allow is allowed without them, or is under `HKLM` the key of a service that
-- they name, directly in `SERVICES` of a control set of `SYSTEM`.
pub check_registry_key-carveout :
    (key : CanonicalRegKey) (exceptions : Exceptions)
    → check_registry_key key exceptions ≡ allowed
    → (check_registry_key key none_allowed ≡ allowed)
      ⊎ (key.hive ≡ hklm) × IsNamedService exceptions key.components
unfolding check_registry_key evaluate_hive
check_registry_key-carveout key exceptions h = by_hive key.hive key.components h
  where
    by_hive :
        (hive : Hive) (components : List Text)
        → evaluate_hive hive components exceptions ≡ allowed
        → (evaluate_hive hive components none_allowed ≡ allowed)
          ⊎ (hive ≡ hklm) × IsNamedService exceptions components
    by_hive hklm components e = elim (evaluate_machine_key-carveout components exceptions e) [
      | inl plain ↦ inl plain
      | inr (name, leaf, permitted) ↦
          inr (refl, service_key_leaf-IsNamedService components exceptions name leaf permitted)
    ]
    by_hive hkcu components e = inl e
    by_hive hku components e = inl e
    by_hive hkcr components e = inl e
    by_hive hkcc components e = inl e

machine_rest-inbox :
    (components drivers services : List Text) (name : Text)
    → is_inbox_service name ≡ true
    → machine_rest components (new drivers services) (some (named name)) ≢ allowed
unfolding machine_rest
machine_rest-inbox components drivers services name inbox h =
    let (kept, same, permitted) = allows_leaf-allowed (new drivers services) (named name) h in
    ground (arith, same, allows_service-inbox drivers services kept permitted)

-- Whatever drivers and services a catalog entry lists, the service key of a service that ships with
-- Windows is not allowed, in any control set.
pub inbox_service-denied :
    (key : CanonicalRegKey) (drivers services : List Text) (name : Text)
    → key.hive ≡ hklm
    → service_key_leaf key.components ≡ ok (some (named name))
    → is_inbox_service name ≡ true
    → check_registry_key key (new drivers services) ≢ allowed
unfolding check_registry_key evaluate_hive
inbox_service-denied key drivers services name machine leaf inbox h =
    let verdict =
      subst (λ hive. evaluate_hive hive key.components (new drivers services) ≡ allowed) machine
        h in
    refuse key.components leaf verdict
  where
    refuse :
        (components : List Text)
        → service_key_leaf components ≡ ok (some (named name))
        → evaluate_machine_key components (new drivers services) ≡ allowed
        → ⊥
    refuse components l v =
        unfold evaluate_machine_key in
        elim (Bool-cases (is_protected_hive components)) [
          | inl refused ↦ ground arith
          | inr other_hive ↦
              machine_rest-inbox components drivers services name inbox (ground (arith, l))
        ]
