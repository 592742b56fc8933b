-- ===== src/Scan/Registered/Grounded.antt =====
-- core/src/scan/engine.rs: services and drivers are reported as the machine has them.
use mathlib.Core.List.{Memᴰ}
use wardsweep.Base.{
  ◌↔◌, sym, ap, ◌∙◌, true, All, Outcome, ◌≡◌, refl, Bool-cases, inl, inr, Option, none, some, List,
  [], ◌∷◌, ok, or_panic, >>=-eq-ok, subst,
}
use wardsweep.Text.Chars.{Text}
use wardsweep.Catalog.Schema.{AntiCheat}
use wardsweep.Catalog.Gate.{exceptions_for}
use wardsweep.Scan.Model.{Artifact, Evidence}
use wardsweep.Scan.View.{
  Lookup, found, absent, unreadable, PathKind, file, directory, reparse_point, ServiceStatus,
  ServiceKey, MachineView,
}
use wardsweep.Scan.Environment.{Environment, system_root}
use wardsweep.Scan.Image.{image_file}
use wardsweep.Scan.State.{State, report_unreadable, report_disbelieved, push}
use wardsweep.Scan.State.Loops.{ok-injective, fold_invariant_on}
use wardsweep.Scan.Registered.{
  imaged, with_image, unlisted_service, service_status, service, registering, unregistered_driver,
  is_present, or_configured, registered_pending, registered_driver, drivers_image, driver_among,
  driver,
}
use wardsweep.Scan.Registered.Registering.{Registers, registering-Registers, Mem-registering}
use wardsweep.Scan.Grounded.{IsListed, IsGrounded, IsSafe, push-IsSafe}
use wardsweep.Denylist.Check.{DenyReason}

imaged-artifact :
    (machine : MachineView) (entry : AntiCheat) (artifact : Artifact) (why : Evidence)
    (image : Option Text)
    → (imaged machine entry artifact why image).artifact ≡ artifact
unfolding imaged
imaged-artifact machine entry artifact why none = refl
imaged-artifact machine entry artifact why (some image) = refl

with_image-IsSafe :
    (machine : MachineView) (environment : Environment) (entry : AntiCheat) (artifact : Artifact)
    (configured : Text) (why : Evidence) (state next : State)
    → IsGrounded machine environment (exceptions_for entry) artifact
    → with_image machine environment entry artifact configured why state ≡ ok next
    → IsSafe machine environment entry state
    → IsSafe machine environment entry next
unfolding with_image
with_image-IsSafe machine environment entry artifact configured why state next grounded h safe =
    let (image, e, rest) =
      >>=-eq-ok (or_panic (image_file configured (system_root environment)))
        (λ image. ok (push (imaged machine entry artifact why image) state)) h in
    subst (IsSafe machine environment entry) (ok-injective rest) (
      push-IsSafe machine environment entry (imaged machine entry artifact why image) state
        (rw (imaged-artifact machine entry artifact why image) grounded) safe)

unlisted_service-IsSafe :
    (machine : MachineView) (environment : Environment) (entry : AntiCheat) (name : Text)
    (state : State) (there : Lookup ServiceKey) (next : State)
    → machine.service name ≡ absent
    → machine.service_key name ≡ there
    → unlisted_service machine environment entry name state there ≡ ok next
    → IsSafe machine environment entry state
    → IsSafe machine environment entry next
unfolding unlisted_service report_unreadable
unlisted_service-IsSafe machine environment entry name state (found key) next unlisted seen h safe =
    with_image-IsSafe machine environment entry _ key.image _ state next
      (unlisted, (key, seen, refl)) h safe
unlisted_service-IsSafe machine environment entry name state absent next unlisted seen h safe =
    subst (IsSafe machine environment entry) (ok-injective h) safe
unlisted_service-IsSafe machine environment entry name state (unreadable reason) next unlisted seen
      h safe =
    subst (IsSafe machine environment entry) (ok-injective h) safe

service_status-IsSafe :
    (machine : MachineView) (environment : Environment) (entry : AntiCheat) (name : Text)
    (state : State) (there : Lookup ServiceStatus) (next : State)
    → machine.service name ≡ there
    → service_status machine environment entry name state there ≡ ok next
    → IsSafe machine environment entry state
    → IsSafe machine environment entry next
unfolding service_status report_unreadable report_disbelieved
service_status-IsSafe machine environment entry name state (found status) next seen h safe =
    elim (Bool-cases status.stale) [
      | inl stale ↦ subst (IsSafe machine environment entry) (ok-injective (rw stale at h)) safe
      | inr live ↦
          with_image-IsSafe machine environment entry _ status.image _ state next
            (status, seen, live, refl) (rw live at h) safe
    ]
service_status-IsSafe machine environment entry name state absent next seen h safe =
    unlisted_service-IsSafe machine environment entry name state (machine.service_key name) next
      seen refl h safe
service_status-IsSafe machine environment entry name state (unreadable reason) next seen h safe =
    subst (IsSafe machine environment entry) (ok-injective h) safe

pub service-IsSafe :
    (machine : MachineView) (environment : Environment) (entry : AntiCheat) (state : State)
    (name : Text) (next : State)
    → service machine environment entry state name ≡ ok next
    → IsSafe machine environment entry state
    → IsSafe machine environment entry next
unfolding service
service-IsSafe machine environment entry state name next h safe =
    service_status-IsSafe machine environment entry name state (machine.service name) next refl h
      safe

unregistered_driver-IsSafe :
    (machine : MachineView) (environment : Environment) (entry : AntiCheat) (driver_file : Text)
    (state : State) (there : Lookup PathKind)
    → machine.path (drivers_image environment driver_file) ≡ there
    → ((key : ServiceKey) → IsListed machine key → ¬ (Registers environment driver_file key))
    → IsSafe machine environment entry state
    → IsSafe machine environment entry (
        unregistered_driver machine entry driver_file
          (drivers_image environment driver_file)
          state
          there)
unfolding unregistered_driver report_unreadable drivers_image
unregistered_driver-IsSafe machine environment entry driver_file state (found file) seen left safe =
    push-IsSafe machine environment entry _ state
      (record { place = refl; there = seen; said = refl; unregistered = left }) safe
unregistered_driver-IsSafe machine environment entry driver_file state (found directory) seen left
      safe =
    safe
unregistered_driver-IsSafe machine environment entry driver_file state (found reparse_point) seen
      left safe =
    safe
unregistered_driver-IsSafe machine environment entry driver_file state absent seen left safe = safe
unregistered_driver-IsSafe machine environment entry driver_file state (unreadable reason) seen left
      safe =
    safe

is_present_iff : (there : Lookup PathKind) → (is_present there ≡ true) ↔ (there ≡ found file)
unfolding is_present
is_present_iff (found file) = (λ h. refl, λ h. refl)
is_present_iff (found directory) = (λ h. cc, λ h. cc)
is_present_iff (found reparse_point) = (λ h. cc, λ h. cc)
is_present_iff absent = (λ h. cc, λ h. cc)
is_present_iff (unreadable reason) = (λ h. cc, λ h. cc)

-- A key that the machine lists and that registers the driver.
abbrev IsRegistering : MachineView → Environment → Text → ServiceKey → Type 0
IsRegistering machine environment driver_file key =
    IsListed machine key × Registers environment driver_file key

registered_driver-IsSafe :
    (machine : MachineView) (environment : Environment) (entry : AntiCheat) (driver_file : Text)
    (state : State) (key : ServiceKey) (next : State)
    → IsRegistering machine environment driver_file key
    → registered_driver machine environment entry driver_file state key ≡ ok next
    → IsSafe machine environment entry state
    → IsSafe machine environment entry next
unfolding registered_driver registered_pending
registered_driver-IsSafe machine environment entry driver_file state key next (listed, registers) h
      safe =
    let (image, e, rest) =
      >>=-eq-ok (or_panic (image_file key.image (system_root environment)))
        (λ image. ok (
          push (registered_pending machine entry driver_file key (or_configured image key.image))
            state))
        h in
    subst (IsSafe machine environment entry) (ok-injective rest) (
      push-IsSafe machine environment entry _ state
        (record {
          key = key;
          listed = listed;
          name = refl;
          registers = registers;
          same_image =
              ap (λ i. or_configured i key.image) (same_some _ image registers.configured e);
          present_iff = is_present_iff (machine.path (or_configured image key.image));
        })
        safe)
  where
    same_some :
        (o : Option Text) (i : Option Text)
        → image_file key.image (system_root environment) ≡ some o
        → ◌≡◌ {A = Outcome DenyReason (Option Text)}
            (or_panic (image_file key.image (system_root environment)))
            (ok i)
        → o ≡ i
    same_some o i f g = ok-injective (ap or_panic (sym f) ∙ g)

All-on : {A : Type 0} (P : A → Type 0) (xs : List A) → ((x : A) → Memᴰ x xs → P x) → All P xs
All-on P [] h = tt
All-on P (x ∷ xs) h = (h x (Memᴰ.head refl), All-on P xs (λ y m. h y (Memᴰ.tail m)))

driver_among-IsSafe :
    (machine : MachineView) (environment : Environment) (entry : AntiCheat) (driver_file : Text)
    (state : State) (keys : List ServiceKey) (next : State)
    → All (IsRegistering machine environment driver_file) keys
    → ((key : ServiceKey)
        → IsListed machine key
        → Registers environment driver_file key
        → Memᴰ key keys)
    → driver_among machine environment entry driver_file state keys ≡ ok next
    → IsSafe machine environment entry state
    → IsSafe machine environment entry next
unfolding driver_among
driver_among-IsSafe machine environment entry driver_file state [] next known all_known h safe =
    subst (IsSafe machine environment entry) (ok-injective h) (
      unregistered_driver-IsSafe machine environment entry driver_file state _ refl
        (λ key listed registers. elim (all_known key listed registers) [ ]) safe)
driver_among-IsSafe machine environment entry driver_file state (key ∷ keys) next known all_known h
      safe =
    fold_invariant_on (registered_driver machine environment entry driver_file)
      (IsSafe machine environment entry) (IsRegistering machine environment driver_file)
      (registered_driver-IsSafe machine environment entry driver_file) state (key ∷ keys) next known
      h safe

-- The list of driver keys that an audit works with is the machine's.
abbrev pub AreListed : MachineView → List ServiceKey → Type 0
AreListed machine keys = (key : ServiceKey) → Memᴰ key keys ↔ IsListed machine key

pub driver-IsSafe :
    (machine : MachineView) (environment : Environment) (keys : List ServiceKey) (entry : AntiCheat)
    (state : State) (driver_file : Text) (next : State)
    → AreListed machine keys
    → driver machine environment keys entry state driver_file ≡ ok next
    → IsSafe machine environment entry state
    → IsSafe machine environment entry next
unfolding driver
driver-IsSafe machine environment keys entry state driver_file next listed h safe =
    let (registered, e, rest) =
      >>=-eq-ok (registering environment driver_file keys)
        (driver_among machine environment entry driver_file state) h in
    driver_among-IsSafe machine environment entry driver_file state registered next
      (All-on (IsRegistering machine environment driver_file) registered (λ key m.
        let (there, registers) =
          registering-Registers environment driver_file keys registered key e m in
        ((listed key).0 there, registers)))
      (λ key here registers.
        Mem-registering environment driver_file keys registered key e ((listed key).1 here)
          registers)
      rest safe
