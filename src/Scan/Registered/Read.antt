-- ===== src/Scan/Registered/Read.antt =====
-- core/src/scan/engine.rs: a service, or a file in the drivers directory, that cannot be read is reported.
use mathlib.Core.List.{Memᴰ}
use wardsweep.Base.{
  ◌++◌, ◌≡◌, ◌⊎◌, refl, sym, true, Bool-cases, inl, inr, List, [], ◌∷◌, ok, or_panic, >>=-eq-ok,
  subst,
}
use wardsweep.Text.Chars.{Text}
use wardsweep.Text.{codes}
use wardsweep.Scan.Registered.Registering.{Registers, registering-Registers}
use wardsweep.Catalog.Schema.{AntiCheat}
use wardsweep.Scan.Model.{Artifact, Evidence}
use wardsweep.Scan.View.{
  Lookup, found, absent, unreadable, PathKind, file, directory, reparse_point, ServiceStatus,
  ServiceKey, MachineView,
}
use wardsweep.Scan.Environment.{Environment, system_root}
use wardsweep.Scan.Image.{image_file}
use wardsweep.Scan.State.{State, report_unreadable, report_disbelieved, push}
use wardsweep.Scan.State.Loops.{ok-injective, fold_backwards}
use wardsweep.Scan.Registered.{
  imaged, with_image, unlisted_service, service_status, service, registering, unregistered_driver,
  or_configured, registered_pending, registered_driver, drivers_image, driver_among, driver,
}
use wardsweep.Scan.Read.{is_read, IsComplete, append-nonempty}

with_image-IsComplete :
    (machine : MachineView) (environment : Environment) (entry : AntiCheat) (artifact : Artifact)
    (configured : Text) (why : Evidence) (state next : State)
    → with_image machine environment entry artifact configured why state ≡ ok next
    → IsComplete next
    → IsComplete state
unfolding with_image push
with_image-IsComplete machine environment entry artifact configured why state next h complete =
    let (image, e, rest) =
      >>=-eq-ok (or_panic (image_file configured (system_root environment)))
        (λ image. ok (push (imaged machine entry artifact why image) state)) h in
    let all : IsComplete (push (imaged machine entry artifact why image) state) =
      subst IsComplete (sym (ok-injective rest)) complete in
    all

-- The service control manager answered, and where it does not list the service, so did the registry.
abbrev pub ServiceIsRead : MachineView → Text → Type 0
ServiceIsRead machine name =
    ((status : ServiceStatus) × (machine.service name ≡ found status))
    ⊎ ((machine.service name ≡ absent) × (is_read (machine.service_key name) ≡ true))

unlisted_service-IsRead :
    (machine : MachineView) (environment : Environment) (entry : AntiCheat) (name : Text)
    (state : State) (there : Lookup ServiceKey) (next : State)
    → unlisted_service machine environment entry name state there ≡ ok next
    → IsComplete next
    → IsComplete state × (is_read there ≡ true)
unfolding unlisted_service report_unreadable is_read
unlisted_service-IsRead machine environment entry name state (found key) next h complete =
    (with_image-IsComplete machine environment entry _ key.image _ state next h complete, refl)
unlisted_service-IsRead machine environment entry name state absent next h complete =
    (subst IsComplete (sym (ok-injective h)) complete, refl)
unlisted_service-IsRead machine environment entry name state (unreadable reason) next h complete =
    absurd (append-nonempty state.unreadable _ (subst IsComplete (sym (ok-injective h)) complete))

service_status-IsRead :
    (machine : MachineView) (environment : Environment) (entry : AntiCheat) (name : Text)
    (state : State) (there : Lookup ServiceStatus) (next : State)
    → machine.service name ≡ there
    → service_status machine environment entry name state there ≡ ok next
    → IsComplete next
    → IsComplete state × ServiceIsRead machine name
unfolding service_status report_unreadable report_disbelieved
service_status-IsRead machine environment entry name state (found status) next seen h complete =
    elim (Bool-cases status.stale) [
      | inl stale ↦
          (subst IsComplete (sym (ok-injective (rw stale at h))) complete, inl (status, seen))
      | inr live ↦ (
        with_image-IsComplete machine environment entry _ status.image _ state next (rw live at h)
            complete,
        inl (status, seen),
      )
    ]
service_status-IsRead machine environment entry name state absent next seen h complete =
    let (before, read) =
      unlisted_service-IsRead machine environment entry name state (machine.service_key name) next h
        complete in
    (before, inr (seen, read))
service_status-IsRead machine environment entry name state (unreadable reason) next seen h
      complete =
    absurd (append-nonempty state.unreadable _ (subst IsComplete (sym (ok-injective h)) complete))

pub service-IsRead :
    (machine : MachineView) (environment : Environment) (entry : AntiCheat) (state : State)
    (name : Text) (next : State)
    → service machine environment entry state name ≡ ok next
    → IsComplete next
    → IsComplete state × ServiceIsRead machine name
unfolding service
service-IsRead machine environment entry state name next h complete =
    service_status-IsRead machine environment entry name state (machine.service name) next refl h
      complete

-- One of the keys registers the driver, or a file of its name in the drivers directory was read for. The image
-- that a key names is not part of this: where it cannot be read, the code takes it for not there.
abbrev pub DriverIsRead : MachineView → Environment → List ServiceKey → Text → Type 0
DriverIsRead machine environment keys driver_file =
    ((key : ServiceKey) × Memᴰ key keys × Registers environment driver_file key)
    ⊎ (is_read
          (machine.path (system_root environment ++ (codes "\\System32\\drivers\\" ++ driver_file)))
        ≡ true)

unregistered_driver-IsRead :
    (machine : MachineView) (entry : AntiCheat) (driver_file image : Text) (state : State)
    (there : Lookup PathKind)
    → IsComplete (unregistered_driver machine entry driver_file image state there)
    → IsComplete state × (is_read there ≡ true)
unfolding unregistered_driver report_unreadable push is_read
unregistered_driver-IsRead machine entry driver_file image state (found file) h = (h, refl)
unregistered_driver-IsRead machine entry driver_file image state (found directory) h = (h, refl)
unregistered_driver-IsRead machine entry driver_file image state (found reparse_point) h = (h, refl)
unregistered_driver-IsRead machine entry driver_file image state absent h = (h, refl)
unregistered_driver-IsRead machine entry driver_file image state (unreadable reason) h =
    absurd (append-nonempty state.unreadable _ h)

registered_driver-IsComplete :
    (machine : MachineView) (environment : Environment) (entry : AntiCheat) (driver_file : Text)
    (state : State) (key : ServiceKey) (next : State)
    → registered_driver machine environment entry driver_file state key ≡ ok next
    → IsComplete next
    → IsComplete state × Unit {0}
unfolding registered_driver push
registered_driver-IsComplete machine environment entry driver_file state key next h complete =
    let (image, e, rest) =
      >>=-eq-ok (or_panic (image_file key.image (system_root environment)))
        (λ image. ok (
          push (registered_pending machine entry driver_file key (or_configured image key.image))
            state))
        h in
    let all : IsComplete (
        push (registered_pending machine entry driver_file key (or_configured image key.image))
          state) =
      subst IsComplete (sym (ok-injective rest)) complete in
    (all, tt)

driver_among-IsRead :
    (machine : MachineView) (environment : Environment) (entry : AntiCheat) (driver_file : Text)
    (keys : List ServiceKey) (state : State) (registered : List ServiceKey) (next : State)
    → registering environment driver_file keys ≡ ok registered
    → driver_among machine environment entry driver_file state registered ≡ ok next
    → IsComplete next
    → IsComplete state × DriverIsRead machine environment keys driver_file
unfolding driver_among drivers_image
driver_among-IsRead machine environment entry driver_file keys state [] next none_registers h
      complete =
    let (before, read) =
      unregistered_driver-IsRead machine entry driver_file _ state _
        (subst IsComplete (sym (ok-injective h)) complete) in
    (before, inr read)
driver_among-IsRead machine environment entry driver_file keys state (key ∷ rest) next registers h
      complete =
    let (before, _) =
      fold_backwards (registered_driver machine environment entry driver_file) IsComplete
        (λ key. Unit {0}) (registered_driver-IsComplete machine environment entry driver_file) state
        (key ∷ rest) next h complete in
    let (there, registering_key) =
      registering-Registers environment driver_file keys (key ∷ rest) key registers
        (Memᴰ.head refl) in
    (before, inl (key, there, registering_key))

pub driver-IsRead :
    (machine : MachineView) (environment : Environment) (keys : List ServiceKey) (entry : AntiCheat)
    (state : State) (driver_file : Text) (next : State)
    → driver machine environment keys entry state driver_file ≡ ok next
    → IsComplete next
    → IsComplete state × DriverIsRead machine environment keys driver_file
unfolding driver
driver-IsRead machine environment keys entry state driver_file next h complete =
    let (registered, e, rest) =
      >>=-eq-ok (registering environment driver_file keys)
        (driver_among machine environment entry driver_file state) h in
    driver_among-IsRead machine environment entry driver_file keys state registered next e rest
      complete
