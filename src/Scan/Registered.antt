-- ===== src/Scan/Registered.antt =====
-- core/src/scan/engine.rs: `Audit::service` and `Audit::driver`, the services and drivers of one entry.
pub mod Grounded
pub mod Read
pub mod Registering
use wardsweep.Base.{
  Bool, true, false, not, Option, none, some, List, [], ◌∷◌, ◌++◌, is_nil, Outcome, ok, or_panic,
  ◌>>=◌, if◌then◌else◌,
}
use wardsweep.Text.Chars.{Text}
use wardsweep.Text.{codes, eq_ignore_case}
use wardsweep.Denylist.Check.{DenyReason}
use wardsweep.Catalog.Schema.{AntiCheat}
use wardsweep.Scan.Model
use wardsweep.Scan.Model.{
  Artifact, Classification, Evidence, scm_lists, past_scm, unregistered, image_said, image_missing,
  image_unreadable, own_image_said, registered_by, not_on_disk, plain, service_item, platform,
  stale_record,
}
use wardsweep.Scan.View
use wardsweep.Scan.View.{
  Lookup, found, absent, unreadable, PathKind, file, directory, reparse_point, ServiceStatus,
  ServiceKey, MachineView,
}
use wardsweep.Scan.Environment.{Environment, system_root}
use wardsweep.Scan.Image.{image_file, file_name}
use wardsweep.Scan.Judge.{Pending, judge}
use wardsweep.Scan.State.{State, report_unreadable, report_disbelieved, push, fold}

-- What the image at a path says of an artifact, and the line of evidence for it.
unfoldable pub judged_image :
    MachineView → AntiCheat → Text → Lookup PathKind → Option Classification × Evidence
judged_image machine entry image (found file) =
    let (classification, line) = judge (machine.signature image) entry in
    (some classification, image_said image line)
judged_image machine entry image (found directory) = (none, image_missing image)
judged_image machine entry image (found reparse_point) = (none, image_missing image)
judged_image machine entry image absent = (none, image_missing image)
judged_image machine entry image (unreadable reason) = (none, image_unreadable image reason)

unfoldable pub imaged : MachineView → AntiCheat → Artifact → Evidence → Option Text → Pending
imaged machine entry artifact why none = record {
  artifact = artifact;
  evidence = why ∷ [];
  judged = none;
}
imaged machine entry artifact why (some image) =
    let (judged, line) = judged_image machine entry image (machine.path image) in
    record { artifact = artifact; evidence = why ∷ line ∷ []; judged = judged }

-- `Audit::with_image`
unfoldable pub with_image :
    MachineView
    → Environment
    → AntiCheat
    → Artifact
    → Text
    → Evidence
    → State
    → Outcome DenyReason State
with_image machine environment entry artifact configured why state = do
  image ← or_panic (image_file configured (system_root environment))
  ok (push (imaged machine entry artifact why image) state)

-- `(!key.image.is_empty()).then(..)`
abbrev pub nonempty : Text → Option Text
nonempty text = if is_nil text then none else some text

-- A service that the service control manager does not list.
unfoldable pub unlisted_service :
    MachineView
    → Environment
    → AntiCheat
    → Text
    → State
    → Lookup ServiceKey
    → Outcome DenyReason State
unlisted_service machine environment entry name state (found key) =
    with_image machine environment entry (Model.service name (nonempty key.image) true) key.image
      past_scm state
unlisted_service machine environment entry name state absent = ok state
unlisted_service machine environment entry name state (unreadable reason) =
    ok (report_unreadable entry (service_item name) (platform reason) state)

unfoldable pub service_status :
    MachineView
    → Environment
    → AntiCheat
    → Text
    → State
    → Lookup ServiceStatus
    → Outcome DenyReason State
service_status machine environment entry name state (found status) =
    if status.stale
    then ok (report_disbelieved entry name stale_record state)
    else with_image machine environment entry (Model.service name (some status.image) false)
        status.image scm_lists state
service_status machine environment entry name state absent =
    unlisted_service machine environment entry name state (machine.service_key name)
service_status machine environment entry name state (unreadable reason) =
    ok (report_unreadable entry (plain name) (platform reason) state)

-- `Audit::service`
unfoldable pub service :
    MachineView → Environment → AntiCheat → State → Text → Outcome DenyReason State
service machine environment entry state name =
    service_status machine environment entry name state (machine.service name)

-- `is_some_and` on the name of the image's file
unfoldable pub is_image_of : Text → Option Text → Bool
is_image_of driver_file none = false
is_image_of driver_file (some image) = elim (file_name image) [
  | some name ↦ eq_ignore_case name driver_file
  | none ↦ false
]

-- The keys whose image is the driver's file.
unfoldable pub registering :
    Environment → Text → List ServiceKey → Outcome DenyReason (List ServiceKey)
registering environment driver_file [] = ok []
registering environment driver_file (key ∷ keys) = do
  image ← or_panic (image_file key.image (system_root environment))
  rest ← registering environment driver_file keys
  ok (if is_image_of driver_file image then key ∷ rest else rest)

-- An image that no key registers.
unfoldable pub unregistered_driver :
    MachineView → AntiCheat → Text → Text → State → Lookup PathKind → State
unregistered_driver machine entry driver_file image state (found file) =
    let (classification, line) = judge (machine.signature image) entry in
    push
      (record {
        artifact = Model.driver driver_file none image true;
        evidence = unregistered ∷ own_image_said line ∷ [];
        judged = some classification;
      })
      state
unregistered_driver machine entry driver_file image state (found directory) = state
unregistered_driver machine entry driver_file image state (found reparse_point) = state
unregistered_driver machine entry driver_file image state absent = state
unregistered_driver machine entry driver_file image state (unreadable reason) =
    report_unreadable entry (plain image) (platform reason) state

-- `matches!(.., Lookup::Found(PathKind::File))`
unfoldable pub is_present : Lookup PathKind → Bool
is_present (found file) = true
is_present _ = false

abbrev pub or_configured : Option Text → Text → Text
or_configured none configured = configured
or_configured (some image) configured = image

unfoldable pub registered_pending : MachineView → AntiCheat → Text → ServiceKey → Text → Pending
registered_pending machine entry driver_file key image =
    let present = is_present (machine.path image) in
    let (classification, line) = judge (machine.signature image) entry in
    record {
      artifact = Model.driver driver_file (some key.name) image present;
      evidence =
          registered_by key.name ∷ (if present then own_image_said line else not_on_disk) ∷ [];
      judged = if present then some classification else none;
    }

-- One pass of the loop over the keys that register a driver.
unfoldable pub registered_driver :
    MachineView → Environment → AntiCheat → Text → State → ServiceKey → Outcome DenyReason State
registered_driver machine environment entry driver_file state key = do
  image ← or_panic (image_file key.image (system_root environment))
  ok (push (registered_pending machine entry driver_file key (or_configured image key.image)) state)

unfoldable pub drivers_image : Environment → Text → Text
drivers_image environment driver_file =
    system_root environment ++ (codes "\\System32\\drivers\\" ++ driver_file)

unfoldable pub driver_among :
    MachineView
    → Environment
    → AntiCheat
    → Text
    → State
    → List ServiceKey
    → Outcome DenyReason State
driver_among machine environment entry driver_file state [] =
    let image = drivers_image environment driver_file in
    ok (unregistered_driver machine entry driver_file image state (machine.path image))
driver_among machine environment entry driver_file state (key ∷ keys) =
    fold (registered_driver machine environment entry driver_file) state (key ∷ keys)

-- `Audit::driver`
unfoldable pub driver :
    MachineView
    → Environment
    → List ServiceKey
    → AntiCheat
    → State
    → Text
    → Outcome DenyReason State
driver machine environment keys entry state driver_file = do
  registered ← registering environment driver_file keys
  driver_among machine environment entry driver_file state registered
