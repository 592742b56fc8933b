-- ===== src/Scan/Grounded.antt =====
-- core/src/scan/engine.rs: what the machine said of an artifact that an audit reports.
use mathlib.Core.List.{Memᴰ}
use wardsweep.Base.{
  ◌↔◌, none, ◌++◌, ◌≡◌, ◌≢◌, Bool, true, false, some, [], ◌∷◌, All, All-append, ok,
}
use wardsweep.Text.Chars.{Text}
use wardsweep.Paths.RegKey.{CanonicalRegKey, canonicalise_reg_key}
use wardsweep.Denylist.Exceptions.{Exceptions}
use wardsweep.Denylist.KeyRules.Sound.{IsRemovableKey}
use wardsweep.Catalog.Schema.{AntiCheat}
use wardsweep.Catalog.Gate.{exceptions_for}
use wardsweep.Catalog.Gate.Sound.{NamesRemovable}
use wardsweep.Scan.Model
use wardsweep.Scan.Model.{Artifact}
use wardsweep.Scan.View.{
  found, absent, PathKind, file, DriverKeys, reparse_point, ServiceStatus, ServiceKey, MachineView,
}
use wardsweep.Scan.Judge.{Pending}
use wardsweep.Scan.State.{State, push}
use wardsweep.Scan.Registered.{nonempty}
use wardsweep.Scan.Registered.Registering.{Registers}
use wardsweep.Scan.Environment.{Environment, system_root}
use wardsweep.Text.{codes}
use wardsweep.Scan.Targets.{is_directory}

pub record KeyIsRemovable (exceptions : Exceptions) (key : Text) : Type 0 where
  pub canonical : CanonicalRegKey
  pub canonicalises : canonicalise_reg_key key ≡ ok canonical
  pub removable : IsRemovableKey exceptions canonical.hive canonical.components

-- A path that is there, is no link, and is removable.
pub record PathIsGrounded (machine : MachineView) (exceptions : Exceptions) (path : Text)
    (directory : Bool) : Type 0 where
  pub kind : PathKind
  pub there : machine.path path ≡ found kind
  pub no_link : kind ≢ reparse_point
  pub same_kind : directory ≡ is_directory kind
  pub removable : NamesRemovable exceptions path

-- The machine lists a driver key.
abbrev pub IsListed : MachineView → ServiceKey → Type 0
IsListed machine key =
    (keys : DriverKeys) × (machine.driver_keys ≡ found keys) × Memᴰ key keys.drivers

-- A driver key that the machine lists registers the driver with an image, and the image is said to be present
-- exactly when the machine found a file there: absent and unreadable are told apart from that, not from each
-- other.
pub record DriverIsRegistered (machine : MachineView) (environment : Environment)
    (driver_file service image : Text) (present : Bool) : Type 0 where
  pub key : ServiceKey
  pub listed : IsListed machine key
  pub name : key.name ≡ service
  pub registers : Registers environment driver_file key
  pub same_image : registers.image ≡ image
  pub present_iff : (present ≡ true) ↔ (machine.path image ≡ found file)

-- A file of the driver's name in the drivers directory, which no listed driver key registers.
pub record DriverIsLeft (machine : MachineView) (environment : Environment)
    (driver_file image : Text) (present : Bool) : Type 0 where
  pub place : image ≡ system_root environment ++ (codes "\\System32\\drivers\\" ++ driver_file)
  pub there : machine.path image ≡ found file
  pub said : present ≡ true
  pub unregistered :
      (key : ServiceKey) → IsListed machine key → ¬ (Registers environment driver_file key)

-- A service is listed and not stale, or has a key that only the registry shows; a driver is registered, or
-- is a file that is left; a key and a path are there and removable.
abbrev pub IsGrounded : MachineView → Environment → Exceptions → Artifact → Type 0
IsGrounded machine environment exceptions (Model.service name image false) =
    (status : ServiceStatus) × (machine.service name ≡ found status)
    × (status.stale ≡ false)
    × (image ≡ some status.image)
IsGrounded machine environment exceptions (Model.service name image true) =
    (machine.service name ≡ absent)
    × ((key : ServiceKey) × (machine.service_key name ≡ found key) × (image ≡ nonempty key.image))
IsGrounded machine environment exceptions (Model.driver name (some service) image present) =
    DriverIsRegistered machine environment name service image present
IsGrounded machine environment exceptions (Model.driver name none image present) =
    DriverIsLeft machine environment name image present
IsGrounded machine environment exceptions (Model.registry_key key view) =
    KeyIsRemovable exceptions key × (machine.registry_key key view ≡ found tt)
IsGrounded machine environment exceptions (Model.path path directory) =
    PathIsGrounded machine exceptions path directory

-- All that an audit of an entry has found is grounded.
abbrev pub IsSafe : MachineView → Environment → AntiCheat → State → Type 0
IsSafe machine environment entry state =
    All (λ pending. IsGrounded machine environment (exceptions_for entry) pending.artifact)
      state.found

pub push-IsSafe :
    (machine : MachineView) (environment : Environment) (entry : AntiCheat) (pending : Pending)
    (state : State)
    → IsGrounded machine environment (exceptions_for entry) pending.artifact
    → IsSafe machine environment entry state
    → IsSafe machine environment entry (push pending state)
unfolding push
push-IsSafe machine environment entry pending state grounded safe =
    All-append _ state.found (pending ∷ []) safe (grounded, tt)
