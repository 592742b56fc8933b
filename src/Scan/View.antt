-- ===== src/Scan/View.antt =====
-- core/src/scan/view.rs: the machine, as the audit reads it.
use wardsweep.Base.{ℕ, Bool, ◌==◌, ◌||◌, List}
use wardsweep.Text.Chars.{Text}
use wardsweep.Scan.Model.{RegView}

pub data Lookup {ℓ} (A : Type ℓ) : Type ℓ where
  found : A → Lookup A
  absent : Lookup A
  unreadable : Text → Lookup A

pub record ServiceStatus : Type 0 where
  pub image : Text
  pub stale : Bool

pub record ServiceKey : Type 0 where
  pub name : Text
  pub image : Text
  pub service_type : ℕ

unfoldable pub is_driver : ServiceKey → Bool
is_driver key = key.service_type == 1 || key.service_type == 2 || key.service_type == 8

pub record DriverKeys : Type 0 where
  pub drivers : List ServiceKey
  pub unreadable : List (Text × Text)

pub data PathKind : Type 0 where
  file directory reparse_point : PathKind

pub data Signature : Type 0 where
  verified : Text → Signature
  unsigned invalid : Signature
  unknown : Text → Signature

-- The trait, as a record of its methods.
pub record MachineView : Type 0 where
  pub service : Text → Lookup ServiceStatus
  pub service_key : Text → Lookup ServiceKey
  pub driver_keys : Lookup DriverKeys
  pub registry_key : Text → RegView → Lookup (Unit {0})
  pub path : Text → Lookup PathKind
  pub signature : Text → Signature
