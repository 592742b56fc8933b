-- ===== src/Observe/Model.antt =====
-- tools/observe/src/model.rs: what a snapshot records.
use wardsweep.Base.{ℕ, Bool, Option, none, some, List, ◌++◌}
use wardsweep.Text.Chars.{Text}
use wardsweep.Text.{codes, text_eq, ascii_lower, ends_with}
use wardsweep.Text.Search.{contains_text, decimal}
use wardsweep.Scan.Libraries.{Library}

abbrev pub snapshot_format_version : ℕ
snapshot_format_version = 2

abbrev pub oldest_snapshot_format : ℕ
oldest_snapshot_format = 1

pub data Domain : Type 0 where
  services registry filesystem scheduled_tasks firewall event_sources environment : Domain

pub record AccessDenied : Type 0 where
  pub domain : Domain
  pub item : Text
  pub reason : Text

pub record Coverage : Type 0 where
  pub captured : List Domain
  pub not_captured : List Domain
  pub access_denied : List AccessDenied

pub record RegistryKeyRef : Type 0 where
  pub key : Text
  pub view : Text

pub record BootSession : Type 0 where
  pub started_utc : Text
  pub started_unix_ms : ℕ
  pub uptime_ms : ℕ

pub record FilesystemPolicy : Type 0 where
  pub roots : List Text
  pub excluded : List Text
  pub hashed_extensions : List Text
  pub max_hash_bytes : ℕ
  pub libraries : List Library

pub record RegistryPolicy : Type 0 where
  pub roots : List Text
  pub views : List Text
  pub excluded : List Text
  pub max_value_bytes : ℕ

pub record RegistryValue : Type 0 where
  pub name : Text
  pub kind : Text
  pub value : Text
  pub oversized_bytes : Option ℕ

pub record RegistryRecord : Type 0 where
  pub key : Text
  pub view : Text
  pub values : List RegistryValue

unfoldable pub rendered : Text → Text → Option ℕ → Text
rendered kind value none = kind ++ (codes ":" ++ value)
rendered kind value (some bytes) =
    kind ++ (codes ":<" ++ (decimal bytes ++ codes " bytes, not recorded>"))

-- `RegistryValue::comparable`
unfoldable pub comparable : RegistryValue → Text
comparable value = rendered value.kind value.value value.oversized_bytes

pub record FileRecord : Type 0 where
  pub path : Text
  pub size : ℕ
  pub modified_utc : Text
  pub sha256 : Option Text
  pub signer : Option Text
  pub not_hashed : Option Text

unfoldable pub is_driver_image : FileRecord → Bool
is_driver_image record_ = ends_with (ascii_lower record_.path) (codes ".sys")

pub record ServiceRecord : Type 0 where
  pub name : Text
  pub display_name : Text
  pub service_type : Text
  pub start_type : Text
  pub error_control : Text
  pub binary_path : Text
  pub load_order_group : Text
  pub start_name : Text
  pub dependencies : List Text
  pub description : Text
  pub delayed_auto_start : Bool

unfoldable pub is_driver : ServiceRecord → Bool
is_driver record_ = contains_text (codes "driver") record_.service_type

unfoldable pub is_boot_start : ServiceRecord → Bool
is_boot_start record_ = text_eq record_.start_type (codes "boot")

pub record Snapshot : Type 0 where
  pub format_version : ℕ
  pub taken_utc : Text
  pub domain_started_utc : List (Text × Text)
  pub boot_session : Option BootSession
  pub harness_version : Text
  pub label : Text
  pub coverage : Coverage
  pub services : List ServiceRecord
  pub files : List FileRecord
  pub registry : List RegistryRecord
  pub registry_policy : Option RegistryPolicy
  pub filesystem_policy : Option FilesystemPolicy
  pub file_empty_directories : Option (List Text)
  pub registry_empty_keys : Option (List RegistryKeyRef)
