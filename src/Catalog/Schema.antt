-- ===== src/Catalog/Schema.antt =====
-- core/src/catalog/schema.rs: the parsed catalog. Reading TOML is serde's.
use wardsweep.Base.{ℕ, Bool, List, Option}
use wardsweep.Text.Chars.{Text}

abbrev pub supported_schema_version : ℕ
supported_schema_version = 1

pub data Kind : Type 0 where
  kernel usermode hybrid : Kind

pub data Risk : Type 0 where
  low medium high critical : Risk

-- `Class::Data` is `data_files`: the word alone is the language's.
pub data Class : Type 0 where
  install data_files config service cache log save : Class

pub data View : Type 0 where
  bits32 bits64 both : View

pub record PathEntry : Type 0 where
  pub path : Text
  pub class : Class

pub record RegistryEntry : Type 0 where
  pub key : Text
  pub view : View
  pub class : Class

-- `UninstallKind::None` is `nothing`.
pub data UninstallKind : Type 0 where
  exe msi nothing : UninstallKind

pub record OfficialUninstall : Type 0 where
  pub kind : UninstallKind
  pub command : Option Text
  pub args : List Text
  pub timeout_secs : Option ℕ

pub record SharedEvidence : Type 0 where
  pub titles_observed : List Text
  pub observation_ids : List Text
  pub note : Option Text

pub record AntiCheat : Type 0 where
  pub id : Text
  pub display : Text
  pub vendor : Option Text
  pub kind : Kind
  pub shared : Bool
  pub shared_evidence : Option SharedEvidence
  pub risk : Risk
  pub authenticode_cn : List Text
  pub file_hashes : List Text
  pub services : List Text
  pub drivers : List Text
  pub paths : List PathEntry
  pub registry : List RegistryEntry
  pub tasks : List Text
  pub firewall_rules : List Text
  pub event_sources : List Text
  pub official_uninstall : Option OfficialUninstall

pub record Game : Type 0 where
  pub id : Text
  pub display : Text
  pub publisher : Option Text
  pub anticheat : List Text
  pub platforms : List Text
  pub steam_appid : Option ℕ
  pub epic_app_name : Option Text
  pub install_hints : List PathEntry
  pub residue : List PathEntry
  pub saves : List PathEntry
  pub registry : List RegistryEntry

pub data LauncherUninstallKind : Type 0 where
  protocol msi msi_from_manifest exe nothing : LauncherUninstallKind

pub record LauncherUninstall : Type 0 where
  pub kind : LauncherUninstallKind
  pub command : Option Text
  pub silent : Bool

pub record Launcher : Type 0 where
  pub id : Text
  pub display : Text
  pub detect_registry : Option Text
  pub library_index : Option Text
  pub manifest_glob : Option Text
  pub uninstall : Option LauncherUninstall

pub record Catalog : Type 0 where
  pub schema_version : ℕ
  pub catalog_version : Text
  pub minimum_app_version : Text
  pub anticheat : List AntiCheat
  pub game : List Game
  pub launcher : List Launcher
