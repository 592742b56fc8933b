-- ===== src/Catalog/Validate.antt =====
-- core/src/catalog/validate.rs: `validate`, what the structure of a catalog cannot express.
-- `std::path::Path::extension` reads separators as the platform does, so it is a parameter.
pub mod Fields
pub mod Sound
pub mod Entries
use wardsweep.Base.{
  ℕ, Bool, true, false, not, ◌&&◌, ◌||◌, Option, none, some, List, [], ◌∷◌, ◌==◌, if◌then◌else◌,
  any, is_nil, Outcome, ok, err, panic,
}
use wardsweep.Text.Chars.{Text}
use wardsweep.Text.{codes, eq_ignore_case, contains, trim}
use wardsweep.Paths.RegKey.{canonicalise_reg_key}
use wardsweep.Catalog.Schema.{
  Catalog, AntiCheat, Game, Launcher, LauncherUninstall, OfficialUninstall,
  supported_schema_version, Kind, kernel, usermode, hybrid, Risk, critical, UninstallKind,
  LauncherUninstallKind,
}
use wardsweep.Catalog.Problems.{
  Checked, Location, anticheat, game, launcher, top, entry, field, item, unsupported_schema_version,
  must_not_be_empty, kernel_without_drivers, critical_usermode, bad_hash, empty_service_name,
  driver_is_path, driver_not_sys, exe_requires_command, msi_requires_command, none_carries_command,
  not_product_code, launcher_requires_command, not_a_registry_key, problem, nothing, ◌⊕◌, each,
}
use Fields.{check_id, check_paths, check_registry, is_hash, looks_like_product_code}

-- A test that pushes a problem when it passes.
abbrev pub report : Bool → Checked → Checked
report test found = if test then found else nothing

abbrev pub is_kernel : Kind → Bool
is_kernel kernel = true
is_kernel _ = false

abbrev pub is_usermode : Kind → Bool
is_usermode usermode = true
is_usermode _ = false

abbrev pub is_critical : Risk → Bool
is_critical critical = true
is_critical _ = false

abbrev pub is_none {ℓ} : {A : Type ℓ} → Option A → Bool
is_none none = true
is_none (some a) = false

unfoldable pub is_sys : Option Text → Bool
is_sys none = false
is_sys (some extension) = eq_ignore_case extension (codes "sys")

unfoldable pub check_exe : Location → Option Text → Checked
check_exe at none = problem at exe_requires_command
check_exe at (some command) = report (is_nil (trim command)) (problem at exe_requires_command)

unfoldable pub check_msi : Location → Option Text → Checked
check_msi at none = problem at msi_requires_command
check_msi at (some code) =
    report (not (looks_like_product_code code)) (problem at (not_product_code code))

-- The `match` on the kind of `official_uninstall`.
unfoldable pub check_uninstall : Location → UninstallKind → Option Text → Checked
check_uninstall at UninstallKind.exe command = check_exe at command
check_uninstall at UninstallKind.msi command = check_msi at command
check_uninstall at UninstallKind.nothing command =
    report (not (is_none command)) (problem at none_carries_command)

unfoldable pub check_official : Location → Option OfficialUninstall → Checked
check_official at none = nothing
check_official at (some uninstall) =
    check_uninstall (field at (codes "official_uninstall")) uninstall.kind uninstall.command

unfoldable pub check_hash : Location → ℕ → Text → Checked
check_hash at index hash =
    report (not (is_hash hash)) (problem (item at (codes "file_hashes") index) bad_hash)

module _ (extension : Text → Option Text) where
  unfoldable pub check_driver : Location → ℕ → Text → Checked
  check_driver at index driver =
      report (contains b'\\' driver || contains b'/' driver)
        (problem (item at (codes "drivers") index) (driver_is_path driver))
      ⊕ report (not (is_sys (extension driver)))
          (problem (item at (codes "drivers") index) (driver_not_sys driver))

  unfoldable pub validate_anticheat : Location → AntiCheat → Checked
  validate_anticheat at ac =
      report (is_nil (trim ac.display)) (problem (field at (codes "display")) must_not_be_empty)
      ⊕ report (is_kernel ac.kind && is_nil ac.drivers)
          (problem (field at (codes "drivers")) kernel_without_drivers)
      ⊕ report (is_critical ac.risk && is_usermode ac.kind)
          (problem (field at (codes "risk")) critical_usermode)
      ⊕ each 0 (check_driver at) ac.drivers
      ⊕ each 0 (check_hash at) ac.file_hashes
      ⊕ report (any (λ s. is_nil (trim s)) ac.services)
          (problem (field at (codes "services")) empty_service_name)
      ⊕ check_paths at (codes "paths") ac.paths false
      ⊕ check_registry at ac.registry
      ⊕ check_official at ac.official_uninstall

  unfoldable pub validate_anticheat_at : ℕ → AntiCheat → Checked
  validate_anticheat_at index ac =
      let at = entry anticheat index ac.id in check_id at ac.id ⊕ validate_anticheat at ac

unfoldable pub validate_game : ℕ → Game → Checked
validate_game index g =
    let at = entry game index g.id in
    check_id at g.id
    ⊕ check_paths at (codes "install_hints") g.install_hints false
    ⊕ check_paths at (codes "residue") g.residue false
    ⊕ check_paths at (codes "saves") g.saves true
    ⊕ check_registry at g.registry

abbrev pub needs_command : LauncherUninstallKind → Bool
needs_command LauncherUninstallKind.protocol = true
needs_command LauncherUninstallKind.msi = true
needs_command LauncherUninstallKind.exe = true
needs_command LauncherUninstallKind.msi_from_manifest = false
needs_command LauncherUninstallKind.nothing = false

unfoldable pub check_launcher_uninstall : Location → Option LauncherUninstall → Checked
check_launcher_uninstall at none = nothing
check_launcher_uninstall at (some uninstall) =
    report (needs_command uninstall.kind && is_none uninstall.command)
      (problem (field at (codes "uninstall")) (launcher_requires_command uninstall.kind))

unfoldable pub check_detect_registry : Location → Option Text → Checked
check_detect_registry at none = nothing
check_detect_registry at (some key) = elim (canonicalise_reg_key key) [
  | ok _ ↦ nothing
  | err _ ↦ problem (field at (codes "detect_registry")) (not_a_registry_key key)
  | panic ↦ none
]

unfoldable pub validate_launcher : ℕ → Launcher → Checked
validate_launcher index l =
    let at = entry launcher index l.id in
    check_id at l.id
    ⊕ check_launcher_uninstall at l.uninstall
    ⊕ check_detect_registry at l.detect_registry

unfoldable pub validate : (Text → Option Text) → Catalog → Checked
validate extension catalog =
    report (not (catalog.schema_version == supported_schema_version))
      (problem (top (codes "schema_version")) (unsupported_schema_version catalog.schema_version))
    ⊕ report (is_nil (trim catalog.catalog_version))
        (problem (top (codes "catalog_version")) must_not_be_empty)
    ⊕ report (is_nil (trim catalog.minimum_app_version))
        (problem (top (codes "minimum_app_version")) must_not_be_empty)
    ⊕ each 0 (validate_anticheat_at extension) catalog.anticheat
    ⊕ each 0 validate_game catalog.game
    ⊕ each 0 validate_launcher catalog.launcher
