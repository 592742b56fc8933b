-- ===== src/Examples/DenylistExamples.antt =====
-- Runs of core/src/safety/denylist.rs.
use wardsweep.Base.{◌≡◌, ◌≢◌, ◌↔◌, ◌⊎◌, refl, false, true, some, List, [], ◌∷◌, map, err}
use wardsweep.Text.Chars.{Text}
use wardsweep.Text.{codes}
use wardsweep.Paths.Canonical.{drive_rooted, CanonicalPath}
use wardsweep.Paths.RegKey.{CanonicalRegKey, hklm}
use wardsweep.Denylist.Exceptions.{Exceptions, none_allowed, new}
use wardsweep.Denylist.Check.{
  allowed, catalog_load, on_disk, check_path, protected_system_path, protected_registry_key,
}
use wardsweep.Denylist.Keys.{check_registry_key}
use wardsweep.Denylist.Carveout.{IsUnprotected, check_path-carveout, inbox_driver-denied}
use wardsweep.Denylist.Footprint.{HasEvidence, IsNamedDriver, IsRemovable, check_path_iff}
use wardsweep.Denylist.KeyRules.{IsNamedService}
use wardsweep.Denylist.KeyRules.Sound.{IsRemovableKey, check_registry_key-IsRemovableKey}
use wardsweep.Denylist.KeyRules.Carveout.{check_registry_key-carveout, inbox_service-denied}
use wardsweep.Examples.Running.{denylist}

abbrev driver_path : Text → CanonicalPath
driver_path file = record {
  text = [];
  kind = drive_rooted;
  drive = some b'C';
  components = codes "WINDOWS" ∷ codes "SYSTEM32" ∷ codes "DRIVERS" ∷ file ∷ [];
  short_name = false;
  resolved_via_handle = true;
}

abbrev vanguard_drivers : List Text
vanguard_drivers = map codes ("vgk.sys" ∷ "sub\\NTFS.sys" ∷ [])

abbrev vanguard_services : List Text
vanguard_services = map codes ("vgk" ∷ "Tcpip" ∷ [])

abbrev vanguard : Exceptions
vanguard = new vanguard_drivers vanguard_services

vgk_allowed : check_path (driver_path (codes "VGK.SYS")) vanguard (on_disk false) ≡ allowed
unfolding denylist
vgk_allowed = refl

vgk_denied :
    check_path (driver_path (codes "VGK.SYS")) none_allowed catalog_load ≡ err protected_system_path
unfolding denylist
vgk_denied = refl

check_path_iff_example :
    (check_path (driver_path (codes "VGK.SYS")) vanguard (on_disk false) ≡ allowed) ↔ (
      HasEvidence (on_disk false) (driver_path (codes "VGK.SYS"))
      × (drive_rooted ≡ drive_rooted)
      × (false ≡ false)
      × IsRemovable vanguard
          (codes "WINDOWS" ∷ codes "SYSTEM32" ∷ codes "DRIVERS" ∷ codes "VGK.SYS" ∷ []))
check_path_iff_example = check_path_iff (driver_path (codes "VGK.SYS")) vanguard (on_disk false)

check_path-carveout_example :
    (check_path (driver_path (codes "VGK.SYS")) vanguard (on_disk false) ≡ allowed) ↔ (
      (check_path (driver_path (codes "VGK.SYS")) none_allowed (on_disk false) ≡ allowed)
        × IsUnprotected (driver_path (codes "VGK.SYS")).components
      ⊎ HasEvidence (on_disk false) (driver_path (codes "VGK.SYS"))
        × ((driver_path (codes "VGK.SYS")).kind ≡ drive_rooted)
        × ((driver_path (codes "VGK.SYS")).short_name ≡ false)
        × IsNamedDriver vanguard (driver_path (codes "VGK.SYS")).components)
check_path-carveout_example =
    check_path-carveout (driver_path (codes "VGK.SYS")) vanguard (on_disk false)

inbox_driver-denied_example :
    check_path (driver_path (codes "NTFS.SYS")) vanguard (on_disk false) ≢ allowed
unfolding denylist
inbox_driver-denied_example =
    inbox_driver-denied (driver_path (codes "NTFS.SYS")) vanguard_drivers vanguard_services
      (on_disk false) (codes "WINDOWS") (codes "SYSTEM32") (codes "DRIVERS") (codes "NTFS.SYS") refl
      refl refl

abbrev service_key : Text → CanonicalRegKey
service_key name = record {
  hive = hklm;
  components = codes "SYSTEM" ∷ codes "CONTROLSET001" ∷ codes "SERVICES" ∷ name ∷ [];
  text = [];
}

vgk_key_allowed : check_registry_key (service_key (codes "VGK")) vanguard ≡ allowed
unfolding denylist
vgk_key_allowed = refl

check_registry_key-IsRemovableKey_example :
    IsRemovableKey vanguard hklm (service_key (codes "VGK")).components
check_registry_key-IsRemovableKey_example =
    check_registry_key-IsRemovableKey (service_key (codes "VGK")) vanguard vgk_key_allowed

check_registry_key-carveout_example :
    (check_registry_key (service_key (codes "VGK")) none_allowed ≡ allowed)
    ⊎ (hklm ≡ hklm) × IsNamedService vanguard (service_key (codes "VGK")).components
check_registry_key-carveout_example =
    check_registry_key-carveout (service_key (codes "VGK")) vanguard vgk_key_allowed

inbox_service-denied_example : check_registry_key (service_key (codes "TCPIP")) vanguard ≢ allowed
unfolding denylist
inbox_service-denied_example =
    inbox_service-denied (service_key (codes "TCPIP")) vanguard_drivers vanguard_services
      (codes "TCPIP") refl refl refl

uninstall_in_32_bit_view :
    check_registry_key
      (record {
        hive = hklm;
        components =
            map codes ("SOFTWARE" ∷ "WOW6432NODE" ∷ "MICROSOFT" ∷ "CRYPTOGRAPHY" ∷ "ANY" ∷ []);
        text = [];
      })
      vanguard
    ≡ err protected_registry_key
unfolding denylist
uninstall_in_32_bit_view = refl
