-- ===== src/Examples/CatalogExamples.antt =====
-- Runs of core/src/catalog.
use wardsweep.Base.{◌≡◌, refl, false, true, Option, none, some, [], ◌∷◌, map, All, ok}
use wardsweep.Text.Chars.{Text}
use wardsweep.Text.{codes, after_last}
use wardsweep.Catalog.Schema.{
  Catalog, supported_schema_version, AntiCheat, Game, Launcher, PathEntry, kernel, critical,
  install, service, save, both,
}
use wardsweep.Catalog.Expand.{
  known_variables, candidates_upper, candidates_for, extend_one, extend, is_known, expand_pieces,
  expand_with, expand_for_validation,
}
use wardsweep.Catalog.Problems.{each, nothing}
use wardsweep.Catalog.Gate.{
  exceptions_for, path_verdict, canonical_verdict, check_expansions, expanded_verdict,
  check_denylist_path, check_denylist_paths, key_verdict, canonical_key_verdict, check_denylist_key,
  check_denylist_keys, check_driver_name, check_service_name, check_denylist_anticheat,
  check_denylist_game, check_denylist,
}
use wardsweep.Catalog.Gate.Sound.{AntiCheatIsSafe, GameIsSafe, check_denylist-IsSafe}
use wardsweep.Catalog.Refs.{
  previous, report_reuse, check_ids, all_ids, check_anticheat_ref, check_launcher_ref,
  check_game_refs, check_refs,
}
use wardsweep.Catalog.Refs.Sound.{DistinctIds, RefsExist, check_refs_sound}
use wardsweep.Catalog.Shared.{
  insert, distinct_titles, check_titles, check_observations, check_evidence, audit_anticheat,
  audit_shared,
}
use wardsweep.Catalog.Shared.Sound.{IsSubstantiated, audit_shared-IsSubstantiated}
use wardsweep.Catalog.Validate.Fields.{
  is_hash, is_product_code, looks_like_product_code, is_kebab_segment, is_kebab, check_id,
  component_problem, non_canonical_component, canonicalised, check_each_expansion, expanded,
  check_class, check_wildcard, check_path_entry, check_paths, canonical_key, check_registry_entry,
  check_registry,
}
use wardsweep.Catalog.Validate.{
  is_sys, check_exe, check_msi, check_uninstall, check_official, check_hash, check_driver,
  validate_anticheat, validate_anticheat_at, validate_game, check_launcher_uninstall,
  check_detect_registry, validate_launcher, validate,
}
use wardsweep.Catalog.Validate.Entries.{AntiCheatIsValid, GameIsValid, validate_sound}
use wardsweep.Examples.Running.{Run, run, denylist}

abbrev entry : Text → PathEntry
entry path = record { path = path; class = install }

abbrev pub vanguard : AntiCheat
vanguard = record {
  id = codes "riot-vanguard";
  display = codes "Vanguard";
  vendor = none;
  kind = kernel;
  shared = false;
  shared_evidence = some (record {
    titles_observed = map codes ("VALORANT" ∷ " valorant " ∷ "League of Legends" ∷ []);
    observation_ids = map codes ("2026-08-19-riot-vanguard" ∷ []);
    note = none;
  });
  risk = critical;
  authenticode_cn = [];
  file_hashes = [];
  services = map codes ("vgc" ∷ "vgk" ∷ []);
  drivers = map codes ("vgk.sys" ∷ []);
  paths =
      entry (codes "%ProgramFiles%\\Riot Vanguard")
      ∷ entry (codes "%SystemRoot%\\System32\\drivers\\vgk.sys")
      ∷ [];
  registry =
      (record {
        key = codes "HKLM\\SYSTEM\\CurrentControlSet\\Services\\vgk";
        view = both;
        class = service;
      })
      ∷ [];
  tasks = [];
  firewall_rules = [];
  event_sources = [];
  official_uninstall = none;
}

abbrev valorant : Game
valorant = record {
  id = codes "valorant";
  display = codes "VALORANT";
  publisher = none;
  anticheat = codes "riot-vanguard" ∷ [];
  platforms = codes "steam" ∷ [];
  steam_appid = none;
  epic_app_name = none;
  install_hints = entry (codes "%STEAM_LIBRARY%\\steamapps\\common\\VALORANT") ∷ [];
  residue = [];
  saves = record { path = codes "%LOCALAPPDATA%\\VALORANT\\Saved"; class = save } ∷ [];
  registry = [];
}

abbrev steam : Launcher
steam = record {
  id = codes "steam";
  display = codes "Steam";
  detect_registry = some (codes "HKLM\\SOFTWARE\\Valve\\Steam");
  library_index = none;
  manifest_glob = none;
  uninstall = none;
}

abbrev pub catalog : Catalog
catalog = record {
  schema_version = 1;
  catalog_version = codes "2026.10";
  minimum_app_version = codes "0.1.0";
  anticheat = vanguard ∷ [];
  game = valorant ∷ [];
  launcher = steam ∷ [];
}

-- What `Path::extension` answers for these names.
abbrev extension : Text → Option Text
extension name = unfold after_last in after_last b'.' name

unfoldable catalogs : Run
unfolding denylist known_variables candidates_upper candidates_for extend_one extend is_known
    expand_pieces expand_with expand_for_validation each exceptions_for path_verdict
    canonical_verdict check_expansions expanded_verdict check_denylist_path check_denylist_paths
    key_verdict canonical_key_verdict check_denylist_key check_denylist_keys check_driver_name
    check_service_name check_denylist_anticheat check_denylist_game check_denylist previous
    report_reuse check_ids all_ids check_anticheat_ref check_launcher_ref check_game_refs check_refs
    insert distinct_titles check_titles check_observations check_evidence audit_anticheat
    audit_shared is_hash is_product_code looks_like_product_code is_kebab_segment is_kebab check_id
    component_problem non_canonical_component canonicalised check_each_expansion expanded
    check_class check_wildcard check_path_entry check_paths canonical_key check_registry_entry
    check_registry is_sys check_exe check_msi check_uninstall check_official check_hash check_driver
    validate_anticheat validate_anticheat_at validate_game check_launcher_uninstall
    check_detect_registry validate_launcher validate
catalogs = run

two_libraries :
    expand_for_validation (codes "%epic_library%\\Game")
    ≡ ok (map codes ("C:\\Program Files\\Epic Games\\Game" ∷ "D:\\Epic Games\\Game" ∷ []))
unfolding catalogs
two_libraries = refl

gate_passes : check_denylist catalog ≡ nothing
unfolding catalogs
gate_passes = refl

check_denylist-IsSafe_example : All AntiCheatIsSafe (vanguard ∷ []) × All GameIsSafe (valorant ∷ [])
check_denylist-IsSafe_example = check_denylist-IsSafe catalog gate_passes

refs_pass : check_refs catalog ≡ nothing
unfolding catalogs
refs_pass = refl

check_refs_sound_example : DistinctIds (all_ids catalog) × All (RefsExist catalog) (valorant ∷ [])
check_refs_sound_example = check_refs_sound catalog refs_pass

audit_passes : audit_shared catalog true ≡ nothing
unfolding catalogs
audit_passes = refl

audit_shared-IsSubstantiated_example : All IsSubstantiated (vanguard ∷ [])
audit_shared-IsSubstantiated_example = audit_shared-IsSubstantiated catalog audit_passes

validate_passes : validate extension catalog ≡ nothing
unfolding catalogs
validate_passes = refl

validate_sound_example :
    (1 ≡ supported_schema_version)
    × All (AntiCheatIsValid extension) (vanguard ∷ [])
    × All GameIsValid (valorant ∷ [])
validate_sound_example = validate_sound extension catalog validate_passes
