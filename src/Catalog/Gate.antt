-- ===== src/Catalog/Gate.antt =====
-- core/src/catalog/validate.rs: `check_denylist`, the catalog's paths and keys against the deny-list.
pub mod Sound
use wardsweep.Base.{
  ℕ, Bool, Option, none, some, List, [], ◌∷◌, if◌then◌else◌, Outcome, ok, err, panic,
}
use wardsweep.Text.Chars.{Text}
use wardsweep.Text.{codes}
use wardsweep.Paths.Canonical.{CanonicalPath, PathError, canonicalise_syntactic}
use wardsweep.Paths.RegKey.{CanonicalRegKey, RegKeyError, canonicalise_reg_key}
use wardsweep.Denylist.Exceptions.{Exceptions, new, none_allowed, is_inbox_driver, is_inbox_service}
use wardsweep.Denylist.Check.{DenyReason, Verdict, catalog_load, check_path}
use wardsweep.Denylist.Keys.{check_registry_key}
use wardsweep.Catalog.Schema
use wardsweep.Catalog.Schema.{Catalog, AntiCheat, Game, PathEntry, RegistryEntry}
use wardsweep.Catalog.Expand.{ExpandError, expand_for_validation}
use wardsweep.Catalog.Problems.{
  Checked, Location, owner, item, Section, anticheat, game, inbox_driver, inbox_service,
  unchecked_expansion, unchecked_path, denied_path, unchecked_key, denied_key, problem, nothing,
  ◌⊕◌, each,
}

unfoldable pub exceptions_for : AntiCheat → Exceptions
exceptions_for ac = new ac.drivers ac.services

unfoldable pub path_verdict : Location → Text → CanonicalPath → Verdict → Checked
path_verdict at path canonical (ok _) = nothing
path_verdict at path canonical (err reason) = problem at (denied_path path canonical reason)
path_verdict at path canonical panic = none

unfoldable pub canonical_verdict :
    Location → Text → Exceptions → Outcome PathError CanonicalPath → Checked
canonical_verdict at path exceptions (ok canonical) =
    path_verdict at path canonical (check_path canonical exceptions catalog_load)
canonical_verdict at path exceptions (err error) = problem at (unchecked_path path error)
canonical_verdict at path exceptions panic = none

-- `for expansion in expansions`
unfoldable pub check_expansions : Location → Text → Exceptions → List Text → Checked
check_expansions at path exceptions [] = nothing
check_expansions at path exceptions (expansion ∷ expansions) =
    canonical_verdict at path exceptions (canonicalise_syntactic expansion)
    ⊕ check_expansions at path exceptions expansions

unfoldable pub expanded_verdict :
    Location → Text → Exceptions → Outcome ExpandError (List Text) → Checked
expanded_verdict at path exceptions (ok expansions) = check_expansions at path exceptions expansions
expanded_verdict at path exceptions (err error) = problem at (unchecked_expansion path error)
expanded_verdict at path exceptions panic = none

unfoldable pub check_denylist_path : Location → Text → Exceptions → ℕ → PathEntry → Checked
check_denylist_path at field exceptions index entry =
    expanded_verdict (item at field index) entry.path exceptions (expand_for_validation entry.path)

unfoldable pub check_denylist_paths : Location → Text → List PathEntry → Exceptions → Checked
check_denylist_paths at field entries exceptions =
    each 0 (check_denylist_path at field exceptions) entries

unfoldable pub key_verdict : Location → Text → Verdict → Checked
key_verdict at key (ok _) = nothing
key_verdict at key (err reason) = problem at (denied_key key reason)
key_verdict at key panic = none

unfoldable pub canonical_key_verdict :
    Location → Text → Exceptions → Outcome RegKeyError CanonicalRegKey → Checked
canonical_key_verdict at key exceptions (ok canonical) =
    key_verdict at key (check_registry_key canonical exceptions)
canonical_key_verdict at key exceptions (err error) = problem at (unchecked_key key error)
canonical_key_verdict at key exceptions panic = none

unfoldable pub check_denylist_key : Location → Exceptions → ℕ → RegistryEntry → Checked
check_denylist_key at exceptions index entry =
    canonical_key_verdict (item at (codes "registry") index) entry.key exceptions
      (canonicalise_reg_key entry.key)

unfoldable pub check_denylist_keys : Location → List RegistryEntry → Exceptions → Checked
check_denylist_keys at entries exceptions = each 0 (check_denylist_key at exceptions) entries

unfoldable pub check_driver_name : Location → ℕ → Text → Checked
check_driver_name at index driver =
    if is_inbox_driver driver
    then problem (item at (codes "drivers") index) (inbox_driver driver)
    else nothing

unfoldable pub check_service_name : Location → ℕ → Text → Checked
check_service_name at index service =
    if is_inbox_service service
    then problem (item at (codes "services") index) (inbox_service service)
    else nothing

-- One pass of the loop over `catalog.anticheat`.
unfoldable pub check_denylist_anticheat : ℕ → AntiCheat → Checked
check_denylist_anticheat index ac =
    let at = owner anticheat ac.id in
    each 0 (check_driver_name at) ac.drivers
    ⊕ each 0 (check_service_name at) ac.services
    ⊕ check_denylist_paths at (codes "paths") ac.paths (exceptions_for ac)
    ⊕ check_denylist_keys at ac.registry (exceptions_for ac)

-- One pass of the loop over `catalog.game`: a game earns no carve-out.
unfoldable pub check_denylist_game : ℕ → Game → Checked
check_denylist_game index g =
    let at = owner game g.id in
    check_denylist_paths at (codes "install_hints") g.install_hints none_allowed
    ⊕ check_denylist_paths at (codes "residue") g.residue none_allowed
    ⊕ check_denylist_paths at (codes "saves") g.saves none_allowed
    ⊕ check_denylist_keys at g.registry none_allowed

unfoldable pub check_denylist : Catalog → Checked
check_denylist catalog =
    each 0 check_denylist_anticheat catalog.anticheat ⊕ each 0 check_denylist_game catalog.game
