-- ===== src/Catalog/Validate/Entries.antt =====
-- core/src/catalog/validate.rs: what a catalog that `validate` finds no problem with satisfies.
use wardsweep.Base.{
  ℕ, ◌≡◌, ◌≢◌, refl, true, false, ◌&&◌, Option, none, some, List, [], arith, All, is_nil,
  if◌then◌else◌,
}
use wardsweep.Text.Chars.{Text}
use wardsweep.Text.{codes, contains}
use wardsweep.Text.Laws.Case.{eq_ignore_case_iff}
use wardsweep.Denylist.Patterns.{Same}
use wardsweep.Catalog.Schema.{
  Catalog, supported_schema_version, AntiCheat, Game, kernel, usermode, critical, Kind, Risk,
}
use wardsweep.Catalog.Problems.{Checked, Location, nothing, ⊕-eq_nil, each-sound}
use wardsweep.Catalog.Validate.Fields.{is_hash, is_kebab, check_id}
use wardsweep.Catalog.Validate.{
  is_sys, check_hash, check_driver, validate_anticheat, validate_anticheat_at, validate_game,
  validate, is_kernel, is_usermode, is_critical,
}
use wardsweep.Catalog.Validate.Sound.{PathIsValid, KeyIsValid, check_paths-All, check_registry-All}

-- A bare file name that ends in `.sys`.
pub record DriverIsValid (extension : Text → Option Text) (driver : Text) : Type 0 where
  pub no_backslash : contains b'\\' driver ≡ false
  pub no_slash : contains b'/' driver ≡ false
  pub suffix : Text
  pub has_suffix : extension driver ≡ some suffix
  pub sys_suffix : Same suffix (codes "sys")

pub record AntiCheatIsValid (extension : Text → Option Text) (ac : AntiCheat) : Type 0 where
  pub kebab : is_kebab ac.id ≡ true
  pub kernel_has_drivers : ac.kind ≡ kernel → ac.drivers ≢ []
  pub critical_not_usermode : ac.risk ≡ critical → ac.kind ≢ usermode
  pub drivers : All (DriverIsValid extension) ac.drivers
  pub hashes : All (λ hash. is_hash hash ≡ true) ac.file_hashes
  pub paths : All (PathIsValid false) ac.paths
  pub registry : All KeyIsValid ac.registry

pub record GameIsValid (g : Game) : Type 0 where
  pub kebab : is_kebab g.id ≡ true
  pub install_hints : All (PathIsValid false) g.install_hints
  pub residue : All (PathIsValid false) g.residue
  pub saves : All (PathIsValid true) g.saves
  pub registry : All KeyIsValid g.registry

check_id-kebab : (at : Location) (id : Text) → check_id at id ≡ nothing → is_kebab id ≡ true
unfolding check_id
check_id-kebab at id h = ground arith

check_hash_sound :
    (at : Location) (index : ℕ) (hash : Text)
    → check_hash at index hash ≡ nothing
    → is_hash hash ≡ true
unfolding check_hash
check_hash_sound at index hash h = ground arith

is_sys_sound :
    (suffix : Option Text)
    → is_sys suffix ≡ true
    → (s : Text) × (suffix ≡ some s) × Same s (codes "sys")
unfolding is_sys
is_sys_sound none h = cc
is_sys_sound (some s) h = (s, refl, (eq_ignore_case_iff s (codes "sys")).0 h)

check_driver_sound :
    (extension : Text → Option Text) (at : Location) (index : ℕ) (driver : Text)
    → check_driver extension at index driver ≡ nothing
    → DriverIsValid extension driver
unfolding check_driver
check_driver_sound extension at index driver h =
    let (path, sys) = ⊕-eq_nil _ _ h in
    let (suffix, found, same) = is_sys_sound (extension driver) (ground arith) in
    record {
      no_backslash = ground (arith, path);
      no_slash = ground (arith, path);
      suffix = suffix;
      has_suffix = found;
      sys_suffix = same;
    }

kernel_rule :
    (kind : Kind) (drivers : List Text) (found : Checked)
    → (if is_kernel kind && is_nil drivers then found else nothing) ≡ nothing
    → found ≢ nothing
    → kind ≡ kernel
    → drivers ≢ []
kernel_rule kind drivers found h n k e = n (ground arith)

critical_rule :
    (risk : Risk) (kind : Kind) (found : Checked)
    → (if is_critical risk && is_usermode kind then found else nothing) ≡ nothing
    → found ≢ nothing
    → risk ≡ critical
    → kind ≢ usermode
critical_rule risk kind found h n r k = n (ground arith)

validate_anticheat_at_sound :
    (extension : Text → Option Text) (index : ℕ) (ac : AntiCheat)
    → validate_anticheat_at extension index ac ≡ nothing
    → AntiCheatIsValid extension ac
unfolding validate_anticheat_at validate_anticheat
validate_anticheat_at_sound extension index ac h =
    let (id, h₀) = ⊕-eq_nil _ _ h in
    let (display, h₁) = ⊕-eq_nil _ _ h₀ in
    let (no_drivers, h₂) = ⊕-eq_nil _ _ h₁ in
    let (reserved, h₃) = ⊕-eq_nil _ _ h₂ in
    let (drivers, h₄) = ⊕-eq_nil _ _ h₃ in
    let (hashes, h₅) = ⊕-eq_nil _ _ h₄ in
    let (services, h₆) = ⊕-eq_nil _ _ h₅ in
    let (paths, h₇) = ⊕-eq_nil _ _ h₆ in
    let (registry, official) = ⊕-eq_nil _ _ h₇ in
    record {
      kebab = check_id-kebab _ ac.id id;
      kernel_has_drivers = kernel_rule ac.kind ac.drivers _ no_drivers (λ e. cc e);
      critical_not_usermode = critical_rule ac.risk ac.kind _ reserved (λ e. cc e);
      drivers =
          each-sound (check_driver extension _) (DriverIsValid extension)
            (check_driver_sound extension _) 0 ac.drivers drivers;
      hashes = each-sound (check_hash _) _ (check_hash_sound _) 0 ac.file_hashes hashes;
      paths = check_paths-All _ _ ac.paths false paths;
      registry = check_registry-All _ ac.registry registry;
    }

validate_game_sound : (index : ℕ) (g : Game) → validate_game index g ≡ nothing → GameIsValid g
unfolding validate_game
validate_game_sound index g h =
    let (id, h₀) = ⊕-eq_nil _ _ h in
    let (hints, h₁) = ⊕-eq_nil _ _ h₀ in
    let (residue, h₂) = ⊕-eq_nil _ _ h₁ in
    let (saves, registry) = ⊕-eq_nil _ _ h₂ in
    record {
      kebab = check_id-kebab _ g.id id;
      install_hints = check_paths-All _ _ g.install_hints false hints;
      residue = check_paths-All _ _ g.residue false residue;
      saves = check_paths-All _ _ g.saves true saves;
      registry = check_registry-All _ g.registry registry;
    }

-- A catalog with which `validate` finds no problem has the supported schema version, and its
-- entries are valid. An anti-cheat has a kebab-case id, drivers if it is a kernel one, no critical
-- risk if it is a user-mode one, bare `.sys` driver names and hashes of 64 hex characters. The
-- paths of anti-cheats and games hold no wildcard and no relative component, expand, canonicalise,
-- and are of class `save` exactly where they stand in a game's `saves`; the registry keys
-- canonicalise and are not of class `save`.
pub validate_sound :
    (extension : Text → Option Text) (catalog : Catalog)
    → validate extension catalog ≡ nothing
    → (catalog.schema_version ≡ supported_schema_version)
      × All (AntiCheatIsValid extension) catalog.anticheat
      × All GameIsValid catalog.game
unfolding validate
validate_sound extension catalog h =
    let (version, h₀) = ⊕-eq_nil _ _ h in
    let (data_version, h₁) = ⊕-eq_nil _ _ h₀ in
    let (app_version, h₂) = ⊕-eq_nil _ _ h₁ in
    let (anticheats, h₃) = ⊕-eq_nil _ _ h₂ in
    let (games, launchers) = ⊕-eq_nil _ _ h₃ in
    (
      ground (arith, version),
      each-sound (validate_anticheat_at extension) (AntiCheatIsValid extension)
          (validate_anticheat_at_sound extension) 0 catalog.anticheat anticheats,
      each-sound validate_game GameIsValid validate_game_sound 0 catalog.game games,
    )
