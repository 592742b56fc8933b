-- ===== src/Catalog/Gate/Sound.antt =====
-- core/src/catalog/validate.rs: what a catalog that `check_denylist` finds no problem with names.
use wardsweep.Base.{ℕ, ◌≡◌, refl, false, List, [], ◌∷◌, All, Outcome, ok, err, panic}
use wardsweep.Text.Chars.{Text}
use wardsweep.Paths.Canonical.{drive_rooted, CanonicalPath, PathError, canonicalise_syntactic}
use wardsweep.Paths.RegKey.{CanonicalRegKey, RegKeyError, canonicalise_reg_key}
use wardsweep.Denylist.Exceptions.{Exceptions, none_allowed}
use wardsweep.Denylist.Check.{Verdict, allowed, catalog_load, check_path}
use wardsweep.Denylist.Keys.{check_registry_key}
use wardsweep.Denylist.Footprint.{IsRemovable, check_path_iff}
use wardsweep.Denylist.KeyRules.Sound.{IsRemovableKey, check_registry_key-IsRemovableKey}
use wardsweep.Catalog.Schema.{Catalog, AntiCheat, Game, PathEntry, RegistryEntry}
use wardsweep.Catalog.Expand.{ExpandError, expand_for_validation}
use wardsweep.Catalog.Problems.{Location, nothing, ⊕-eq_nil, each-sound}
use wardsweep.Catalog.Gate.{
  exceptions_for, path_verdict, canonical_verdict, check_expansions, expanded_verdict,
  check_denylist_path, check_denylist_paths, key_verdict, canonical_key_verdict, check_denylist_key,
  check_denylist_keys, check_denylist_anticheat, check_denylist_game, check_denylist,
}

-- A concrete path that canonicalises to a removable place on a local drive.
pub record NamesRemovable (exceptions : Exceptions) (path : Text) : Type 0 where
  pub canonical : CanonicalPath
  pub canonicalises : canonicalise_syntactic path ≡ ok canonical
  pub local : canonical.kind ≡ drive_rooted
  pub unaliased : canonical.short_name ≡ false
  pub removable : IsRemovable exceptions canonical.components

-- A template each of whose expansions does.
pub record TemplateIsSafe (exceptions : Exceptions) (entry : PathEntry) : Type 0 where
  pub expansions : List Text
  pub expands : expand_for_validation entry.path ≡ ok expansions
  pub all_removable : All (NamesRemovable exceptions) expansions

pub record KeyIsSafe (exceptions : Exceptions) (entry : RegistryEntry) : Type 0 where
  pub canonical : CanonicalRegKey
  pub canonicalises : canonicalise_reg_key entry.key ≡ ok canonical
  pub removable : IsRemovableKey exceptions canonical.hive canonical.components

path_verdict-allowed :
    (at : Location) (path : Text) (canonical : CanonicalPath) (verdict : Verdict)
    → path_verdict at path canonical verdict ≡ nothing
    → verdict ≡ allowed
unfolding path_verdict
path_verdict-allowed at path canonical (ok _) h = refl
path_verdict-allowed at path canonical (err reason) h = cc
path_verdict-allowed at path canonical panic h = cc

canonical_verdict-NamesRemovable :
    (at : Location) (path expansion : Text) (exceptions : Exceptions)
    (outcome : Outcome PathError CanonicalPath)
    → canonicalise_syntactic expansion ≡ outcome
    → canonical_verdict at path exceptions outcome ≡ nothing
    → NamesRemovable exceptions expansion
unfolding canonical_verdict
canonical_verdict-NamesRemovable at path expansion exceptions (ok canonical) e h =
    let verdict =
      path_verdict-allowed at path canonical (check_path canonical exceptions catalog_load) h in
    let (evidence, local, unaliased, removable) =
      (check_path_iff canonical exceptions catalog_load).0 verdict in
    record {
      canonical = canonical;
      canonicalises = e;
      local = local;
      unaliased = unaliased;
      removable = removable;
    }
canonical_verdict-NamesRemovable at path expansion exceptions (err error) e h = cc
canonical_verdict-NamesRemovable at path expansion exceptions panic e h = cc

check_expansions-All :
    (at : Location) (path : Text) (exceptions : Exceptions) (expansions : List Text)
    → check_expansions at path exceptions expansions ≡ nothing
    → All (NamesRemovable exceptions) expansions
unfolding check_expansions
check_expansions-All at path exceptions [] h = tt
check_expansions-All at path exceptions (expansion ∷ expansions) h =
    let (here, later) =
      ⊕-eq_nil (canonical_verdict at path exceptions (canonicalise_syntactic expansion))
        (check_expansions at path exceptions expansions) h in
    (
      canonical_verdict-NamesRemovable at path expansion exceptions
          (canonicalise_syntactic expansion) refl here,
      check_expansions-All at path exceptions expansions later,
    )

expanded_verdict-TemplateIsSafe :
    (at : Location) (exceptions : Exceptions) (entry : PathEntry)
    (outcome : Outcome ExpandError (List Text))
    → expand_for_validation entry.path ≡ outcome
    → expanded_verdict at entry.path exceptions outcome ≡ nothing
    → TemplateIsSafe exceptions entry
unfolding expanded_verdict
expanded_verdict-TemplateIsSafe at exceptions entry (ok expansions) e h = record {
  expansions = expansions;
  expands = e;
  all_removable = check_expansions-All at entry.path exceptions expansions h;
}
expanded_verdict-TemplateIsSafe at exceptions entry (err error) e h = cc
expanded_verdict-TemplateIsSafe at exceptions entry panic e h = cc

check_denylist_path-TemplateIsSafe :
    (at : Location) (name : Text) (exceptions : Exceptions) (index : ℕ) (entry : PathEntry)
    → check_denylist_path at name exceptions index entry ≡ nothing
    → TemplateIsSafe exceptions entry
unfolding check_denylist_path
check_denylist_path-TemplateIsSafe at name exceptions index entry h =
    expanded_verdict-TemplateIsSafe _ exceptions entry (expand_for_validation entry.path) refl h

check_denylist_paths-All :
    (at : Location) (name : Text) (entries : List PathEntry) (exceptions : Exceptions)
    → check_denylist_paths at name entries exceptions ≡ nothing
    → All (TemplateIsSafe exceptions) entries
unfolding check_denylist_paths
check_denylist_paths-All at name entries exceptions h =
    each-sound (check_denylist_path at name exceptions) (TemplateIsSafe exceptions)
      (check_denylist_path-TemplateIsSafe at name exceptions) 0 entries h

key_verdict-allowed :
    (at : Location) (key : Text) (verdict : Verdict)
    → key_verdict at key verdict ≡ nothing
    → verdict ≡ allowed
unfolding key_verdict
key_verdict-allowed at key (ok _) h = refl
key_verdict-allowed at key (err reason) h = cc
key_verdict-allowed at key panic h = cc

canonical_key_verdict-KeyIsSafe :
    (at : Location) (exceptions : Exceptions) (entry : RegistryEntry)
    (outcome : Outcome RegKeyError CanonicalRegKey)
    → canonicalise_reg_key entry.key ≡ outcome
    → canonical_key_verdict at entry.key exceptions outcome ≡ nothing
    → KeyIsSafe exceptions entry
unfolding canonical_key_verdict
canonical_key_verdict-KeyIsSafe at exceptions entry (ok canonical) e h = record {
  canonical = canonical;
  canonicalises = e;
  removable =
      check_registry_key-IsRemovableKey canonical exceptions
        (key_verdict-allowed at entry.key (check_registry_key canonical exceptions) h);
}
canonical_key_verdict-KeyIsSafe at exceptions entry (err error) e h = cc
canonical_key_verdict-KeyIsSafe at exceptions entry panic e h = cc

check_denylist_key-KeyIsSafe :
    (at : Location) (exceptions : Exceptions) (index : ℕ) (entry : RegistryEntry)
    → check_denylist_key at exceptions index entry ≡ nothing
    → KeyIsSafe exceptions entry
unfolding check_denylist_key
check_denylist_key-KeyIsSafe at exceptions index entry h =
    canonical_key_verdict-KeyIsSafe _ exceptions entry (canonicalise_reg_key entry.key) refl h

check_denylist_keys-All :
    (at : Location) (entries : List RegistryEntry) (exceptions : Exceptions)
    → check_denylist_keys at entries exceptions ≡ nothing
    → All (KeyIsSafe exceptions) entries
unfolding check_denylist_keys
check_denylist_keys-All at entries exceptions h =
    each-sound (check_denylist_key at exceptions) (KeyIsSafe exceptions)
      (check_denylist_key-KeyIsSafe at exceptions) 0 entries h

pub record AntiCheatIsSafe (ac : AntiCheat) : Type 0 where
  pub paths : All (TemplateIsSafe (exceptions_for ac)) ac.paths
  pub registry : All (KeyIsSafe (exceptions_for ac)) ac.registry

pub record GameIsSafe (g : Game) : Type 0 where
  pub install_hints : All (TemplateIsSafe none_allowed) g.install_hints
  pub residue : All (TemplateIsSafe none_allowed) g.residue
  pub saves : All (TemplateIsSafe none_allowed) g.saves
  pub registry : All (KeyIsSafe none_allowed) g.registry

check_denylist_anticheat-IsSafe :
    (index : ℕ) (ac : AntiCheat) → check_denylist_anticheat index ac ≡ nothing → AntiCheatIsSafe ac
unfolding check_denylist_anticheat
check_denylist_anticheat-IsSafe index ac h =
    let (drivers, h₁) = ⊕-eq_nil _ _ h in
    let (services, h₂) = ⊕-eq_nil _ _ h₁ in
    let (paths, keys) = ⊕-eq_nil _ _ h₂ in
    record {
      paths = check_denylist_paths-All _ _ ac.paths (exceptions_for ac) paths;
      registry = check_denylist_keys-All _ ac.registry (exceptions_for ac) keys;
    }

check_denylist_game-IsSafe :
    (index : ℕ) (g : Game) → check_denylist_game index g ≡ nothing → GameIsSafe g
unfolding check_denylist_game
check_denylist_game-IsSafe index g h =
    let (hints, h₁) = ⊕-eq_nil _ _ h in
    let (residue, h₂) = ⊕-eq_nil _ _ h₁ in
    let (saves, keys) = ⊕-eq_nil _ _ h₂ in
    record {
      install_hints = check_denylist_paths-All _ _ g.install_hints none_allowed hints;
      residue = check_denylist_paths-All _ _ g.residue none_allowed residue;
      saves = check_denylist_paths-All _ _ g.saves none_allowed saves;
      registry = check_denylist_keys-All _ g.registry none_allowed keys;
    }

-- A catalog with which `check_denylist` finds no problem names only removable places: each template
-- of an anti-cheat entry expands, and each of its expansions canonicalises to a place on a local drive
-- that is removable with that entry's own carve-outs; each of its keys to a removable key; and those
-- of a game likewise with no carve-out at all.
pub check_denylist-IsSafe :
    (catalog : Catalog)
    → check_denylist catalog ≡ nothing
    → All AntiCheatIsSafe catalog.anticheat × All GameIsSafe catalog.game
unfolding check_denylist
check_denylist-IsSafe catalog h =
    let (anticheats, games) = ⊕-eq_nil _ _ h in
    (
      each-sound check_denylist_anticheat AntiCheatIsSafe check_denylist_anticheat-IsSafe 0
          catalog.anticheat anticheats,
      each-sound check_denylist_game GameIsSafe check_denylist_game-IsSafe 0 catalog.game games,
    )
