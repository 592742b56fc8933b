-- ===== src/Catalog/Refs.antt =====
-- core/src/catalog/validate.rs: `check_refs`, referential integrity.
pub mod Sound
use wardsweep.Base.{ℕ, Bool, Option, none, some, List, [], ◌∷◌, ◌++◌, map, if◌then◌else◌, any}
use wardsweep.Text.Chars.{Text}
use wardsweep.Text.{codes, text_eq}
use wardsweep.Catalog.Schema.{Catalog, AntiCheat, Game, Launcher}
use wardsweep.Catalog.Problems.{
  Checked, Section, anticheat, game, launcher, owner, field, id_already_used, unknown_anticheat,
  unknown_launcher, problem, nothing, ◌⊕◌, each,
}

-- The latest section that `seen` holds for an id; `insert` puts an entry in front.
unfoldable pub previous : Text → List (Text × Section) → Option Section
previous id [] = none
previous id ((other, section) ∷ seen) = if text_eq other id then some section else previous id seen

unfoldable pub report_reuse : Section → Text → Option Section → Checked
report_reuse section id none = nothing
report_reuse section id (some earlier) = problem (owner section id) (id_already_used earlier)

-- The loop over the ids of the three sections.
unfoldable pub check_ids : List (Text × Section) → List (Text × Section) → Checked
check_ids seen [] = nothing
check_ids seen ((id, section) ∷ ids) =
    report_reuse section id (previous id seen) ⊕ check_ids ((id, section) ∷ seen) ids

unfoldable pub all_ids : Catalog → List (Text × Section)
all_ids catalog =
    map (λ ac. (ac.id, anticheat)) catalog.anticheat
    ++ (map (λ g. (g.id, game)) catalog.game ++ map (λ l. (l.id, launcher)) catalog.launcher)

unfoldable pub check_anticheat_ref : Catalog → Game → ℕ → Text → Checked
check_anticheat_ref catalog g index referenced =
    if any (λ ac. text_eq (AntiCheat.id ac) referenced) catalog.anticheat
    then nothing
    else problem (field (owner game g.id) (codes "anticheat")) (unknown_anticheat referenced)

unfoldable pub check_launcher_ref : Catalog → Game → ℕ → Text → Checked
check_launcher_ref catalog g index platform =
    if any (λ l. text_eq (Launcher.id l) platform) catalog.launcher
    then nothing
    else problem (field (owner game g.id) (codes "platforms")) (unknown_launcher platform)

unfoldable pub check_game_refs : Catalog → ℕ → Game → Checked
check_game_refs catalog index g =
    each 0 (check_anticheat_ref catalog g) g.anticheat
    ⊕ each 0 (check_launcher_ref catalog g) g.platforms

unfoldable pub check_refs : Catalog → Checked
check_refs catalog = check_ids [] (all_ids catalog) ⊕ each 0 (check_game_refs catalog) catalog.game
