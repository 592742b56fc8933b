-- ===== src/Catalog/Shared.antt =====
-- core/src/catalog/validate.rs: `audit_shared`, the evidence behind `shared = false`.
pub mod Sound
use wardsweep.Base.{
  ℕ, Bool, Option, none, some, List, [], ◌∷◌, ltb, length, if◌then◌else◌, any, all, is_nil,
}
use wardsweep.Text.Chars.{Text}
use wardsweep.Text.{codes, ascii_lower, text_eq, trim}
use wardsweep.Catalog.Schema.{Catalog, AntiCheat, SharedEvidence}
use wardsweep.Catalog.Problems.{
  Checked, Location, anticheat, owner, field, evidence_required, too_few_titles, no_observation,
  problem, nothing, ◌⊕◌, each,
}

-- `BTreeSet::insert`: only the number of members is read.
unfoldable pub insert : Text → List Text → List Text
insert title titles = if any (λ t. text_eq t title) titles then titles else title ∷ titles

-- The trimmed, lower-cased, non-empty titles, without repetition.
unfoldable pub distinct_titles : List Text → List Text
distinct_titles [] = []
distinct_titles (title ∷ titles) =
    let rest = distinct_titles titles in
    let name = ascii_lower (trim title) in if is_nil name then rest else insert name rest

unfoldable pub check_titles : Location → SharedEvidence → Checked
check_titles at evidence =
    if ltb (length (distinct_titles evidence.titles_observed)) 2
    then problem (field (field at (codes "shared_evidence")) (codes "titles_observed"))
        too_few_titles
    else nothing

unfoldable pub check_observations : Location → SharedEvidence → Checked
check_observations at evidence =
    if all (λ id. is_nil (trim id)) evidence.observation_ids
    then problem (field (field at (codes "shared_evidence")) (codes "observation_ids"))
        no_observation
    else nothing

unfoldable pub check_evidence : Location → Bool → Option SharedEvidence → Checked
check_evidence at require_evidence none =
    if require_evidence then problem at evidence_required else nothing
check_evidence at require_evidence (some evidence) =
    check_titles at evidence ⊕ check_observations at evidence

unfoldable pub audit_anticheat : Bool → ℕ → AntiCheat → Checked
audit_anticheat require_evidence index ac =
    if ac.shared
    then nothing
    else check_evidence (owner anticheat ac.id) require_evidence ac.shared_evidence

unfoldable pub audit_shared : Catalog → Bool → Checked
audit_shared catalog require_evidence = each 0 (audit_anticheat require_evidence) catalog.anticheat
