-- ===== src/Catalog/Shared/Sound.antt =====
-- core/src/catalog/validate.rs: what `audit_shared` demands before an anti-cheat counts as unshared.
use mathlib.Core.List.{Memᴰ}
use wardsweep.Base.{
  ℕ, ◌≡◌, ◌⊎◌, inl, inr, Bool-cases, ◌≢◌, ◌≤◌, refl, ap, true, false, Option, none, some, List, [],
  ◌∷◌, arith, All, any, all, length, is_nil,
}
use wardsweep.Text.Chars.{Text}
use wardsweep.Text.{text_eq, ascii_lower, trim}
use wardsweep.Text.Laws.Case.{text_eq_refl}
use wardsweep.Catalog.Schema.{Catalog, AntiCheat, SharedEvidence}
use wardsweep.Catalog.Problems.{Location, anticheat, owner, nothing, ⊕-eq_nil, each-sound}
use wardsweep.Catalog.Shared.{
  insert, distinct_titles, check_titles, check_observations, check_evidence, audit_anticheat,
  audit_shared,
}

-- A title as the audit compares it.
abbrev pub title_name : Text → Text
title_name title = ascii_lower (trim title)

-- The name is that of an observed title, and not blank.
abbrev IsObserved : List Text → Text → Type 0
IsObserved titles name =
    (title : Text) × Memᴰ title titles × (title_name title ≡ name) × (is_nil name ≡ false)

abbrev Distinct : List Text → Type 0
Distinct [] = Unit
Distinct (x ∷ xs) = All (λ y. y ≢ x) xs × Distinct xs

absent-All :
    (title : Text) (titles : List Text)
    → any (λ t. text_eq t title) titles ≡ false
    → All (λ y. y ≢ title) titles
unfolding any
absent-All title [] h = tt
absent-All title (t ∷ titles) h = (
  (λ e. ground (arith, text_eq_refl t, ap (λ u. text_eq t u) e)),
  absent-All title titles (ground arith),
)

insert-Distinct : (name : Text) (names : List Text) → Distinct names → Distinct (insert name names)
unfolding insert
insert-Distinct name names d = elim (Bool-cases (any (λ t. text_eq t name) names)) [
  | inl old ↦ rw old d
  | inr new ↦ rw new (absent-All name names new, d)
]

insert-All :
    (P : Text → Type 0) (name : Text) (names : List Text)
    → P name
    → All P names
    → All P (insert name names)
unfolding insert
insert-All P name names h k = elim (Bool-cases (any (λ t. text_eq t name) names)) [
  | inl old ↦ rw old k
  | inr new ↦ rw new (h, k)
]

distinct_titles-Distinct : (titles : List Text) → Distinct (distinct_titles titles)
unfolding distinct_titles
distinct_titles-Distinct [] = tt
distinct_titles-Distinct (title ∷ titles) =
    let ih = distinct_titles-Distinct titles in
    elim (Bool-cases (is_nil (title_name title))) [
      | inl blank ↦ rw blank ih
      | inr named ↦ rw named (insert-Distinct (title_name title) (distinct_titles titles) ih)
    ]

All-weaken :
    (title : Text) (titles names : List Text)
    → All (IsObserved titles) names
    → All (IsObserved (title ∷ titles)) names
All-weaken title titles [] h = tt
All-weaken title titles (name ∷ names) h =
    let (t, m, e, n) = h.0 in ((t, Memᴰ.tail m, e, n), All-weaken title titles names h.1)

distinct_titles-All : (titles : List Text) → All (IsObserved titles) (distinct_titles titles)
unfolding distinct_titles
distinct_titles-All [] = tt
distinct_titles-All (title ∷ titles) =
    let ih = All-weaken title titles (distinct_titles titles) (distinct_titles-All titles) in
    elim (Bool-cases (is_nil (title_name title))) [
      | inl blank ↦ rw blank ih
      | inr named ↦ rw named (
          insert-All (IsObserved (title ∷ titles)) (title_name title) (distinct_titles titles)
            (title, Memᴰ.head refl, refl, named) ih)
    ]

-- Two observed titles that are not the same title, and an observation that is named.
pub record IsEvidence (evidence : SharedEvidence) : Type 0 where
  pub first : Text
  pub second : Text
  pub first_observed : Memᴰ first evidence.titles_observed
  pub second_observed : Memᴰ second evidence.titles_observed
  pub first_named : is_nil (title_name first) ≡ false
  pub second_named : is_nil (title_name second) ≡ false
  pub differ : title_name second ≢ title_name first
  pub observation : Text
  pub observed : Memᴰ observation evidence.observation_ids
  pub observation_named : is_nil (trim observation) ≡ false

named_observation :
    (ids : List Text)
    → all (λ id. is_nil (trim id)) ids ≡ false
    → (id : Text) × Memᴰ id ids × (is_nil (trim id) ≡ false)
unfolding all
named_observation [] h = cc
named_observation (id ∷ ids) h = elim (Bool-cases (is_nil (trim id))) [
  | inl blank ↦ let (other, m, n) = named_observation ids (ground arith) in (other, Memᴰ.tail m, n)
  | inr named ↦ (id, Memᴰ.head refl, named)
]

two_titles :
    (titles names : List Text)
    → 2 ≤ length names
    → Distinct names
    → All (IsObserved titles) names
    → (first second : Text) × Memᴰ first titles
      × Memᴰ second titles
      × (is_nil (title_name first) ≡ false)
      × (is_nil (title_name second) ≡ false)
      × (title_name second ≢ title_name first)
two_titles titles [] l d o = absurd (ground arith)
two_titles titles (x ∷ []) l d o = absurd (ground arith)
two_titles titles (x ∷ y ∷ names) l d o =
    let (t, mt, et, nt) = o.0 in
    let (u, mu, eu, nu) = o.1.0 in
    (t, u, mt, mu, rw et nt, rw eu nu, λ same. d.0.0 (cc (et, eu, same)))

check_titles-IsEvidence :
    (at : Location) (evidence : SharedEvidence)
    → check_titles at evidence ≡ nothing
    → check_observations at evidence ≡ nothing
    → IsEvidence evidence
unfolding check_titles check_observations
check_titles-IsEvidence at evidence t o =
    let names = distinct_titles evidence.titles_observed in
    let (first, second, fm, sm, fn, sn, differ) =
      two_titles evidence.titles_observed names (ground arith)
        (distinct_titles-Distinct evidence.titles_observed)
        (distinct_titles-All evidence.titles_observed) in
    let (id, m, n) = named_observation evidence.observation_ids (ground arith) in
    record {
      first = first;
      second = second;
      first_observed = fm;
      second_observed = sm;
      first_named = fn;
      second_named = sn;
      differ = differ;
      observation = id;
      observed = m;
      observation_named = n;
    }

-- The entry is shared, or its claim not to be rests on evidence.
abbrev pub IsSubstantiated : AntiCheat → Type 0
IsSubstantiated ac =
    (ac.shared ≡ true)
    ⊎ ((evidence : SharedEvidence) × (ac.shared_evidence ≡ some evidence) × IsEvidence evidence)

check_evidence_sound :
    (at : Location) (claimed : Option SharedEvidence)
    → check_evidence at true claimed ≡ nothing
    → (evidence : SharedEvidence) × (claimed ≡ some evidence) × IsEvidence evidence
unfolding check_evidence
check_evidence_sound at none h = cc
check_evidence_sound at (some evidence) h =
    let (titles, observations) = ⊕-eq_nil (check_titles at evidence) _ h in
    (evidence, refl, check_titles-IsEvidence at evidence titles observations)

audit_anticheat-IsSubstantiated :
    (index : ℕ) (ac : AntiCheat) → audit_anticheat true index ac ≡ nothing → IsSubstantiated ac
unfolding audit_anticheat
audit_anticheat-IsSubstantiated index ac h = elim (Bool-cases ac.shared) [
  | inl shared ↦ inl shared
  | inr unshared ↦
      inr (check_evidence_sound (owner anticheat ac.id) ac.shared_evidence (ground arith))
]

-- When evidence is required and the audit finds no problem, each entry that claims not to be shared
-- carries evidence: two observed titles that are neither blank nor the same up to case and
-- surrounding white space, and an observation that is not blank.
pub audit_shared-IsSubstantiated :
    (catalog : Catalog)
    → audit_shared catalog true ≡ nothing
    → All IsSubstantiated catalog.anticheat
unfolding audit_shared
audit_shared-IsSubstantiated catalog h =
    each-sound (audit_anticheat true) IsSubstantiated audit_anticheat-IsSubstantiated 0
      catalog.anticheat h
