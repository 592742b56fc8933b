-- ===== src/Observe/Coverage/Both.antt =====
-- tools/observe/src/model.rs: which domains an intersection of coverages covers.
use wardsweep.Base.{
  ℕ, ◌≡◌, refl, sym, ap, ◌∙◌, inl, inr, Bool, Bool-cases, true, false, not, ◌&&◌, List, [], ◌∷◌,
  any, arith, if◌then◌else◌, ==_iff, ◌==◌,
}
use wardsweep.Scan.Libraries.{retain}
use wardsweep.Observe.Model.{
  Domain, services, registry, filesystem, scheduled_tasks, firewall, event_sources, environment,
  Coverage,
}
use wardsweep.Observe.Coverage.{rank, same_domain, all_domains, contains_domain, covers, intersect}

-- The domain of a rank.
abbrev of_rank : ℕ → Domain
of_rank n =
    if n == 0
    then services
    else if n == 1
    then registry
    else if n == 2
    then filesystem
    else if n == 3
    then scheduled_tasks
    else if n == 4
    then firewall
    else if n == 5
    then event_sources
    else environment

of_rank-rank : (a : Domain) → of_rank (rank a) ≡ a
unfolding rank
of_rank-rank services = refl
of_rank-rank registry = refl
of_rank-rank filesystem = refl
of_rank-rank scheduled_tasks = refl
of_rank-rank firewall = refl
of_rank-rank event_sources = refl
of_rank-rank environment = refl

eq_of_same_domain : (a b : Domain) → same_domain a b ≡ true → a ≡ b
unfolding same_domain
eq_of_same_domain a b e =
    sym (of_rank-rank a) ∙ (ap of_rank ((==_iff (rank a) (rank b)).0 e) ∙ of_rank-rank b)

nothing_and : (a b : Bool) → b ≡ false → (a && b) ≡ false
nothing_and a b e = ground arith

-- What is left of a list of domains has a domain when the list had it and the test lets it by.
contains_domain-retain :
    (keep : Domain → Bool) (domains : List Domain) (domain : Domain)
    → contains_domain (retain keep domains) domain ≡ (contains_domain domains domain && keep domain)
unfolding contains_domain any retain
contains_domain-retain keep [] domain = refl
contains_domain-retain keep (other ∷ domains) domain = elim (Bool-cases (keep other)) [
  | inl stays ↦ elim (Bool-cases (same_domain other domain)) [
    | inl same ↦ rw (stays, same, kept_too same ∙ stays) refl
    | inr differ ↦ rw (stays, differ) (contains_domain-retain keep domains domain)
  ]
  | inr goes ↦ elim (Bool-cases (same_domain other domain)) [
    | inl same ↦
        rw (goes, same, kept_too same ∙ goes)
          (contains_domain-retain keep domains domain ∙ nothing_and _ _ (kept_too same ∙ goes))
    | inr differ ↦ rw (goes, differ) (contains_domain-retain keep domains domain)
  ]
]
  where
    kept_too : same_domain other domain ≡ true → keep domain ≡ keep other
    kept_too same = ap keep (sym (eq_of_same_domain other domain same))

contains_domain-all_domains : (domain : Domain) → contains_domain all_domains domain ≡ true
unfolding contains_domain any same_domain rank
contains_domain-all_domains services = refl
contains_domain-all_domains registry = refl
contains_domain-all_domains filesystem = refl
contains_domain-all_domains scheduled_tasks = refl
contains_domain-all_domains firewall = refl
contains_domain-all_domains event_sources = refl
contains_domain-all_domains environment = refl

-- Two coverages together cover a domain exactly when both do, and list as not captured each domain that
-- they do not cover together, and no other.
pub intersect_lem :
    (coverage other : Coverage) (domain : Domain)
    → (covers (intersect coverage other) domain ≡ (covers coverage domain && covers other domain))
      × (contains_domain (intersect coverage other).not_captured domain
          ≡ not (covers coverage domain && covers other domain))
unfolding covers intersect
intersect_lem coverage other domain = (
  contains_domain-retain (covers other) coverage.captured domain,
  contains_domain-retain (λ at. not (contains_domain captured at)) all_domains domain
      ∙ rw
          (
            contains_domain-all_domains domain,
            contains_domain-retain (covers other) coverage.captured domain,
          )
          refl,
)
  where
    captured : List Domain
    captured = retain (covers other) coverage.captured
