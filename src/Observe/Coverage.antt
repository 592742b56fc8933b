-- ===== src/Observe/Coverage.antt =====
-- tools/observe/src/model.rs: `Coverage`, what two snapshots both captured.
pub mod Both
use wardsweep.Base.{
  ℕ, Bool, true, false, not, ◌&&◌, ◌||◌, List, [], ◌∷◌, ◌++◌, any, ltb, ◌==◌, if◌then◌else◌,
}
use wardsweep.Text.Chars.{Text}
use wardsweep.Text.{text_eq}
use wardsweep.Text.Search.{text_before}
use wardsweep.Scan.Libraries.{retain}
use wardsweep.Observe.Model.{
  Domain, services, registry, filesystem, scheduled_tasks, firewall, event_sources, environment,
  AccessDenied, Coverage,
}

-- The place of a domain in the derived order.
unfoldable pub rank : Domain → ℕ
rank services = 0
rank registry = 1
rank filesystem = 2
rank scheduled_tasks = 3
rank firewall = 4
rank event_sources = 5
rank environment = 6

unfoldable pub same_domain : Domain → Domain → Bool
same_domain a b = rank a == rank b

-- `Domain::all`
abbrev pub all_domains : List Domain
all_domains =
    services ∷ registry ∷ filesystem ∷ scheduled_tasks ∷ firewall ∷ event_sources ∷ environment ∷ []

unfoldable pub contains_domain : List Domain → Domain → Bool
contains_domain domains domain = any (λ other. same_domain other domain) domains

-- `Coverage::covers`
unfoldable pub covers : Coverage → Domain → Bool
covers coverage domain = contains_domain coverage.captured domain

unfoldable pub is_after : AccessDenied → AccessDenied → Bool
is_after a b =
    ltb (rank b.domain) (rank a.domain)
    || same_domain a.domain b.domain && text_before b.item a.item

-- `sort_by`, which is stable.
unfoldable pub insert_sorted : AccessDenied → List AccessDenied → List AccessDenied
insert_sorted item [] = item ∷ []
insert_sorted item (other ∷ items) =
    if is_after item other then other ∷ insert_sorted item items else item ∷ other ∷ items

unfoldable pub sort : List AccessDenied → List AccessDenied
sort [] = []
sort (item ∷ items) = insert_sorted item (sort items)

unfoldable pub same_item : AccessDenied → AccessDenied → Bool
same_item a b = same_domain a.domain b.domain && text_eq a.item b.item

-- `dedup_by`: of neighbours that are the same the first stays.
unfoldable pub dedup_behind : AccessDenied → List AccessDenied → List AccessDenied
dedup_behind last [] = []
dedup_behind last (item ∷ items) =
    let same = dedup_behind last items in
    let other = item ∷ dedup_behind item items in if same_item item last then same else other

unfoldable pub dedup : List AccessDenied → List AccessDenied
dedup [] = []
dedup (item ∷ items) = item ∷ dedup_behind item items

-- `Coverage::intersect`
unfoldable pub intersect : Coverage → Coverage → Coverage
intersect coverage other =
    let captured = retain (covers other) coverage.captured in
    record {
      captured = captured;
      not_captured = retain (λ domain. not (contains_domain captured domain)) all_domains;
      access_denied = dedup (sort (coverage.access_denied ++ other.access_denied));
    }
