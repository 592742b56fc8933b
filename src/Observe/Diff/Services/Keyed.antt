-- ===== src/Observe/Diff/Services/Keyed.antt =====
-- tools/observe/src/diff.rs: which changes `compare_services` lists.
use mathlib.Core.List.{Memᴰ}
use wardsweep.Base.{
  ◌≡◌, ◌≢◌, ◌⊎◌, ◌↔◌, refl, sym, ap, ◌∙◌, inl, inr, Bool, true, false, Option, none, some, List, [],
  ◌∷◌, if◌then◌else◌,
}
use wardsweep.Text.Chars.{Text}
use wardsweep.Text.{text_eq}
use wardsweep.Observe.Index.{Index, insert, get}
use wardsweep.Observe.Index.Laws.{get-insert, Mem-compare_with, Mem-compare_with_origin}
use wardsweep.Observe.Model.{ServiceRecord}
use wardsweep.Observe.Diff.Types.{ServiceChange, text_order}
use wardsweep.Observe.Diff.Filter.{NoiseFilter}
use wardsweep.Observe.Diff.Services.{
  crowded, service_key, index_services, service_change, compare_services,
}

abbrev pub or_else : {A : Type 0} → Option A → Option A → Option A
or_else none other = other
or_else (some x) other = some x

-- The last of the records that are compared under a key.
unfoldable pub last_keyed :
    NoiseFilter → List Text → Text → List ServiceRecord → Option ServiceRecord
last_keyed filter ambiguous key [] = none
last_keyed filter ambiguous key (record_ ∷ records) =
    or_else (last_keyed filter ambiguous key records)
      (if text_eq key (service_key filter ambiguous record_.name) then some record_ else none)

or_else-if :
    {A : Type 0} (o : Option A) (b : Bool) (x : A) (rest : Option A)
    → or_else o (if b then some x else rest) ≡ or_else (or_else o (if b then some x else none)) rest
or_else-if none true x rest = refl
or_else-if none false x rest = refl
or_else-if (some y) b x rest = refl

get-index_services_from :
    (filter : NoiseFilter) (ambiguous : List Text) (key : Text) (sofar : Index Text ServiceRecord)
    (records : List ServiceRecord)
    → get key (index_services filter ambiguous sofar records)
      ≡ or_else (last_keyed filter ambiguous key records) (get key sofar)
unfolding index_services last_keyed
get-index_services_from filter ambiguous key sofar [] = refl
get-index_services_from filter ambiguous key sofar (record_ ∷ records) =
    get-index_services_from filter ambiguous key
      (insert (service_key filter ambiguous record_.name) record_ sofar) records
    ∙ (ap (or_else (last_keyed filter ambiguous key records)) (get-insert _ key record_ sofar)
        ∙ or_else-if (last_keyed filter ambiguous key records) _ record_ (get key sofar))

or_else-none : {A : Type 0} (o : Option A) → or_else o none ≡ o
or_else-none none = refl
or_else-none (some x) = refl

get-index_services :
    (filter : NoiseFilter) (ambiguous : List Text) (key : Text) (records : List ServiceRecord)
    → get key (index_services filter ambiguous [] records) ≡ last_keyed filter ambiguous key records
unfolding get
get-index_services filter ambiguous key records =
    get-index_services_from filter ambiguous key [] records ∙ or_else-none _

-- Where there is a change, one of the two records is there.
is_there :
    (key : Text) (was now : Option ServiceRecord) (change : ServiceChange)
    → service_change key was now ≡ some change
    → (was ≢ none) ⊎ (now ≢ none)
unfolding service_change
is_there key none none change e = cc
is_there key none (some new) change e = inr (λ h. cc)
is_there key (some old) now change e = inl (λ h. cc)

-- The changes that `compare_services` lists are exactly those between the last record of each snapshot
-- under a key, for every key there is: no order or index is left in this description.
pub compare_services_iff :
    (before after : List ServiceRecord) (filter : NoiseFilter) (change : ServiceChange)
    → Memᴰ change (compare_services before after filter) ↔ (
        (key : Text) × (service_change key
            (last_keyed filter (crowded filter before after) key before)
            (last_keyed filter (crowded filter before after) key after)
          ≡ some change))
unfolding compare_services
compare_services_iff before after filter change = (
  λ m.
      let (key, e) = Mem-compare_with_origin service_change _ _ change m in
      (
        key,
        rw
            (
              sym (get-index_services filter ambiguous key before),
              sym (get-index_services filter ambiguous key after),
            )
            e,
      ),
  λ (key, e).
      let e' =
        rw
          (
            sym (get-index_services filter ambiguous key before),
            sym (get-index_services filter ambiguous key after),
          )
          at e in
      Mem-compare_with service_change _ _ key change (is_there key _ _ change e') e',
)
  where
    ambiguous : List Text
    ambiguous = crowded filter before after
