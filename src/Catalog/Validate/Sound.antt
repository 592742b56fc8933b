-- ===== src/Catalog/Validate/Sound.antt =====
-- core/src/catalog/validate.rs: what a catalog that `validate` finds no problem with satisfies.
use wardsweep.Base.{
  ℕ, ◌≡◌, ◌≢◌, refl, ap, Bool, false, ◌==◌, ◌||◌, Option, none, some, List, [], ◌∷◌, arith, All,
  Option-cases, inl, inr, Outcome, ok, err, panic, find_map,
}
use wardsweep.Text.Chars.{Text}
use wardsweep.Text.{codes, text_eq, contains, split_by}
use wardsweep.Text.Laws.Case.{text_eq_refl}
use wardsweep.Paths.Canonical.{CanonicalPath, PathError, canonicalise_syntactic}
use wardsweep.Paths.RegKey.{CanonicalRegKey, RegKeyError, canonicalise_reg_key}
use wardsweep.Catalog.Schema.{PathEntry, RegistryEntry, Class}
use wardsweep.Catalog.Expand.{ExpandError, expand_for_validation}
use wardsweep.Catalog.Problems.{Location, Message, nothing, ⊕-eq_nil, each-sound}
use wardsweep.Catalog.Validate.Fields.{
  is_save, component_problem, non_canonical_component, report_component, canonicalised,
  check_each_expansion, expanded, check_class, check_wildcard, check_path_entry, check_paths,
  canonical_key, check_registry_entry, check_registry,
}

-- A component of a template that is no relative one.
abbrev IsPlainComponent : Text → Type 0
IsPlainComponent component = (component ≢ codes ".") × (component ≢ codes "..")

pub record PathIsValid (saves : Bool) (e : PathEntry) : Type 0 where
  pub class_fits : is_save e.class ≡ saves
  pub no_star : contains b'*' e.path ≡ false
  pub no_question_mark : contains b'?' e.path ≡ false
  pub components : All IsPlainComponent (split_by (λ c. c == b'\\' || c == b'/') e.path)
  pub expansions : List Text
  pub expands : expand_for_validation e.path ≡ ok expansions
  pub all_canonical :
      All
        (λ path. (canonical : CanonicalPath) × (canonicalise_syntactic path ≡ ok canonical))
        expansions

pub record KeyIsValid (e : RegistryEntry) : Type 0 where
  pub not_save : is_save e.class ≡ false
  pub canonical : CanonicalRegKey
  pub canonicalises : canonicalise_reg_key e.key ≡ ok canonical

component_problem-plain :
    (component : Text) → component_problem component ≡ none → IsPlainComponent component
unfolding component_problem
component_problem-plain component h = (
  (λ e. ground (arith, text_eq_refl (codes "."), ap (λ t. text_eq t (codes ".")) e)),
  (λ e. ground (arith, text_eq_refl (codes ".."), ap (λ t. text_eq t (codes "..")) e)),
)

find_map-plain :
    (components : List Text)
    → find_map component_problem components ≡ none
    → All IsPlainComponent components
find_map-plain [] h = tt
find_map-plain (component ∷ components) h = elim (Option-cases (component_problem component)) [
  | inl plain ↦ (component_problem-plain component plain, find_map-plain components (ground arith))
  | inr (message, e) ↦ absurd (ground arith)
]

report_component-eq_nil :
    (at : Location) (found : Option Message) → report_component at found ≡ nothing → found ≡ none
report_component-eq_nil at none h = refl
report_component-eq_nil at (some message) h = cc

canonicalised_sound :
    (at : Location) (path : Text) (outcome : Outcome PathError CanonicalPath)
    → canonicalised at path outcome ≡ nothing
    → (canonical : CanonicalPath) × (outcome ≡ ok canonical)
unfolding canonicalised
canonicalised_sound at path (ok canonical) h = (canonical, refl)
canonicalised_sound at path (err error) h = cc
canonicalised_sound at path panic h = cc

check_each_expansion-All :
    (at : Location) (path : Text) (expansions : List Text)
    → check_each_expansion at path expansions ≡ nothing
    → All (λ x. (canonical : CanonicalPath) × (canonicalise_syntactic x ≡ ok canonical)) expansions
unfolding check_each_expansion
check_each_expansion-All at path [] h = tt
check_each_expansion-All at path (x ∷ xs) h =
    let (here, later) = ⊕-eq_nil (canonicalised at path (canonicalise_syntactic x)) _ h in
    (
      canonicalised_sound at path (canonicalise_syntactic x) here,
      check_each_expansion-All at path xs later,
    )

expanded_sound :
    (at : Location) (path : Text) (outcome : Outcome ExpandError (List Text))
    → expanded at path outcome ≡ nothing
    → (expansions : List Text) × (outcome ≡ ok expansions)
      × All
          (λ x. (canonical : CanonicalPath) × (canonicalise_syntactic x ≡ ok canonical))
          expansions
unfolding expanded
expanded_sound at path (ok xs) h = (xs, refl, check_each_expansion-All at path xs h)
expanded_sound at path (err error) h = cc
expanded_sound at path panic h = cc

check_class-fits :
    (at : Location) (saves : Bool) (class : Class)
    → check_class at saves class ≡ nothing
    → is_save class ≡ saves
unfolding check_class
check_class-fits at saves class h = ground arith

check_path_entry-PathIsValid :
    (at : Location) (name : Text) (saves : Bool) (index : ℕ) (e : PathEntry)
    → check_path_entry at name saves index e ≡ nothing
    → PathIsValid saves e
unfolding check_path_entry check_wildcard non_canonical_component
check_path_entry-PathIsValid at name saves index e h =
    let (class, h₁) = ⊕-eq_nil _ _ h in
    let (wild, h₂) = ⊕-eq_nil _ _ h₁ in
    let (component, rest) = ⊕-eq_nil _ _ h₂ in
    let (expansions, expands, canonical) =
      expanded_sound _ e.path (expand_for_validation e.path) rest in
    record {
      class_fits = check_class-fits _ saves e.class class;
      no_star = ground (arith, wild);
      no_question_mark = ground (arith, wild);
      components = find_map-plain _ (report_component-eq_nil _ _ component);
      expansions = expansions;
      expands = expands;
      all_canonical = canonical;
    }

pub check_paths-All :
    (at : Location) (name : Text) (entries : List PathEntry) (saves : Bool)
    → check_paths at name entries saves ≡ nothing
    → All (PathIsValid saves) entries
unfolding check_paths
check_paths-All at name entries saves h =
    each-sound (check_path_entry at name saves) (PathIsValid saves)
      (check_path_entry-PathIsValid at name saves) 0 entries h

canonical_key_sound :
    (at : Location) (outcome : Outcome RegKeyError CanonicalRegKey)
    → canonical_key at outcome ≡ nothing
    → (canonical : CanonicalRegKey) × (outcome ≡ ok canonical)
unfolding canonical_key
canonical_key_sound at (ok canonical) h = (canonical, refl)
canonical_key_sound at (err error) h = cc
canonical_key_sound at panic h = cc

check_registry_entry-KeyIsValid :
    (at : Location) (index : ℕ) (e : RegistryEntry)
    → check_registry_entry at index e ≡ nothing
    → KeyIsValid e
unfolding check_registry_entry
check_registry_entry-KeyIsValid at index e h =
    let (key, class) = ⊕-eq_nil _ _ h in
    let (canonical, c) = canonical_key_sound _ (canonicalise_reg_key e.key) key in
    record { not_save = ground (arith, class); canonical = canonical; canonicalises = c }

pub check_registry-All :
    (at : Location) (entries : List RegistryEntry)
    → check_registry at entries ≡ nothing
    → All KeyIsValid entries
unfolding check_registry
check_registry-All at entries h =
    each-sound (check_registry_entry at) KeyIsValid (check_registry_entry-KeyIsValid at) 0 entries h
