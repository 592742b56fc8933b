-- ===== src/Observe/Index.antt =====
-- `BTreeMap` and `BTreeSet` as tools/observe uses them: association lists in the order of their keys.
pub mod Laws
use wardsweep.Base.{
  Bool, Option, none, some, List, [], ◌∷◌, map, ◌++◌, if◌then◌else◌, ◌≡◌, ◌↔◌, true, is_nil,
}

-- What `Ord` says of a key: when two keys are one, and which comes first.
pub record KeyOrder (K : Type 0) : Type 0 where
  pub same : K → K → Bool
  pub before : K → K → Bool
  pub same_iff : (a b : K) → (same a b ≡ true) ↔ (a ≡ b)

abbrev pub Index : Type 0 → Type 0 → Type 0
Index K V = List (K × V)

module _ {K : Type 0} ⦃order : KeyOrder K⦄ {V : Type 0} where
  -- `BTreeMap::insert`: a later value replaces an earlier one.
  unfoldable pub insert : K → V → Index K V → Index K V
  insert key value [] = (key, value) ∷ []
  insert key value ((other, old) ∷ entries) =
      if order.same key other
      then (key, value) ∷ entries
      else if order.before key other
      then (key, value) ∷ (other, old) ∷ entries
      else (other, old) ∷ insert key value entries

  -- `BTreeMap::get`
  unfoldable pub get : K → Index K V → Option V
  get key [] = none
  get key ((other, value) ∷ entries) = if order.same key other then some value else get key entries

-- `collect::<BTreeSet<_>>()`
unfoldable pub insert_key : {K : Type 0} ⦃order : KeyOrder K⦄ → K → List K → List K
insert_key key [] = key ∷ []
insert_key ⦃order⦄ key (other ∷ keys) =
    if order.same key other
    then other ∷ keys
    else if order.before key other
    then key ∷ other ∷ keys
    else other ∷ insert_key key keys

unfoldable pub collect : {K : Type 0} ⦃order : KeyOrder K⦄ → List K → List K
collect [] = []
collect (key ∷ keys) = insert_key key (collect keys)

abbrev pub keys : {K V : Type 0} → Index K V → List K
keys [] = []
keys ((key, value) ∷ entries) = key ∷ keys entries

abbrev pub prepend : {B : Type 0} → Option B → List B → List B
prepend none ys = ys
prepend (some y) ys = y ∷ ys

unfoldable pub filter_map : {A B : Type 0} → (A → Option B) → List A → List B
filter_map f [] = []
filter_map f (x ∷ xs) = prepend (f x) (filter_map f xs)

-- The loop that every comparison of two indexes is: over the keys of both, in order.
unfoldable pub compare_with :
    {K V C : Type 0} ⦃order : KeyOrder K⦄
    → (K → Option V → Option V → Option C)
    → Index K V
    → Index K V
    → List C
compare_with change old new =
    filter_map (λ key. change key (get key old) (get key new)) (collect (keys old ++ keys new))
