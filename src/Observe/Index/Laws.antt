-- ===== src/Observe/Index/Laws.antt =====
-- Which changes a comparison of two indexes lists.
use mathlib.Core.List.{Memᴰ}
use mathlib.Core.List.Memᴰ
use wardsweep.Base.{
  ◌≡◌, ◌≢◌, ◌⊎◌, refl, sym, ap, ◌∙◌, inl, inr, Bool-cases, Option, none, some, Option-cases, List,
  [], ◌∷◌, ◌++◌, arith, if◌then◌else◌,
}
use wardsweep.Observe.Index.{
  KeyOrder, Index, insert, get, insert_key, collect, keys, filter_map, compare_with,
}

module _ {K : Type 0} ⦃order : KeyOrder K⦄ {V : Type 0} where
  pub get-insert :
      (key other : K) (value : V) (entries : Index K V)
      → get other (insert key value entries)
        ≡ (if order.same other key then some value else get other entries)
  unfolding get insert
  get-insert key other value [] = refl
  get-insert key other value ((at, old) ∷ entries) = ground (
    arith,
    get-insert key other value entries,
    order.same_iff key at,
    order.same_iff other key,
    order.same_iff other at,
  )

  -- A key that an index has a value for is one of its keys.
  pub Mem-keys : (key : K) (entries : Index K V) → get key entries ≢ none → Memᴰ key (keys entries)
  unfolding get
  Mem-keys key [] h = absurd (h refl)
  Mem-keys key ((other, value) ∷ entries) h = elim (Bool-cases (order.same key other)) [
    | inl here ↦ Memᴰ.head ((order.same_iff key other).0 here)
    | inr later ↦ Memᴰ.tail (Mem-keys key entries (λ e. h (rw later e)))
  ]

module _ {K : Type 0} ⦃order : KeyOrder K⦄ where
  Mem-insert_key_self : (key : K) (others : List K) → Memᴰ key (insert_key key others)
  unfolding insert_key
  Mem-insert_key_self key [] = Memᴰ.head refl
  Mem-insert_key_self key (other ∷ others) = elim (Bool-cases (order.same key other)) [
    | inl same ↦ rw same (Memᴰ.head ((order.same_iff key other).0 same))
    | inr differ ↦ elim (Bool-cases (order.before key other)) [
      | inl before ↦ rw (differ, before) (Memᴰ.head refl)
      | inr behind ↦ rw (differ, behind) (Memᴰ.tail (Mem-insert_key_self key others))
    ]
  ]

  Mem-insert_key : (key at : K) (others : List K) → Memᴰ at others → Memᴰ at (insert_key key others)
  unfolding insert_key
  Mem-insert_key key at [] m = elim m [ ]
  Mem-insert_key key at (other ∷ others) (Memᴰ.head e) = elim (Bool-cases (order.same key other)) [
    | inl same ↦ rw same (Memᴰ.head e)
    | inr differ ↦ elim (Bool-cases (order.before key other)) [
      | inl before ↦ rw (differ, before) (Memᴰ.tail (Memᴰ.head e))
      | inr behind ↦ rw (differ, behind) (Memᴰ.head e)
    ]
  ]
  Mem-insert_key key at (other ∷ others) (Memᴰ.tail m) = elim (Bool-cases (order.same key other)) [
    | inl same ↦ rw same (Memᴰ.tail m)
    | inr differ ↦ elim (Bool-cases (order.before key other)) [
      | inl before ↦ rw (differ, before) (Memᴰ.tail (Memᴰ.tail m))
      | inr behind ↦ rw (differ, behind) (Memᴰ.tail (Mem-insert_key key at others m))
    ]
  ]

  pub Mem-collect : (key : K) (listed : List K) → Memᴰ key listed → Memᴰ key (collect listed)
  unfolding collect
  Mem-collect key [] m = elim m [ ]
  Mem-collect key (x ∷ listed) (Memᴰ.head e) = rw e (Mem-insert_key_self x (collect listed))
  Mem-collect key (x ∷ listed) (Memᴰ.tail m) = Mem-insert_key x key _ (Mem-collect key listed m)

Mem-append_left : {A : Type 0} (x : A) (xs ys : List A) → Memᴰ x xs → Memᴰ x (xs ++ ys)
Mem-append_left x [] ys m = elim m [ ]
Mem-append_left x (z ∷ xs) ys (Memᴰ.head e) = Memᴰ.head e
Mem-append_left x (z ∷ xs) ys (Memᴰ.tail m) = Memᴰ.tail (Mem-append_left x xs ys m)

Mem-append_right : {A : Type 0} (x : A) (xs ys : List A) → Memᴰ x ys → Memᴰ x (xs ++ ys)
Mem-append_right x [] ys m = m
Mem-append_right x (z ∷ xs) ys m = Memᴰ.tail (Mem-append_right x xs ys m)

module _ {A B : Type 0} (f : A → Option B) where
  pub Mem-filter_map :
      (x : A) (y : B) (xs : List A) → Memᴰ x xs → f x ≡ some y → Memᴰ y (filter_map f xs)
  unfolding filter_map
  Mem-filter_map x y [] m e = elim m [ ]
  Mem-filter_map x y (z ∷ xs) (Memᴰ.head s) e = rw (ap f (sym s) ∙ e) (Memᴰ.head refl)
  Mem-filter_map x y (z ∷ xs) (Memᴰ.tail m) e = elim (Option-cases (f z)) [
    | inl missing ↦ rw missing (Mem-filter_map x y xs m e)
    | inr (w, there) ↦ rw there (Memᴰ.tail (Mem-filter_map x y xs m e))
  ]

  pub Mem-filter_map_origin :
      (y : B) (xs : List A) → Memᴰ y (filter_map f xs) → (x : A) × (f x ≡ some y)
  unfolding filter_map
  Mem-filter_map_origin y [] m = elim m [ ]
  Mem-filter_map_origin y (z ∷ xs) m = elim (Option-cases (f z)) [
    | inl missing ↦ Mem-filter_map_origin y xs (rw missing at m)
    | inr (w, there) ↦ elim (Memᴰ.cases_cons (rw there at m)) [
      | inl same ↦ (z, there ∙ ap some (sym same))
      | inr later ↦ Mem-filter_map_origin y xs later
    ]
  ]

  pub filter_map-nothing : (xs : List A) → ((x : A) → f x ≡ none) → filter_map f xs ≡ []
  unfolding filter_map
  filter_map-nothing [] h = refl
  filter_map-nothing (x ∷ xs) h = rw (h x) (filter_map-nothing xs h)

module _ {K V C : Type 0} ⦃order : KeyOrder K⦄ (change : K → Option V → Option V → Option C) where
  -- Every change at a key that one of the two indexes has is listed.
  pub Mem-compare_with :
      (old new : Index K V) (key : K) (c : C)
      → (get key old ≢ none) ⊎ (get key new ≢ none)
      → change key (get key old) (get key new) ≡ some c
      → Memᴰ c (compare_with change old new)
  unfolding compare_with
  Mem-compare_with old new key c there e =
      Mem-filter_map (λ at. change at (get at old) (get at new)) key c _
        (Mem-collect key (keys old ++ keys new) (listed there)) e
    where
      listed : (get key old ≢ none) ⊎ (get key new ≢ none) → Memᴰ key (keys old ++ keys new)
      listed (inl h) = Mem-append_left key (keys old) (keys new) (Mem-keys key old h)
      listed (inr h) = Mem-append_right key (keys old) (keys new) (Mem-keys key new h)

  -- Every change that is listed is that at some key.
  pub Mem-compare_with_origin :
      (old new : Index K V) (c : C)
      → Memᴰ c (compare_with change old new)
      → (key : K) × (change key (get key old) (get key new) ≡ some c)
  unfolding compare_with
  Mem-compare_with_origin old new c m = Mem-filter_map_origin _ c _ m

  -- An index has no changes against itself, if a value has none.
  pub compare_with_self :
      (index : Index K V)
      → ((key : K) (value : Option V) → change key value value ≡ none)
      → compare_with change index index ≡ []
  unfolding compare_with
  compare_with_self index same = filter_map-nothing _ _ (λ key. same key (get key index))
