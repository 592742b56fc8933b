-- ===== src/Denylist/Footprint/Parts.antt =====
-- core/src/safety/denylist.rs: each test of `check_path` decides a part of the footprint.
use wardsweep.Base.{
  ◌≡◌, ◌↔◌, inl, inr, refl, ap, ◌∙◌, true, false, ◌&&◌, some, List, [], ◌∷◌, ◌++◌, arith, leb,
  length, any, All, last, Option-cases, any-eq_false→, any-eq_false←, last-append, last-split,
}
use wardsweep.Text.Chars.{Text}
use wardsweep.Text
use wardsweep.Text.{codes, text_eq, ascii_upper, eq_ignore_case}
use wardsweep.Text.Laws.Case.{eq_ignore_case_iff}
use wardsweep.Paths.Canonical
use wardsweep.Paths.Canonical.{CanonicalPath, zip_matches}
use wardsweep.Denylist.Tables.Paths.{
  library_leaves, steamapps_containers, user_hive_files, containers, windows_data,
}
use wardsweep.Denylist.Check.{
  is_named, is_user_hive, is_library, last_two, starts_with_pattern, equals_pattern,
  program_data_microsoft,
}
use wardsweep.Denylist.Patterns.{
  Same, Below, Exactly, NoneOf, Begins, starts_with_pattern_iff, equals_pattern_iff, is_named→,
  is_named←, starts_with_iff,
}

module _ (components : List Text) where
  pub no_hive→ :
      is_user_hive components ≡ false
      → (parents : List Text) (leaf : Text) → components ≡ parents ++ (leaf ∷ [])
      → All (λ hive. ¬ (Begins leaf hive)) user_hive_files
  unfolding is_user_hive
  no_hive→ h parents leaf e =
      let found : last components ≡ some leaf = ap last e ∙ last-append parents leaf in
      any-eq_false→ (λ hive. Text.starts_with leaf hive) (Begins leaf) (starts_with_iff leaf)
        user_hive_files (ground (arith, found))

  pub no_hive← :
      ((parents : List Text) (leaf : Text)
        → components ≡ parents ++ (leaf ∷ [])
        → All (λ hive. ¬ (Begins leaf hive)) user_hive_files)
      → is_user_hive components ≡ false
  unfolding is_user_hive
  no_hive← h = elim (Option-cases (last components)) [
    | inl nothing ↦ ground arith
    | inr (leaf, found) ↦
        let (parents, e) = last-split components leaf found in
        let refused =
          any-eq_false← (λ hive. Text.starts_with leaf hive) (Begins leaf) (starts_with_iff leaf)
            user_hive_files (h parents leaf e) in
        ground (arith, refused)
  ]

  pub windows_data→ :
      any (starts_with_pattern components) windows_data ≡ false
      → All (λ shape. ¬ (Below components shape)) windows_data
  windows_data→ =
      any-eq_false→ (starts_with_pattern components) (Below components)
        (starts_with_pattern_iff components) windows_data

  pub windows_data← :
      All (λ shape. ¬ (Below components shape)) windows_data
      → any (starts_with_pattern components) windows_data ≡ false
  windows_data← =
      any-eq_false← (starts_with_pattern components) (Below components)
        (starts_with_pattern_iff components) windows_data

  pub containers→ :
      any (equals_pattern components) containers ≡ false
      → All (λ shape. ¬ (Exactly components shape)) containers
  containers→ =
      any-eq_false→ (equals_pattern components) (Exactly components) (equals_pattern_iff components)
        containers

  pub containers← :
      All (λ shape. ¬ (Exactly components shape)) containers
      → any (equals_pattern components) containers ≡ false
  containers← =
      any-eq_false← (equals_pattern components) (Exactly components) (equals_pattern_iff components)
        containers

last_two-append :
    (parents : List Text) (x y : Text) → last_two (parents ++ (x ∷ y ∷ [])) ≡ some (x, y)
last_two-append [] x y = refl
last_two-append (p ∷ []) x y = refl
last_two-append (p ∷ q ∷ []) x y = refl
last_two-append (p ∷ q ∷ r ∷ parents) x y = last_two-append (q ∷ r ∷ parents) x y

last_two-split :
    (components : List Text) (two : Text × Text)
    → last_two components ≡ some two
    → (parents : List Text) × (components ≡ parents ++ (two.0 ∷ two.1 ∷ []))
last_two-split [] two h = cc
last_two-split (x ∷ []) two h = cc
last_two-split (x ∷ y ∷ []) two h = ([], cc h)
last_two-split (x ∷ y ∷ z ∷ rest) two h =
    let (parents, e) = last_two-split (y ∷ z ∷ rest) two h in (x ∷ parents, ap (λ t. x ∷ t) e)

module _ (components : List Text) (h : is_library components ≡ false) where
  pub no_library→ :
      (parents : List Text) (leaf : Text)
      → components ≡ parents ++ (leaf ∷ [])
      → NoneOf library_leaves leaf
  unfolding is_library
  no_library→ parents leaf e =
      let found : last components ≡ some leaf = ap last e ∙ last-append parents leaf in
      is_named→ library_leaves leaf (ground (arith, found))

  pub no_steamapps→ :
      (parents : List Text) (folder child : Text)
      → components ≡ parents ++ (folder ∷ child ∷ [])
      → Same folder (codes "STEAMAPPS")
      → NoneOf steamapps_containers child
  unfolding is_library
  no_steamapps→ parents folder child e same =
      let found : last_two components ≡ some (folder, child) =
        ap last_two e ∙ last_two-append parents folder child in
      is_named→ steamapps_containers child
        (ground (arith, found, (eq_ignore_case_iff folder (codes "STEAMAPPS")).1 same))

pub no_leaf← :
    (components : List Text)
    → ((parents : List Text) (leaf : Text)
        → components ≡ parents ++ (leaf ∷ [])
        → NoneOf library_leaves leaf)
    → (leaf : Text) → last components ≡ some leaf
    → is_named library_leaves leaf ≡ false
no_leaf← components h leaf found =
    let (parents, e) = last-split components leaf found in
    is_named← library_leaves leaf (h parents leaf e)

pub no_steamapps← :
    (components : List Text)
    → ((parents : List Text) (folder child : Text)
        → components ≡ parents ++ (folder ∷ child ∷ [])
        → Same folder (codes "STEAMAPPS")
        → NoneOf steamapps_containers child)
    → (folder child : Text) → last_two components ≡ some (folder, child)
    → eq_ignore_case folder (codes "STEAMAPPS") ≡ true
    → is_named steamapps_containers child ≡ false
no_steamapps← components h folder child found same =
    let (parents, e) = last_two-split components (folder, child) found in
    is_named← steamapps_containers child
      (h parents folder child e ((eq_ignore_case_iff folder (codes "STEAMAPPS")).0 same))

pub is_library← :
    (components : List Text)
    → ((leaf : Text) → last components ≡ some leaf → is_named library_leaves leaf ≡ false)
    → ((folder child : Text)
        → last_two components ≡ some (folder, child)
        → eq_ignore_case folder (codes "STEAMAPPS") ≡ true
        → is_named steamapps_containers child ≡ false)
    → is_library components ≡ false
unfolding is_library
is_library← components leaves apps = elim (Option-cases (last components)) [
  | inl e ↦ elim (Option-cases (last_two components)) [
    | inl f ↦ ground arith
    | inr (two, f) ↦ ground (arith, apps two.0 two.1)
  ]
  | inr (leaf, e) ↦ elim (Option-cases (last_two components)) [
    | inl f ↦ ground (arith, leaves leaf)
    | inr (two, f) ↦ ground (arith, leaves leaf, apps two.0 two.1)
  ]
]

pub program_data_iff :
    (path : CanonicalPath)
    → (Canonical.starts_with path program_data_microsoft ≡ true)
      ↔ Below path.components program_data_microsoft
unfolding Canonical.starts_with zip_matches
program_data_iff path = by_components path.components
  where
    by_components :
        (cs : List Text)
        → ((leb (length program_data_microsoft) (length cs)
              && zip_matches program_data_microsoft cs)
            ≡ true)
          ↔ Below cs program_data_microsoft
    by_components [] = (λ h. absurd (ground arith), λ b. absurd b)
    by_components (a ∷ []) = (λ h. absurd (ground arith), λ b. absurd (b.1))
    by_components (a ∷ b ∷ rest) = (
      λ h. (
        inr ((eq_ignore_case_iff a (codes "ProgramData")).0 (ground arith)),
        (inr ((eq_ignore_case_iff b (codes "Microsoft")).0 (ground arith)), tt),
      ),
      λ below. ground (
        arith,
        (eq_ignore_case_iff a (codes "ProgramData")).1,
        (eq_ignore_case_iff b (codes "Microsoft")).1,
      ),
    )
