-- ===== src/Denylist/Footprint.antt =====
-- core/src/safety/denylist.rs: what `check_path` allows, stated without the code's tests.
mod Parts
use Parts.{
  no_hive→, no_hive←, windows_data→, windows_data←, containers→, containers←, no_library→,
  no_steamapps→, no_leaf←, no_steamapps←, is_library←, program_data_iff,
}
use wardsweep.Base.{
  ℕ, ◌≤◌, ◌≡◌, ◌≢◌, ◌↔◌, ◌⊎◌, inl, inr, refl, sym, ap, subst, ◌∙◌, Bool, true, false, ◌&&◌, ◌||◌,
  not, Option, none, some, List, [], ◌∷◌, ◌++◌, arith, leb, ltb, ◌==◌, length, any, All, last,
  Bool-cases, Option-cases, and-eq_true, or-eq_false, any-eq_false→, any-eq_false←, last-append,
  last-split, ok, err, if◌then◌else◌,
}
use wardsweep.Text.Chars.{Text}
use wardsweep.Text
use wardsweep.Text.{codes, text_eq, ascii_upper, eq_ignore_case}
use wardsweep.Text.Laws.Case.{eq_ignore_case_iff}
use wardsweep.Paths.Canonical
use wardsweep.Paths.Canonical.{PathKind, drive_rooted, unc, device, CanonicalPath, is_drive_rooted}
use wardsweep.Denylist.Tables.Paths.{
  protected_top_level, container_top_level, library_leaves, steamapps_containers, user_hive_files,
  containers, windows_data,
}
use wardsweep.Denylist.Check.{
  Verdict, allowed, is_named, is_user_hive, is_container, is_library, last_two, starts_with_pattern,
  equals_pattern, program_data_microsoft, evaluate_outside, evaluate_components,
  windows_directory_exception, is_driver_file, Stage, catalog_load, on_disk, check_path,
  evaluate_namespace,
}
use wardsweep.Denylist.Exceptions.{Exceptions, allows_driver_file}
use wardsweep.Denylist.Patterns.{
  Same, Below, Exactly, NoneOf, Begins, starts_with_pattern_iff, equals_pattern_iff, is_named→,
  is_named←, starts_with_iff,
}

-- A path that may be removed: no protected directory, no user's registry hive, nothing of Windows'
-- own data, and no folder that holds other software.
pub record IsFootprint (components : List Text) : Type 0 where
  pub deep : 2 ≤ length components
  pub no_hive :
      (parents : List Text) (leaf : Text)
      → components ≡ parents ++ (leaf ∷ [])
      → All (λ hive. ¬ (Begins leaf hive)) user_hive_files
  pub outside_program_data : ¬ (Below components program_data_microsoft)
  pub outside_windows_data : All (λ shape. ¬ (Below components shape)) windows_data
  pub no_container : All (λ shape. ¬ (Exactly components shape)) containers
  pub no_library :
      (parents : List Text) (leaf : Text)
      → components ≡ parents ++ (leaf ∷ [])
      → NoneOf library_leaves leaf
  pub no_steamapps :
      (parents : List Text) (folder child : Text)
      → components ≡ parents ++ (folder ∷ child ∷ [])
      → Same folder (codes "STEAMAPPS")
      → NoneOf steamapps_containers child

-- The tests of `evaluate_outside`, in one line each.
record Passes (path : CanonicalPath) (components : List Text) : Type 0 where
  deep : 2 ≤ length components
  hive : is_user_hive components ≡ false
  program_data : Canonical.starts_with path program_data_microsoft ≡ false
  windows : any (starts_with_pattern components) windows_data ≡ false
  container : any (equals_pattern components) containers ≡ false
  library : is_library components ≡ false

allowed-Passes :
    (path : CanonicalPath) (top : Text) (components : List Text)
    → evaluate_outside path top components ≡ allowed
    → Passes path components
unfolding evaluate_outside is_container
allowed-Passes path top components h = record {
  deep = ground arith;
  hive = ground arith;
  program_data = ground arith;
  windows = ground arith;
  container = ground arith;
  library = ground arith;
}

allowed_of_Passes :
    (path : CanonicalPath) (top : Text) (components : List Text)
    → Passes path components
    → evaluate_outside path top components ≡ allowed
unfolding evaluate_outside is_container
allowed_of_Passes path top components h = ground arith

Passes-IsFootprint :
    (path : CanonicalPath) → Passes path path.components → IsFootprint path.components
Passes-IsFootprint path h = record {
  deep = h.deep;
  no_hive = no_hive→ path.components h.hive;
  outside_program_data = λ b. cc (h.program_data, (program_data_iff path).1 b);
  outside_windows_data = windows_data→ path.components h.windows;
  no_container = containers→ path.components h.container;
  no_library = no_library→ path.components h.library;
  no_steamapps = no_steamapps→ path.components h.library;
}

IsFootprint-Passes :
    (path : CanonicalPath) → IsFootprint path.components → Passes path path.components
IsFootprint-Passes path f = record {
  deep = f.deep;
  hive = no_hive← path.components f.no_hive;
  program_data = elim (Bool-cases (Canonical.starts_with path program_data_microsoft)) [
    | inl below ↦ absurd (f.outside_program_data ((program_data_iff path).0 below))
    | inr other ↦ other
  ];
  windows = windows_data← path.components f.outside_windows_data;
  container = containers← path.components f.no_container;
  library =
      is_library← path.components (no_leaf← path.components f.no_library)
        (no_steamapps← path.components f.no_steamapps);
}

pub evaluate_outside_iff :
    (path : CanonicalPath) (top : Text)
    → (evaluate_outside path top path.components ≡ allowed) ↔ IsFootprint path.components
evaluate_outside_iff path top = (
  λ h. Passes-IsFootprint path (allowed-Passes path top path.components h),
  λ f. allowed_of_Passes path top path.components (IsFootprint-Passes path f),
)

-- The one exception to the protected top-level directories: a file that the entry names, directly in
-- the drivers directory.
pub record IsNamedDriver (exceptions : Exceptions) (components : List Text) : Type 0 where
  pub windows : Text
  pub system32 : Text
  pub folder : Text
  pub file : Text
  pub place : components ≡ windows ∷ system32 ∷ folder ∷ file ∷ []
  pub in_windows : Same windows (codes "WINDOWS")
  pub in_system32 : Same system32 (codes "SYSTEM32")
  pub in_folder : Same folder (codes "DRIVERS")
  pub named : allows_driver_file exceptions file ≡ true

is_driver_file→ :
    (exceptions : Exceptions) (components : List Text)
    → is_driver_file components exceptions ≡ true
    → IsNamedDriver exceptions components
unfolding is_driver_file
is_driver_file→ exceptions (w ∷ s ∷ d ∷ f ∷ []) h = record {
  windows = w;
  system32 = s;
  folder = d;
  file = f;
  place = refl;
  in_windows = (eq_ignore_case_iff w (codes "WINDOWS")).0 (ground arith);
  in_system32 = (eq_ignore_case_iff s (codes "SYSTEM32")).0 (ground arith);
  in_folder = (eq_ignore_case_iff d (codes "DRIVERS")).0 (ground arith);
  named = ground arith;
}
is_driver_file→ exceptions _ h = cc

-- The whole condition under which a path on a local drive passes.
pub data IsRemovable (exceptions : Exceptions) (components : List Text) : Type 0 where
  driver : IsNamedDriver exceptions components → IsRemovable exceptions components
  footprint :
      (top : Text) (below : List Text)
      → components ≡ top ∷ below
      → NoneOf protected_top_level top
      → IsFootprint components
      → IsRemovable exceptions components

evaluate_components→ :
    (path : CanonicalPath) (exceptions : Exceptions) (components : List Text)
    → path.components ≡ components
    → evaluate_components path exceptions components ≡ allowed
    → IsRemovable exceptions components
unfolding evaluate_components windows_directory_exception
evaluate_components→ path exceptions [] e h = cc
evaluate_components→ path exceptions (top ∷ below) e h =
    elim (Bool-cases (is_named protected_top_level top)) [
      | inl system ↦ driver (is_driver_file→ exceptions (top ∷ below) (ground arith))
      | inr other ↦
          footprint top below refl (is_named→ protected_top_level top other)
            (subst IsFootprint e ((evaluate_outside_iff path top).0 (rw e (ground arith))))
    ]

windows-protected :
    (windows : Text) → Same windows (codes "WINDOWS") → is_named protected_top_level windows ≡ true
unfolding is_named any protected_top_level
windows-protected windows same =
    ground (arith, (eq_ignore_case_iff (codes "WINDOWS") windows).1 (sym same))

is_driver_file← :
    (exceptions : Exceptions) (components : List Text)
    → IsNamedDriver exceptions components
    → is_driver_file components exceptions ≡ true
unfolding is_driver_file
is_driver_file← exceptions components d = rw d.place (
    ground (
      arith,
      (eq_ignore_case_iff d.windows (codes "WINDOWS")).1 d.in_windows,
      (eq_ignore_case_iff d.system32 (codes "SYSTEM32")).1 d.in_system32,
      (eq_ignore_case_iff d.folder (codes "DRIVERS")).1 d.in_folder,
      d.named,
    ))

driver-allowed :
    (path : CanonicalPath) (exceptions : Exceptions) (top : Text) (below : List Text)
    → is_named protected_top_level top ≡ true
    → is_driver_file (top ∷ below) exceptions ≡ true
    → evaluate_components path exceptions (top ∷ below) ≡ allowed
unfolding evaluate_components windows_directory_exception
driver-allowed path exceptions top below system named = ground arith

footprint-allowed :
    (path : CanonicalPath) (exceptions : Exceptions) (top : Text) (below : List Text)
    → is_named protected_top_level top ≡ false
    → evaluate_outside path top (top ∷ below) ≡ allowed
    → evaluate_components path exceptions (top ∷ below) ≡ allowed
unfolding evaluate_components
footprint-allowed path exceptions top below other h = ground arith

evaluate_components← :
    (path : CanonicalPath) (exceptions : Exceptions)
    → IsRemovable exceptions path.components
    → evaluate_components path exceptions path.components ≡ allowed
evaluate_components← path exceptions (driver d) =
    let named = is_driver_file← exceptions path.components d in
    subst (λ cs. evaluate_components path exceptions cs ≡ allowed) (sym d.place)
      (driver-allowed path exceptions d.windows (d.system32 ∷ d.folder ∷ d.file ∷ [])
        (windows-protected d.windows d.in_windows)
        (subst (λ cs. is_driver_file cs exceptions ≡ true) d.place named))
evaluate_components← path exceptions (footprint top below e outside f) =
    subst (λ cs. evaluate_components path exceptions cs ≡ allowed) (sym e)
      (footprint-allowed path exceptions top below (is_named← protected_top_level top outside) (
        subst (λ cs. evaluate_outside path top cs ≡ allowed) e
          ((evaluate_outside_iff path top).1 f)))

-- On disk a path must have come through an open handle, and through no link.
abbrev pub HasEvidence : Stage → CanonicalPath → Type 0
HasEvidence catalog_load path = Unit {0}
HasEvidence (on_disk traverses) path = (traverses ≡ false) × (path.resolved_via_handle ≡ true)

is_drive_rooted_iff : (kind : PathKind) → (is_drive_rooted kind ≡ true) ↔ (kind ≡ drive_rooted)
is_drive_rooted_iff drive_rooted = (λ h. refl, λ h. refl)
is_drive_rooted_iff unc = (λ h. cc, λ h. cc)
is_drive_rooted_iff device = (λ h. cc, λ h. cc)

check_path→ :
    (path : CanonicalPath) (exceptions : Exceptions) (stage : Stage)
    → check_path path exceptions stage ≡ allowed
    → HasEvidence stage path
      × (is_drive_rooted path.kind ≡ true)
      × (path.short_name ≡ false)
      × (evaluate_components path exceptions path.components ≡ allowed)
unfolding check_path evaluate_namespace
check_path→ path exceptions catalog_load h = (tt, ground arith, ground arith, ground arith)
check_path→ path exceptions (on_disk traverses) h =
    ((ground arith, ground arith), ground arith, ground arith, ground arith)

check_path← :
    (path : CanonicalPath) (exceptions : Exceptions) (stage : Stage)
    → HasEvidence stage path
    → is_drive_rooted path.kind ≡ true
    → path.short_name ≡ false
    → evaluate_components path exceptions path.components ≡ allowed
    → check_path path exceptions stage ≡ allowed
unfolding check_path evaluate_namespace
check_path← path exceptions catalog_load e k s h = ground arith
check_path← path exceptions (on_disk traverses) e k s h = ground arith

-- `check_path` allows a path exactly when it has the evidence that its stage asks for, is rooted at a
-- drive, holds no unresolved 8.3 alias, and is removable: a driver file that the carve-outs name,
-- directly in `WINDOWS\SYSTEM32\DRIVERS`, or a footprint outside every protected top-level directory.
pub check_path_iff :
    (path : CanonicalPath) (exceptions : Exceptions) (stage : Stage)
    → (check_path path exceptions stage ≡ allowed) ↔ (
        HasEvidence stage path
        × (path.kind ≡ drive_rooted)
        × (path.short_name ≡ false)
        × IsRemovable exceptions path.components)
check_path_iff path exceptions stage = (
  λ h.
      let (evidence, local, plain, passed) = check_path→ path exceptions stage h in
      (
        evidence,
        (is_drive_rooted_iff path.kind).0 local,
        plain,
        evaluate_components→ path exceptions path.components refl passed,
      ),
  λ s.
      check_path← path exceptions stage s.0 ((is_drive_rooted_iff path.kind).1 s.1) s.2
        (evaluate_components← path exceptions s.3),
)
