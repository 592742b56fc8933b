-- ===== src/Denylist/Carveout.antt =====
-- core/src/safety/denylist.rs: what a catalog's carve-outs can and cannot unlock.
use wardsweep.Base.{
  ◌≡◌, ◌≢◌, ◌⊎◌, ◌↔◌, inl, inr, refl, sym, subst, ◌∙◌, true, false, Option, none, some, List, [],
  ◌∷◌, arith, any, All, Bool-cases,
}
use wardsweep.Text.Chars.{Text}
use wardsweep.Text.{text_eq, ascii_upper, eq_ignore_case, trim}
use wardsweep.Text.Laws.Case.{eq_of_text_eq, eq_ignore_case-ascii_upper, trim-ascii_upper}
use wardsweep.Denylist.Tables.Inbox.{inbox_drivers, inbox_services}
use wardsweep.Denylist.Tables.Paths.{protected_top_level}
use wardsweep.Paths.Canonical.{CanonicalPath, drive_rooted, is_drive_rooted}
use wardsweep.Denylist.Exceptions.{
  Exceptions, none_allowed, new, keep_driver, driver_names, named_services, base_file_name,
  is_inbox_driver, is_inbox_service, allows_driver_file, allows_service,
}
use wardsweep.Denylist.Footprint.{IsNamedDriver, driver, footprint, HasEvidence, check_path_iff}
use wardsweep.Denylist.Patterns.{NoneOf}
use wardsweep.Denylist.Check.{
  Stage, is_named, catalog_load, on_disk, allowed, is_driver_file, windows_directory_exception,
  evaluate_components, evaluate_namespace, check_path,
}

windows_directory_exception-allowed :
    (components : List Text) (exceptions : Exceptions)
    → windows_directory_exception components exceptions ≡ allowed
    → is_driver_file components exceptions ≡ true
unfolding windows_directory_exception
windows_directory_exception-allowed components exceptions h = ground arith

IsNamedDriver-none : (components : List Text) → ¬ (IsNamedDriver none_allowed components)
unfolding none_allowed allows_driver_file any
IsNamedDriver-none components d = cc d.named

-- A path outside every protected top-level directory.
abbrev pub IsUnprotected : List Text → Type 0
IsUnprotected components =
    (top : Text) × (below : List Text) × (components ≡ top ∷ below) × NoneOf protected_top_level top

-- What a carve-out adds is exactly the driver files that it names. A path is allowed with the carve-outs in
-- one of two ways: it is allowed with none, and then it is outside every protected top-level directory; or it
-- has the evidence of its stage, is rooted at a drive, holds no unresolved alias, and is a file directly in
-- `WINDOWS\SYSTEM32\DRIVERS` that they name.
pub check_path-carveout :
    (path : CanonicalPath) (exceptions : Exceptions) (stage : Stage)
    → (check_path path exceptions stage ≡ allowed) ↔ (
        (check_path path none_allowed stage ≡ allowed) × IsUnprotected path.components
        ⊎ HasEvidence stage path
          × (path.kind ≡ drive_rooted)
          × (path.short_name ≡ false)
          × IsNamedDriver exceptions path.components)
check_path-carveout path exceptions stage = (λ h. added h, still)
  where
    added :
        check_path path exceptions stage ≡ allowed
        → (check_path path none_allowed stage ≡ allowed) × IsUnprotected path.components
          ⊎ HasEvidence stage path
            × (path.kind ≡ drive_rooted)
            × (path.short_name ≡ false)
            × IsNamedDriver exceptions path.components
    added h =
        let (evidence, local, plain, removable) = (check_path_iff path exceptions stage).0 h in
        elim removable [
          | driver d ↦ inr (evidence, local, plain, d)
          | footprint top below e outside f ↦ inl (
            (check_path_iff path none_allowed stage).1
                (evidence, local, plain, footprint top below e outside f),
            (top, below, e, outside),
          )
        ]

    still :
        (check_path path none_allowed stage ≡ allowed) × IsUnprotected path.components
          ⊎ HasEvidence stage path
            × (path.kind ≡ drive_rooted)
            × (path.short_name ≡ false)
            × IsNamedDriver exceptions path.components
        → check_path path exceptions stage ≡ allowed
    still (inr (evidence, local, plain, d)) =
        (check_path_iff path exceptions stage).1 (evidence, local, plain, driver d)
    still (inl (h, unprotected)) =
        let (evidence, local, plain, removable) = (check_path_iff path none_allowed stage).0 h in
        elim removable [
          | driver d ↦ absurd (IsNamedDriver-none path.components d)
          | footprint top below e outside f ↦
              (check_path_iff path exceptions stage).1
                (evidence, local, plain, footprint top below e outside f)
        ]

-- What `new` keeps of the names that an entry lists.
keep_driver-All :
    (name : Option Text) (rest : List Text)
    → All (λ n. is_inbox_driver n ≡ false) rest
    → All (λ n. is_inbox_driver n ≡ false) (keep_driver name rest)
unfolding keep_driver
keep_driver-All none rest h = h
keep_driver-All (some name) rest h = ground arith

driver_names-All :
    (raws : List Text) → All (λ name. is_inbox_driver name ≡ false) (driver_names raws)
unfolding driver_names
driver_names-All [] = tt
driver_names-All (raw ∷ raws) =
    keep_driver-All (base_file_name raw) (driver_names raws) (driver_names-All raws)

named_services-All :
    (raws : List Text) → All (λ name. is_inbox_service name ≡ false) (named_services raws)
unfolding named_services
named_services-All [] = tt
named_services-All (raw ∷ raws) = ground (arith, named_services-All raws)

any-text_eq :
    (P : Text → Type 0) (names : List Text) (t : Text)
    → All P names
    → any (λ name. text_eq name t) names ≡ true
    → P t
unfolding any
any-text_eq P [] t all_names h = cc
any-text_eq P (name ∷ names) t all_names h = elim (Bool-cases (text_eq name t)) [
  | inl e ↦ subst P (eq_of_text_eq name t e) all_names.0
  | inr e ↦ any-text_eq P names t all_names.1 (ground arith)
]

-- Upper-casing a name does not change whether it ships with Windows.
any-eq_ignore_case :
    (names : List Text) (t : Text)
    → any (λ name. eq_ignore_case name (ascii_upper t)) names
      ≡ any (λ name. eq_ignore_case name t) names
unfolding any
any-eq_ignore_case [] t = refl
any-eq_ignore_case (name ∷ names) t =
    cc (eq_ignore_case-ascii_upper name t, any-eq_ignore_case names t)

is_inbox_driver-ascii_upper : (t : Text) → is_inbox_driver (ascii_upper t) ≡ is_inbox_driver t
unfolding is_inbox_driver
is_inbox_driver-ascii_upper t = rw trim-ascii_upper (any-eq_ignore_case inbox_drivers (trim t))

pub is_inbox_service-ascii_upper :
    (t : Text) → is_inbox_service (ascii_upper t) ≡ is_inbox_service t
unfolding is_inbox_service
is_inbox_service-ascii_upper t = rw trim-ascii_upper (any-eq_ignore_case inbox_services (trim t))

pub allows_driver_file-inbox :
    (drivers services : List Text) (file : Text)
    → allows_driver_file (new drivers services) file ≡ true
    → is_inbox_driver file ≡ false
unfolding allows_driver_file new
allows_driver_file-inbox drivers services file h =
    sym (is_inbox_driver-ascii_upper file)
    ∙ any-text_eq (λ n. is_inbox_driver n ≡ false) (driver_names drivers) (ascii_upper file)
        (driver_names-All drivers) h

pub allows_service-inbox :
    (drivers services : List Text) (name : Text)
    → allows_service (new drivers services) name ≡ true
    → is_inbox_service name ≡ false
unfolding allows_service new
allows_service-inbox drivers services name h =
    sym (is_inbox_service-ascii_upper name)
    ∙ any-text_eq (λ n. is_inbox_service n ≡ false) (named_services services) (ascii_upper name)
        (named_services-All services) h

is_driver_file-inbox :
    (drivers services : List Text) (windows system32 folder file : Text)
    → is_driver_file (windows ∷ system32 ∷ folder ∷ file ∷ []) (new drivers services) ≡ true
    → is_inbox_driver file ≡ false
unfolding is_driver_file
is_driver_file-inbox drivers services windows system32 folder file h =
    allows_driver_file-inbox drivers services file (ground arith)

evaluate_components-protected :
    (path : CanonicalPath) (exceptions : Exceptions) (top : Text) (below : List Text)
    → is_named protected_top_level top ≡ true
    → evaluate_components path exceptions (top ∷ below) ≡ allowed
    → is_driver_file (top ∷ below) exceptions ≡ true
unfolding evaluate_components
evaluate_components-protected path exceptions top below h e =
    windows_directory_exception-allowed (top ∷ below) exceptions (ground arith)

pub check_path-evaluate_components :
    (path : CanonicalPath) (exceptions : Exceptions) (stage : Stage)
    → check_path path exceptions stage ≡ allowed
    → (evaluate_components path exceptions path.components ≡ allowed)
      × (path.short_name ≡ false)
      × (is_drive_rooted path.kind ≡ true)
unfolding check_path evaluate_namespace
check_path-evaluate_components path exceptions catalog_load h = ground arith
check_path-evaluate_components path exceptions (on_disk traverses) h = ground arith

-- Whatever drivers and services a catalog entry lists, at every stage, no driver file that ships
-- with Windows is allowed in the drivers directory.
pub inbox_driver-denied :
    (path : CanonicalPath) (drivers services : List Text) (stage : Stage)
    (windows system32 folder file : Text)
    → path.components ≡ windows ∷ system32 ∷ folder ∷ file ∷ []
    → is_named protected_top_level windows ≡ true
    → is_inbox_driver file ≡ true
    → check_path path (new drivers services) stage ≢ allowed
inbox_driver-denied path drivers services stage windows system32 folder file shape top inbox h =
    let verdict = (check_path-evaluate_components path (new drivers services) stage h).0 in
    let named =
      evaluate_components-protected path (new drivers services) windows
        (system32 ∷ folder ∷ file ∷ []) top
        (subst (λ cs. evaluate_components path (new drivers services) cs ≡ allowed) shape
          verdict) in
    cc (inbox, is_driver_file-inbox drivers services windows system32 folder file named)
