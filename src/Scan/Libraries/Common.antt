-- ===== src/Scan/Libraries/Common.antt =====
-- core/src/scan/libraries.rs: which libraries several lists have in common.
use mathlib.Core.List.{Memᴰ}
use wardsweep.Base.{
  refl, sym, ap, ◌∙◌, inl, inr, Bool-cases, arith, and-eq_true, ◌≡◌, ◌↔◌, true, List, [], ◌∷◌, any,
  All,
}
use wardsweep.Text.{ascii_upper}
use wardsweep.Text.Laws.Case.{eq_ignore_case_iff}
use wardsweep.Scan.Libraries.{
  Launcher, steam, epic, Library, same_launcher, same_library, retain, common_with, common,
}
use wardsweep.Scan.Libraries.Retain.{Mem-retain, Mem-retain_back}

-- A list names a library: one of the same launcher, whose path is the same but for the case of its letters.
abbrev pub IsNamed : Library → List Library → Type 0
IsNamed library list =
    (other : Library) × Memᴰ other list
    × (other.launcher ≡ library.launcher)
    × (ascii_upper other.path ≡ ascii_upper library.path)

same_launcher_iff : (a b : Launcher) → (same_launcher a b ≡ true) ↔ (a ≡ b)
unfolding same_launcher
same_launcher_iff steam steam = (λ h. refl, λ h. refl)
same_launcher_iff steam epic = (λ h. cc, λ h. cc)
same_launcher_iff epic steam = (λ h. cc, λ h. cc)
same_launcher_iff epic epic = (λ h. refl, λ h. refl)

any-IsNamed :
    (library : Library) (list : List Library)
    → any (same_library library) list ≡ true
    → IsNamed library list
unfolding any same_library
any-IsNamed library [] h = cc
any-IsNamed library (other ∷ list) h = elim (Bool-cases (same_library library other)) [
  | inl same ↦
      let (launcher, path) = and-eq_true (same_launcher other.launcher library.launcher) _ same in
      (
        other,
        Memᴰ.head refl,
        (same_launcher_iff other.launcher library.launcher).0 launcher,
        (eq_ignore_case_iff other.path library.path).0 path,
      )
  | inr differ ↦
      let (named, there, launcher, path) = any-IsNamed library list (ground (arith, differ)) in
      (named, Memᴰ.tail there, launcher, path)
]

IsNamed-any :
    (library : Library) (list : List Library) (other : Library)
    → Memᴰ other list
    → other.launcher ≡ library.launcher
    → ascii_upper other.path ≡ ascii_upper library.path
    → any (same_library library) list ≡ true
unfolding any same_library
IsNamed-any library [] other m launcher path = elim m [ ]
IsNamed-any library (first ∷ list) other (Memᴰ.head e) launcher path =
    let launchers =
      (same_launcher_iff first.launcher library.launcher).1
        (ap (λ l. l.launcher) (sym e) ∙ launcher) in
    let paths =
      (eq_ignore_case_iff first.path library.path).1
        (ap (λ l. ascii_upper l.path) (sym e) ∙ path) in
    ground (arith, launchers, paths)
IsNamed-any library (first ∷ list) other (Memᴰ.tail m) launcher path =
    ground (arith, IsNamed-any library list other m launcher path)

common_with_iff :
    (library : Library) (kept : List Library) (lists : List (List Library))
    → Memᴰ library (common_with kept lists) ↔ (Memᴰ library kept × All (IsNamed library) lists)
unfolding common_with
common_with_iff library kept [] = (λ m. (m, tt), λ (m, h). m)
common_with_iff library kept (list ∷ lists) = (
  λ m.
      let (there, named) =
        (common_with_iff library (retain (λ other. any (same_library other) list) kept) lists).0
          m in
      let (here, kept_too) = Mem-retain _ library kept there in
      (kept_too, (any-IsNamed library list here, named)),
  λ (kept_too, (here, named)).
      (common_with_iff library (retain (λ other. any (same_library other) list) kept) lists).1 (
        Mem-retain_back _ library kept (IsNamed-any library list here.0 here.1 here.2 here.3)
            kept_too,
        named,
      ),
)

-- The common libraries of a first list and the others are exactly those of the first that each of the others
-- names: under the same launcher, by the same path but for the case of its ASCII letters.
pub common_iff :
    (library : Library) (first : List Library) (lists : List (List Library))
    → Memᴰ library (common (first ∷ lists)) ↔ (Memᴰ library first × All (IsNamed library) lists)
unfolding common
common_iff library first lists = common_with_iff library first lists
