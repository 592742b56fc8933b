-- ===== src/Observe/Diff/Compare/Emptied.antt =====
-- tools/observe/src/diff.rs: which directories a comparison says were emptied, and when it says rebooted.
use mathlib.Core.List.{Memᴰ}
use wardsweep.Base.{
  ℕ, ◌≡◌, ◌↔◌, ◌≤◌, ◌+◌, refl, sym, ap, inl, inr, Bool-cases, true, false, not, some, List, [], ◌∷◌,
  any, arith, ltb,
}
use wardsweep.Text.Chars.{Text}
use wardsweep.Text.{text_eq}
use wardsweep.Text.Laws.Case.{text_eq_refl, eq_of_text_eq}
use wardsweep.Scan.Libraries.{retain}
use wardsweep.Scan.Libraries.Retain.{Mem-retain, Mem-retain_back}
use wardsweep.Observe.Coverage.{covers}
use wardsweep.Observe.Policy.{is_excluded_path}
use wardsweep.Observe.Model.{Snapshot, Coverage, BootSession, filesystem}
use wardsweep.Observe.Diff.Compare.{
  newly_in, emptied, emptied_directories, rebooted, same_boot_tolerance_ms, abs_diff,
}

apart_iff :
    (a b : ℕ)
    → (ltb same_boot_tolerance_ms (abs_diff a b) ≡ false)
      ↔ ((a ≤ b + same_boot_tolerance_ms) × (b ≤ a + same_boot_tolerance_ms))
apart_iff a b = ground arith

-- Two sessions are one boot exactly when each started at most the tolerance after the other.
pub rebooted_iff :
    (earlier later : BootSession)
    → (rebooted (some earlier) (some later) ≡ some false) ↔ (
        (earlier.started_unix_ms ≤ later.started_unix_ms + same_boot_tolerance_ms)
        × (later.started_unix_ms ≤ earlier.started_unix_ms + same_boot_tolerance_ms))
unfolding rebooted
rebooted_iff earlier later = (
  λ e. (apart_iff earlier.started_unix_ms later.started_unix_ms).0 (cc e),
  λ h. ap some ((apart_iff earlier.started_unix_ms later.started_unix_ms).1 h),
)

any_Mem : (path : Text) (was : List Text) → any (text_eq path) was ≡ true → Memᴰ path was
unfolding any
any_Mem path [] e = absurd (ground (arith, e))
any_Mem path (other ∷ was) e = elim (Bool-cases (text_eq path other)) [
  | inl same ↦ Memᴰ.head (eq_of_text_eq path other same)
  | inr differ ↦ Memᴰ.tail (any_Mem path was (rw differ at e))
]

Mem_any : (path : Text) (was : List Text) → Memᴰ path was → any (text_eq path) was ≡ true
unfolding any
Mem_any path [] m = elim m [ ]
Mem_any path (other ∷ was) (Memᴰ.head e) = rw (sym e, text_eq_refl path) refl
Mem_any path (other ∷ was) (Memᴰ.tail m) = rw (Mem_any path was m) (ground arith)

any_lem :
    (path : Text) (was : List Text) → (not (any (text_eq path) was) ≡ true) ↔ ¬ (Memᴰ path was)
any_lem path was = (
  λ e m. ground (arith, e, Mem_any path was m),
  λ h. elim (Bool-cases (any (text_eq path) was)) [
    | inl there ↦ absurd (h (any_Mem path was there))
    | inr away ↦ rw away refl
  ],
)

-- A directory is listed as emptied exactly when the later snapshot found it empty, the earlier one did
-- not, and this build does not exclude it; given that both snapshots recorded their empty directories and
-- that the filesystem is covered, there is such a list.
pub emptied_directories_iff :
    (before after : Snapshot) (coverage : Coverage) (was now : List Text)
    → covers coverage filesystem ≡ true
    → before.file_empty_directories ≡ some was
    → after.file_empty_directories ≡ some now
    → (items : List Text) × (emptied_directories before after coverage ≡ some items)
      × ((path : Text)
          → Memᴰ path items ↔ (Memᴰ path now × ¬ (Memᴰ path was) × (is_excluded_path path ≡ false)))
unfolding emptied_directories emptied newly_in
emptied_directories_iff before after coverage was now covered e f = (
  retain (λ x. not (is_excluded_path x)) (retain (λ x. not (any (text_eq x) was)) now),
  rw (covered, e, f) refl,
  λ path. (
    λ m.
        let (admitted, rest) = Mem-retain _ path _ m in
        let (absent, there) = Mem-retain _ path now rest in
        (there, (any_lem path was).0 absent, ground (arith, admitted)),
    λ (there, absent, admitted).
        Mem-retain_back _ path _ (rw admitted refl)
          (Mem-retain_back _ path now ((any_lem path was).1 absent) there),
  ),
)
