-- ===== src/Observe/Diff/Filter/Sift.antt =====
-- tools/observe/src/diff.rs: where the noise filter leaves a change.
use mathlib.Core.List.{Memᴰ}
use mathlib.Core.List.Memᴰ
use wardsweep.Base.{◌≡◌, ◌⊎◌, refl, ap, inl, inr, Option, none, some, Option-cases, List, [], ◌∷◌}
use wardsweep.Text.Chars.{Text}
use wardsweep.Observe.Diff.Types.{Suppressed}
use wardsweep.Observe.Diff.Filter.{kept, moved_aside}

-- A change is in one of the two lists: kept, when no rule matches it, or moved aside under the rule that
-- does.
abbrev pub IsSifted : {C : Type 0} → (C → Option Text) → C → List C → List (Suppressed C) → Type 0
IsSifted rule change listed aside =
    ((rule change ≡ none) × Memᴰ change listed)
    ⊎ ((name : Text) × (rule change ≡ some name)
        × Memᴰ (record { rule = name; change = change }) aside)

module _ {C : Type 0} (rule : C → Option Text) where
  pub kept-IsSifted :
      (change : C) (changes : List C)
      → Memᴰ change changes
      → IsSifted rule change (kept rule changes) (moved_aside rule changes)
  unfolding kept moved_aside
  kept-IsSifted change [] m = elim m [ ]
  kept-IsSifted change (first ∷ changes) (Memᴰ.head e) = elim (Option-cases (rule first)) [
    | inl free ↦ rw (e, free) (inl (refl, Memᴰ.head refl))
    | inr (name, matched) ↦ rw (e, matched) (inr (name, refl, Memᴰ.head refl))
  ]
  kept-IsSifted change (first ∷ changes) (Memᴰ.tail m) = elim (Option-cases (rule first)) [
    | inl free ↦ rw free (later_kept (kept-IsSifted change changes m))
    | inr (name, matched) ↦ rw matched (later_moved (kept-IsSifted change changes m))
  ]
    where
      later_kept :
          IsSifted rule change (kept rule changes) (moved_aside rule changes)
          → IsSifted rule change (first ∷ kept rule changes) (moved_aside rule changes)
      later_kept (inl (e, there)) = inl (e, Memᴰ.tail there)
      later_kept (inr there) = inr there

      later_moved :
          {entry : Suppressed C}
          → IsSifted rule change (kept rule changes) (moved_aside rule changes)
          → IsSifted rule change (kept rule changes) (entry ∷ moved_aside rule changes)
      later_moved (inl there) = inl there
      later_moved (inr (other, e, there)) = inr (other, e, Memᴰ.tail there)

  pub Mem-kept :
      (change : C) (changes : List C) → Memᴰ change (kept rule changes) → Memᴰ change changes
  unfolding kept
  Mem-kept change [] m = elim m [ ]
  Mem-kept change (first ∷ changes) m = elim (Option-cases (rule first)) [
    | inr (name, matched) ↦ Memᴰ.tail (Mem-kept change changes (rw matched at m))
    | inl free ↦ elim (Memᴰ.cases_cons (rw free at m)) [
      | inl same ↦ Memᴰ.head same
      | inr later ↦ Memᴰ.tail (Mem-kept change changes later)
    ]
  ]

  pub Mem-moved_aside :
      (entry : Suppressed C) (changes : List C)
      → Memᴰ entry (moved_aside rule changes)
      → Memᴰ entry.change changes
  unfolding moved_aside
  Mem-moved_aside entry [] m = elim m [ ]
  Mem-moved_aside entry (first ∷ changes) m = elim (Option-cases (rule first)) [
    | inl free ↦ Memᴰ.tail (Mem-moved_aside entry changes (rw free at m))
    | inr (name, matched) ↦ elim (Memᴰ.cases_cons (rw matched at m)) [
      | inl same ↦ Memᴰ.head (ap (λ e. e.change) same)
      | inr later ↦ Memᴰ.tail (Mem-moved_aside entry changes later)
    ]
  ]

  pub kept-nothing : (changes : List C) → changes ≡ [] → kept rule changes ≡ []
  unfolding kept
  kept-nothing changes e = rw e refl

  pub moved_aside-nothing : (changes : List C) → changes ≡ [] → moved_aside rule changes ≡ []
  unfolding moved_aside
  moved_aside-nothing changes e = rw e refl
