-- ===== src/Base/Lists.antt =====
-- Lists measured by native numbers, tests over all their elements, and predicates by recursion.
use Prim.Native.Nat.{ℕ, suc}
use mathlib.Core.Path.{◌≡◌, refl, ap}
use mathlib.Core.Logic.{◌↔◌, inl, inr}
use wardsweep.Base.Tests.{or-eq_false, Bool-cases}
use mathlib.Core.Bool.{Bool, true, false, ◌&&◌, ◌||◌}
use mathlib.Core.Option.{Option, none, some}
use mathlib.Core.List.{List, [], ◌∷◌, ◌++◌}
use native.Mathlib.Omega.{arith}

module _ {ℓ} {A : Type ℓ} where
  abbrev pub length : List A → ℕ
  length [] = 0
  length (x ∷ xs) = suc (length xs)

  -- `iter().any(..)` and `iter().all(..)`
  unfoldable pub any : (A → Bool) → List A → Bool
  any p [] = false
  any p (x ∷ xs) = p x || any p xs

  unfoldable pub all : (A → Bool) → List A → Bool
  all p [] = true
  all p (x ∷ xs) = p x && all p xs

  abbrev pub is_nil : List A → Bool
  is_nil [] = true
  is_nil (x ∷ xs) = false

  -- `slice::last`
  abbrev pub last : List A → Option A
  last [] = none
  last (x ∷ []) = some x
  last (x ∷ y ∷ ys) = last (y ∷ ys)

  -- What `Vec::pop` leaves.
  abbrev pub init : List A → List A
  init [] = []
  init (x ∷ []) = []
  init (x ∷ y ∷ ys) = x ∷ init (y ∷ ys)

  -- `next()` on an iterator, with `unwrap_or(d)`.
  abbrev pub head_or : A → List A → A
  head_or d [] = d
  head_or d (x ∷ xs) = x

  abbrev pub find_map {κ} : {B : Type κ} → (A → Option B) → List A → Option B
  find_map f [] = none
  find_map f (x ∷ xs) = elim (f x) [ some b ↦ some b | none ↦ find_map f xs ]

-- `P` holds of every element.
abbrev pub All {ℓ κ} : {A : Type ℓ} → (A → Type κ) → List A → Type κ
All P [] = Unit
All P (x ∷ xs) = P x × All P xs

module _ {ℓ κ} {A : Type ℓ} (P : A → Type κ) where
  pub All-append : (xs ys : List A) → All P xs → All P ys → All P (xs ++ ys)
  All-append [] ys h k = k
  All-append (x ∷ xs) ys h k = (h.0, All-append xs ys h.1 k)

  pub All-init : (xs : List A) → All P xs → All P (init xs)
  All-init [] h = h
  All-init (x ∷ []) h = tt
  All-init (x ∷ y ∷ ys) h = (h.0, All-init (y ∷ ys) h.1)

module _ {ℓ} {A : Type ℓ} (p : A → Bool) where
  pub all-append : (xs ys : List A) → all p (xs ++ ys) ≡ (all p xs && all p ys)
  unfolding all
  all-append [] ys = refl
  all-append (x ∷ xs) ys = ground (arith, all-append xs ys)

  pub any-append : (xs ys : List A) → any p (xs ++ ys) ≡ (any p xs || any p ys)
  unfolding any
  any-append [] ys = refl
  any-append (x ∷ xs) ys = ground (arith, any-append xs ys)

-- A test that decides `P` passes on no element exactly when `P` holds of none.
module _ {ℓ κ} {A : Type ℓ} (f : A → Bool) (P : A → Type κ)
    (decides : (x : A) → (f x ≡ true) ↔ P x) where
  pub any-eq_false→ : (xs : List A) → any f xs ≡ false → All (λ x. ¬ P x) xs
  unfolding any
  any-eq_false→ [] h = tt
  any-eq_false→ (x ∷ xs) h =
      let (head_false, tail_false) = or-eq_false (f x) (any f xs) h in
      ((λ px. cc (head_false, (decides x).1 px)), any-eq_false→ xs tail_false)

  pub any-eq_false← : (xs : List A) → All (λ x. ¬ P x) xs → any f xs ≡ false
  unfolding any
  any-eq_false← [] h = refl
  any-eq_false← (x ∷ xs) h = elim (Bool-cases (f x)) [
    | inl passes ↦ absurd (h.0 ((decides x).0 passes))
    | inr fails ↦ rw fails (any-eq_false← xs h.1)
  ]

module _ {ℓ} {A : Type ℓ} where
  pub last-append : (xs : List A) (x : A) → last (xs ++ (x ∷ [])) ≡ some x
  last-append [] x = refl
  last-append (y ∷ []) x = refl
  last-append (y ∷ z ∷ ys) x = last-append (z ∷ ys) x

  -- A list is empty, or the list before its last element and that element.
  pub last-split :
      (xs : List A) (x : A) → last xs ≡ some x → (parents : List A) × (xs ≡ parents ++ (x ∷ []))
  last-split [] x h = cc
  last-split (y ∷ []) x h = ([], cc h)
  last-split (y ∷ z ∷ ys) x h =
      let (parents, e) = last-split (z ∷ ys) x h in (y ∷ parents, ap (λ t. y ∷ t) e)
