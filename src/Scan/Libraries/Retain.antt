-- ===== src/Scan/Libraries/Retain.antt =====
-- What `Vec::retain` leaves, in core/src/scan/libraries.rs and tools/observe.
use mathlib.Core.List.{Memᴰ}
use mathlib.Core.List.Memᴰ
use wardsweep.Base.{
  ◌≡◌, sym, ap, ◌∙◌, inl, inr, Bool, Bool-cases, true, not, List, [], ◌∷◌, length, arith,
}
use wardsweep.Scan.Libraries.{retain}

module _ {A : Type 0} (p : A → Bool) where
  pub Mem-retain : (x : A) (xs : List A) → Memᴰ x (retain p xs) → (p x ≡ true) × Memᴰ x xs
  unfolding retain
  Mem-retain x [] m = elim m [ ]
  Mem-retain x (y ∷ ys) m = elim (Bool-cases (p y)) [
    | inr goes ↦ let (e, there) = Mem-retain x ys (rw goes at m) in (e, Memᴰ.tail there)
    | inl stays ↦ elim (Memᴰ.cases_cons (rw stays at m)) [
      | inl same ↦ (ap p same ∙ stays, Memᴰ.head same)
      | inr later ↦ let (e, there) = Mem-retain x ys later in (e, Memᴰ.tail there)
    ]
  ]

  pub Mem-retain_back : (x : A) (xs : List A) → p x ≡ true → Memᴰ x xs → Memᴰ x (retain p xs)
  unfolding retain
  Mem-retain_back x [] e m = elim m [ ]
  Mem-retain_back x (y ∷ ys) e (Memᴰ.head same) = rw (ap p (sym same) ∙ e) (Memᴰ.head same)
  Mem-retain_back x (y ∷ ys) e (Memᴰ.tail m) = elim (Bool-cases (p y)) [
    | inr goes ↦ rw goes (Mem-retain_back x ys e m)
    | inl stays ↦ rw stays (Memᴰ.tail (Mem-retain_back x ys e m))
  ]

  -- When no element is refused, each one passes.
  pub none_refused :
      (xs : List A) → length (retain (λ x. not (p x)) xs) ≡ 0 → (x : A) → Memᴰ x xs → p x ≡ true
  unfolding retain
  none_refused [] e x m = elim m [ ]
  none_refused (y ∷ ys) e x m = elim (Bool-cases (p y)) [
    | inr goes ↦ absurd (ground (arith, rw goes at e))
    | inl stays ↦ elim (Memᴰ.cases_cons m) [
      | inl same ↦ ap p same ∙ stays
      | inr later ↦ none_refused ys (rw stays at e) x later
    ]
  ]
