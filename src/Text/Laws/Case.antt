-- ===== src/Text/Laws/Case.antt =====
-- ASCII case: what upper-casing keeps, and that comparison without case is an equivalence.
use wardsweep.Base.{ℕ, ◌≡◌, refl, ap, sym, ◌∙◌, Bool, true, [], ◌∷◌, arith, ◌↔◌, all, any}
use wardsweep.Text.Chars.{Text, to_upper, to_lower, is_whitespace}
use wardsweep.Text.{
  trim_start, trim_cons, trim_end, trim_matches, trim, ascii_upper, ascii_lower, text_eq,
  eq_ignore_case,
}

pub text_eq_refl : (t : Text) → text_eq t t ≡ true
unfolding text_eq
text_eq_refl [] = refl
text_eq_refl (c ∷ t) = ground (arith, text_eq_refl t)

pub eq_of_text_eq : (t u : Text) → text_eq t u ≡ true → t ≡ u
unfolding text_eq
eq_of_text_eq [] [] h = refl
eq_of_text_eq [] (d ∷ u) h = cc
eq_of_text_eq (c ∷ t) [] h = cc
eq_of_text_eq (c ∷ t) (d ∷ u) h = ground (arith, eq_of_text_eq t u)

pub to_upper-to_lower : (c : ℕ) → to_upper (to_lower c) ≡ to_upper c
unfolding to_upper to_lower
to_upper-to_lower c = ground arith

pub to_lower-to_upper : (c : ℕ) → to_lower (to_upper c) ≡ to_lower c
unfolding to_upper to_lower
to_lower-to_upper c = ground arith

pub to_upper_idem : (c : ℕ) → to_upper (to_upper c) ≡ to_upper c
unfolding to_upper
to_upper_idem c = ground arith

pub ascii_upper_idem : (t : Text) → ascii_upper (ascii_upper t) ≡ ascii_upper t
unfolding ascii_upper
ascii_upper_idem [] = refl
ascii_upper_idem (c ∷ t) = cc (to_upper_idem c, ascii_upper_idem t)

pub ascii_upper-ascii_lower : (t : Text) → ascii_upper (ascii_lower t) ≡ ascii_upper t
unfolding ascii_upper ascii_lower
ascii_upper-ascii_lower [] = refl
ascii_upper-ascii_lower (c ∷ t) = cc (to_upper-to_lower c, ascii_upper-ascii_lower t)

pub ascii_lower-ascii_upper : (t : Text) → ascii_lower (ascii_upper t) ≡ ascii_lower t
unfolding ascii_upper ascii_lower
ascii_lower-ascii_upper [] = refl
ascii_lower-ascii_upper (c ∷ t) = cc (to_lower-to_upper c, ascii_lower-ascii_upper t)

-- Comparison without case is equality of the upper-case forms.
pub eq_ignore_case_iff :
    (t u : Text) → (eq_ignore_case t u ≡ true) ↔ (ascii_upper t ≡ ascii_upper u)
unfolding eq_ignore_case
eq_ignore_case_iff t u = (
  λ h.
      sym (ascii_upper-ascii_lower t)
      ∙ ap ascii_upper (eq_of_text_eq (ascii_lower t) (ascii_lower u) h)
      ∙ ascii_upper-ascii_lower u,
  λ h.
      let e : ascii_lower t ≡ ascii_lower u =
        sym (ascii_lower-ascii_upper t) ∙ ap ascii_lower h ∙ ascii_lower-ascii_upper u in
      rw e (text_eq_refl (ascii_lower u)),
)

-- A test that does not see case holds of an upper-case text as of the text.
module _ (p : ℕ → Bool) (same : (c : ℕ) → p (to_upper c) ≡ p c) where
  pub all-ascii_upper : (t : Text) → all p (ascii_upper t) ≡ all p t
  unfolding all ascii_upper
  all-ascii_upper [] = refl
  all-ascii_upper (c ∷ t) = cc (same c, all-ascii_upper t)

  pub any-ascii_upper : (t : Text) → any p (ascii_upper t) ≡ any p t
  unfolding any ascii_upper
  any-ascii_upper [] = refl
  any-ascii_upper (c ∷ t) = cc (same c, any-ascii_upper t)

  trim_cons-ascii_upper :
      (c : ℕ) (t : Text) → trim_cons p (to_upper c) (ascii_upper t) ≡ ascii_upper (trim_cons p c t)
  unfolding ascii_upper
  trim_cons-ascii_upper c [] = ground (arith, same c)
  trim_cons-ascii_upper c (d ∷ t) = refl

  pub trim_start-ascii_upper :
      (t : Text) → trim_start p (ascii_upper t) ≡ ascii_upper (trim_start p t)
  unfolding trim_start ascii_upper
  trim_start-ascii_upper [] = refl
  trim_start-ascii_upper (c ∷ t) = ground (arith, same c, trim_start-ascii_upper t)

  pub trim_end-ascii_upper : (t : Text) → trim_end p (ascii_upper t) ≡ ascii_upper (trim_end p t)
  unfolding trim_end ascii_upper
  trim_end-ascii_upper [] = refl
  trim_end-ascii_upper (c ∷ t) =
      rw (trim_end-ascii_upper t) (trim_cons-ascii_upper c (trim_end p t))

trim_end-trim_cons :
    (p : ℕ → Bool) (c : ℕ) (t : Text)
    → trim_end p t ≡ t
    → trim_end p (trim_cons p c t) ≡ trim_cons p c t
unfolding trim_end
trim_end-trim_cons p c [] h = ground arith
trim_end-trim_cons p c (d ∷ t) h = rw h

pub trim_end_idem : (p : ℕ → Bool) (t : Text) → trim_end p (trim_end p t) ≡ trim_end p t
unfolding trim_end
trim_end_idem p [] = refl
trim_end_idem p (c ∷ t) = trim_end-trim_cons p c (trim_end p t) (trim_end_idem p t)

is_whitespace-to_upper : (c : ℕ) → is_whitespace (to_upper c) ≡ is_whitespace c
unfolding is_whitespace to_upper
is_whitespace-to_upper c = ground arith

pub trim-ascii_upper : (t : Text) → trim (ascii_upper t) ≡ ascii_upper (trim t)
unfolding trim trim_matches
trim-ascii_upper t =
    rw (trim_start-ascii_upper is_whitespace is_whitespace-to_upper t)
      (trim_end-ascii_upper is_whitespace is_whitespace-to_upper (trim_start is_whitespace t))

pub eq_ignore_case-ascii_upper :
    (t u : Text) → eq_ignore_case t (ascii_upper u) ≡ eq_ignore_case t u
unfolding eq_ignore_case
eq_ignore_case-ascii_upper t u = rw ascii_lower-ascii_upper

-- Between upper-case texts comparison without case is equality.
pub eq_of_eq_ignore_case :
    (t u : Text) → ascii_upper t ≡ t → ascii_upper u ≡ u → eq_ignore_case t u ≡ true → t ≡ u
eq_of_eq_ignore_case t u p q h = sym p ∙ (eq_ignore_case_iff t u).0 h ∙ q
