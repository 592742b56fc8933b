-- ===== src/Text/Laws.antt =====
-- Laws of the text operations: what each keeps of the characters that it is given.
pub mod Case
pub mod Slices
use wardsweep.Base.{
  ℕ, zero, suc, ◌-◌, ◌≡◌, refl, Bool, true, false, not, ◌&&◌, Option, none, some, List, [], ◌∷◌,
  arith, leb, ◌==◌, if◌then◌else◌, all, any, All, Bool-cases, Option-cases, inl, inr,
}
use wardsweep.Text.Chars.{Text, char_len, is_whitespace}
use wardsweep.Text.{
  trim_start, trim_cons, trim_end, trim_matches, trim, split_by, cons_head, split_once, cons_fst,
  split_at_byte, strip_prefix, contains, replace,
}

-- Each character of the text passes the test.
abbrev pub Chars : (ℕ → Bool) → Text → Type 0
Chars p t = all p t ≡ true

module _ (p : ℕ → Bool) where
  pub trim_start-Chars : (q : ℕ → Bool) (t : Text) → Chars p t → Chars p (trim_start q t)
  unfolding trim_start all
  trim_start-Chars q [] h = h
  trim_start-Chars q (c ∷ t) h = ground (arith, trim_start-Chars q t)

  trim_cons-Chars :
      (q : ℕ → Bool) (c : ℕ) (t : Text) → p c ≡ true → Chars p t → Chars p (trim_cons q c t)
  unfolding all
  trim_cons-Chars q c [] hc h = ground arith
  trim_cons-Chars q c (d ∷ t) hc h = ground arith

  pub trim_end-Chars : (q : ℕ → Bool) (t : Text) → Chars p t → Chars p (trim_end q t)
  unfolding trim_end all
  trim_end-Chars q [] h = h
  trim_end-Chars q (c ∷ t) h =
      trim_cons-Chars q c (trim_end q t) (ground arith) (trim_end-Chars q t (ground arith))

  pub trim-Chars : (t : Text) → Chars p t → Chars p (trim t)
  unfolding trim trim_matches
  trim-Chars t h =
      trim_end-Chars is_whitespace (trim_start is_whitespace t) (trim_start-Chars is_whitespace t h)

  cons_head-Chars :
      (c : ℕ) (ts : List Text) → p c ≡ true → All (Chars p) ts → All (Chars p) (cons_head c ts)
  unfolding all
  cons_head-Chars c [] hc h = (ground arith, tt)
  cons_head-Chars c (t ∷ ts) hc h = (ground arith, h.1)

-- A part of a split keeps its characters, and holds no separator.
pub split_by-Chars :
    (p q : ℕ → Bool) (t : Text) → Chars p t → All (Chars (λ c. p c && not (q c))) (split_by q t)
unfolding split_by all
split_by-Chars p q [] h = (refl, tt)
split_by-Chars p q (c ∷ t) h =
    let rest = split_by-Chars p q t (ground arith) in
    elim (Bool-cases (q c)) [
      | inl e ↦ rw e (refl, rest)
      | inr e ↦ rw e (cons_head-Chars (λ x. p x && not (q x)) c (split_by q t) (ground arith) rest)
    ]

module _ (p : ℕ → Bool) (sep : ℕ) where
  pub split_once-Chars :
      (t : Text)
      → Chars p t
      → Chars p (split_once sep t).0
        × ((rest : Text) → (split_once sep t).1 ≡ some rest → Chars p rest)
  unfolding split_once all
  split_once-Chars [] h = (refl, λ rest e. cc)
  split_once-Chars (c ∷ t) h =
      let ih = split_once-Chars t (ground arith) in
      elim (Bool-cases (c == sep)) [
        | inl e ↦ rw e (refl, λ rest f. ground arith)
        | inr e ↦ rw e (ground arith, ih.1)
      ]

module _ (p : ℕ → Bool) where
  pub split_at_byte-Chars :
      (n : ℕ) (t : Text) (halves : Text × Text)
      → Chars p t
      → split_at_byte n t ≡ some halves
      → Chars p halves.1
  unfolding split_at_byte all
  split_at_byte-Chars zero t halves h e = ground arith
  split_at_byte-Chars (suc n) [] halves h e = cc
  split_at_byte-Chars (suc n) (c ∷ t) halves h e =
      elim (Option-cases (split_at_byte (suc n - char_len c) t)) [
        | inl out ↦ ground arith
        | inr (rest, found) ↦
            ground (arith, split_at_byte-Chars (suc n - char_len c) t rest (ground arith) found)
      ]

  pub strip_prefix-Chars :
      (t prefix rest : Text) → Chars p t → strip_prefix t prefix ≡ some rest → Chars p rest
  unfolding strip_prefix all
  strip_prefix-Chars t [] rest h e = ground arith
  strip_prefix-Chars [] (q ∷ prefix) rest h e = cc
  strip_prefix-Chars (c ∷ t) (q ∷ prefix) rest h e =
      ground (arith, strip_prefix-Chars t prefix rest)

-- `replace` leaves none of the character that it replaces, and keeps what else the text lacks.
pub replace-Chars :
    (a b x : ℕ) (t : Text)
    → (a == b) ≡ false
    → (x == b) ≡ false
    → contains x t ≡ false
    → Chars (λ c. not (c == a) && not (c == x)) (replace a b t)
unfolding replace contains any all
replace-Chars a b x [] n m h = refl
replace-Chars a b x (c ∷ t) n m h = ground (arith, replace-Chars a b x t n m)
