-- ===== src/Text/Laws/Slices.antt =====
-- Byte offsets that lie between two characters, where a slice does not panic.
use wardsweep.Base.{
  ℕ, suc, ◌+◌, ◌-◌, ◌<◌, ◌≡◌, refl, ap, sym, ◌∙◌, true, Option, none, some, [], ◌∷◌, ◌++◌, arith,
  leb, is_nil, Bool-cases, inl, inr,
}
use wardsweep.Text.Chars.{Text, char_len, to_lower}
use wardsweep.Text.{
  byte_len, split_at_byte, cons_fst, find, add_offset, starts_with, strip_prefix, ascii_lower,
}

pub char_len-to_lower : (c : ℕ) → char_len (to_lower c) ≡ char_len c
unfolding char_len to_lower
char_len-to_lower c = ground arith

pub char_len_pos : (c : ℕ) → 0 < char_len c
unfolding char_len
char_len_pos c = ground arith

pub byte_len-append : (t u : Text) → byte_len (t ++ u) ≡ byte_len t + byte_len u
unfolding byte_len
byte_len-append [] u = omega arith
byte_len-append (c ∷ t) u = omega (arith, byte_len-append t u)

pub byte_len-ascii_lower : (t : Text) → byte_len (ascii_lower t) ≡ byte_len t
unfolding byte_len ascii_lower
byte_len-ascii_lower [] = refl
byte_len-ascii_lower (c ∷ t) = omega (arith, char_len-to_lower c, byte_len-ascii_lower t)

split_at_byte-suc :
    (c k n : ℕ) (t : Text)
    → suc k ≡ char_len c + n
    → split_at_byte (suc k) (c ∷ t) ≡ cons_fst c (split_at_byte n t)
unfolding split_at_byte
split_at_byte-suc c k n t e =
    let fits : leb (char_len c) (suc k) ≡ true = ground arith in
    let rest : suc k - char_len c ≡ n = omega arith in rw (fits, rest)

split_at_byte-step :
    (c n : ℕ) (t : Text) → split_at_byte (char_len c + n) (c ∷ t) ≡ cons_fst c (split_at_byte n t)
split_at_byte-step c n t =
    let e : suc (char_len c + n - 1) ≡ char_len c + n = omega (arith, char_len_pos c) in
    ap (λ k. split_at_byte k (c ∷ t)) (sym e) ∙ split_at_byte-suc c (char_len c + n - 1) n t e

-- Slicing behind a part of a text gives that part.
pub split_at_byte-append : (t u : Text) → split_at_byte (byte_len t) (t ++ u) ≡ some (t, u)
unfolding byte_len
split_at_byte-append [] [] = unfold split_at_byte in refl
split_at_byte-append [] (d ∷ u) = unfold split_at_byte in refl
split_at_byte-append (c ∷ t) u =
    split_at_byte-step c (byte_len t) (t ++ u) ∙ ap (cons_fst c) (split_at_byte-append t u)

pub starts_with-split : (t p : Text) → starts_with t p ≡ true → (rest : Text) × (t ≡ p ++ rest)
unfolding starts_with
starts_with-split t [] h = (t, refl)
starts_with-split [] (c ∷ p) h = cc
starts_with-split (d ∷ t) (c ∷ p) h =
    let (rest, e) = starts_with-split t p (ground arith) in (rest, ground arith)

pub strip_prefix-split : (t p rest : Text) → strip_prefix t p ≡ some rest → t ≡ p ++ rest
unfolding strip_prefix
strip_prefix-split t [] rest h = ground arith
strip_prefix-split [] (c ∷ p) rest h = cc
strip_prefix-split (d ∷ t) (c ∷ p) rest h = ground (arith, strip_prefix-split t p rest)

-- An offset between two characters.
abbrev pub IsCut : ℕ → Text → Type 0
IsCut n t = (before after : Text) × (t ≡ before ++ after) × (n ≡ byte_len before)

add_offset-split :
    (n : ℕ) (at : Option ℕ) (total : ℕ)
    → add_offset n at ≡ some total
    → (k : ℕ) × (at ≡ some k) × (total ≡ n + k)
add_offset-split n none total h = cc
add_offset-split n (some k) total h = (k, refl, ground arith)

nil_of_is_nil : (p : Text) → is_nil p ≡ true → [] ≡ p ++ []
nil_of_is_nil [] h = refl
nil_of_is_nil (c ∷ p) h = cc

pub find-split :
    (p t : Text) (n : ℕ)
    → find p t ≡ some n
    → (before after : Text) × (t ≡ before ++ (p ++ after)) × (n ≡ byte_len before)
unfolding find byte_len
find-split p [] n h = elim (Bool-cases (is_nil p)) [
  | inl nothing ↦ ([], [], nil_of_is_nil p nothing, ground arith)
  | inr something ↦ absurd (ground arith)
]
find-split p (c ∷ t) n h = elim (Bool-cases (starts_with (c ∷ t) p)) [
  | inl here ↦ let (after, e) = starts_with-split (c ∷ t) p here in ([], after, e, ground arith)
  | inr later ↦
      let (at, found, total) = add_offset-split (char_len c) (find p t) n (ground arith) in
      let (before, after, e, k) = find-split p t at found in
      (c ∷ before, after, ap (λ u. c ∷ u) e, omega (arith, total, k))
]

pub ascii_lower-split :
    (t a b : Text)
    → ascii_lower t ≡ a ++ b
    → (a' b' : Text) × (t ≡ a' ++ b') × (ascii_lower a' ≡ a) × (ascii_lower b' ≡ b)
unfolding ascii_lower
ascii_lower-split t [] b h = ([], t, refl, refl, h)
ascii_lower-split [] (c ∷ a) b h = cc
ascii_lower-split (d ∷ t) (c ∷ a) b h =
    let (a', b', e, ea, eb) = ascii_lower-split t a b (cc) in
    (d ∷ a', b', ap (λ u. d ∷ u) e, cc, eb)

pub IsCut-ascii_lower : (n : ℕ) (t : Text) → IsCut n (ascii_lower t) → IsCut n t
IsCut-ascii_lower n t (before, after, e, k) =
    let (before', after', e', eb, ea) = ascii_lower-split t before after e in
    (before', after', e', k ∙ ap byte_len (sym eb) ∙ byte_len-ascii_lower before')
