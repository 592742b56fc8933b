-- ===== src/Scan/Image/Total.antt =====
-- core/src/scan/engine.rs: `image_file` slices only between characters.
use wardsweep.Base.{
  ℕ, ◌-◌, ◌≡◌, ◌⊎◌, refl, ap, ◌∙◌, Bool, true, false, Option, none, some, List, [], ◌∷◌, ◌++◌,
  arith, if◌then◌else◌, is_nil, Bool-cases, Option-cases, inl, inr, head_or,
}
use wardsweep.Text.Chars.{Text, char_len}
use wardsweep.Text.{codes, ascii_lower, byte_len, find, split, starts_with, strip_prefix, trim}
use wardsweep.Text.Laws.Slices.{
  IsCut, IsCut-ascii_lower, find-split, split_at_byte-append, strip_prefix-split, starts_with-split,
  byte_len-append, byte_len-ascii_lower,
}
use wardsweep.Scan.Image.{
  least, plus, executable_end, extensions, slice_to, slice_from, first_part, second_part, cut_at,
  unquoted, without_arguments, under, kernel_spelling, percent_spelling, system_root_spelling,
  expand_image, known, image_of, image_file,
}

-- A result that is there.
abbrev pub Returns {ℓ} : {A : Type ℓ} → Option A → Type ℓ
Returns {A} result = (value : A) × (result ≡ some value)

append_assoc' : (a b c : Text) → a ++ (b ++ c) ≡ (a ++ b) ++ c
append_assoc' [] b c = refl
append_assoc' (x ∷ a) b c = ap (λ t. x ∷ t) (append_assoc' a b c)

plus-IsCut :
    (pattern_ text : Text) (n : ℕ)
    → plus (byte_len pattern_) (find pattern_ text) ≡ some n
    → IsCut n text
plus-IsCut pattern_ text n h = elim (Option-cases (find pattern_ text)) [
  | inl missing ↦ absurd (ground arith)
  | inr (at, found) ↦
      let (before, after, e, k) = find-split pattern_ text at found in
      (
        before ++ pattern_,
        after,
        e ∙ append_assoc' before pattern_ after,
        ground (arith, byte_len-append before pattern_),
      )
]

least-cases : (a b : Option ℕ) (n : ℕ) → least a b ≡ some n → (a ≡ some n) ⊎ (b ≡ some n)
least-cases none b n h = inr h
least-cases (some a) none n h = inl h
least-cases (some a) (some b) n h = ground arith

executable_end-IsCut :
    (text : Text) (known_extensions : List Text) (n : ℕ)
    → executable_end text known_extensions ≡ some n
    → IsCut n text
unfolding executable_end
executable_end-IsCut text [] n h = cc
executable_end-IsCut text (extension ∷ rest) n h =
    elim (least-cases (plus (byte_len extension) (find extension text)) (executable_end text rest) n
      h) [
        | inl here ↦ plus-IsCut extension text n here
        | inr later ↦ executable_end-IsCut text rest n later
      ]

slice_to-Returns : (n : ℕ) (text : Text) → IsCut n text → Returns (slice_to n text)
unfolding slice_to
slice_to-Returns n text (before, after, e, k) =
    (before, rw (e, k) (ap first_part (split_at_byte-append before after)))

slice_from-Returns : (n : ℕ) (text : Text) → IsCut n text → Returns (slice_from n text)
unfolding slice_from
slice_from-Returns n text (before, after, e, k) =
    (after, rw (e, k) (ap second_part (split_at_byte-append before after)))

cut_at-Returns :
    (text : Text) (end : Option ℕ)
    → ((n : ℕ) → end ≡ some n → IsCut n text)
    → Returns (cut_at text end)
unfolding cut_at
cut_at-Returns text none cut = (text, refl)
cut_at-Returns text (some n) cut = slice_to-Returns n text (cut n refl)

unquoted-Returns : (text : Text) (quoted : Option Text) → Returns (unquoted text quoted)
unfolding unquoted
unquoted-Returns text (some quoted) = (head_or [] (split b'"' quoted), refl)
unquoted-Returns text none =
    cut_at-Returns text (executable_end (ascii_lower text) extensions)
      (λ n e. IsCut-ascii_lower n text (executable_end-IsCut (ascii_lower text) extensions n e))

under-Returns : (root : Text) (rest : Option Text) → Returns rest → Returns (under root rest)
under-Returns root rest (value, e) = (root ++ (b'\\' ∷ value), rw e)

-- What is left behind a prefix of the lowered text starts between two characters of the text.
behind-IsCut :
    (text prefix rest : Text)
    → strip_prefix (ascii_lower text) prefix ≡ some rest
    → IsCut (byte_len text - byte_len rest) text
behind-IsCut text prefix rest h =
    let e = strip_prefix-split (ascii_lower text) prefix rest h in
    IsCut-ascii_lower _ text (
      prefix,
      rest,
      e,
      omega (arith, byte_len-ascii_lower text, ap byte_len e, byte_len-append prefix rest),
    )

behind-Returns :
    (text prefix rest root : Text)
    → strip_prefix (ascii_lower text) prefix ≡ some rest
    → Returns (under root (slice_from (byte_len text - byte_len rest) text))
behind-Returns text prefix rest root h =
    under-Returns root _ (slice_from-Returns _ text (behind-IsCut text prefix rest h))

device-Returns :
    (text : Text)
    → starts_with (ascii_lower text) (codes "\\??\\") ≡ true
    → Returns (slice_from 4 text)
unfolding byte_len char_len
device-Returns text h =
    let (rest, e) = starts_with-split (ascii_lower text) (codes "\\??\\") h in
    slice_from-Returns 4 text (IsCut-ascii_lower 4 text (codes "\\??\\", rest, e, refl))

kernel_spelling-Returns : (text root : Text) → Returns (kernel_spelling text root)
unfolding kernel_spelling
kernel_spelling-Returns text root =
    elim (Bool-cases (starts_with (ascii_lower text) (codes "\\??\\"))) [
      | inl device ↦ rw device (device-Returns text device)
      | inr other ↦ rw other (either (starts_with (ascii_lower text) (codes "system32\\")))
    ]
  where
    either : (b : Bool) → Returns (if b then some (root ++ (b'\\' ∷ text)) else some text)
    either true = (root ++ (b'\\' ∷ text), refl)
    either false = (text, refl)

percent_spelling-Returns :
    (text root : Text) (behind : Option Text)
    → strip_prefix (ascii_lower text) (codes "%systemroot%\\") ≡ behind
    → Returns (percent_spelling text root behind)
unfolding percent_spelling
percent_spelling-Returns text root (some rest) e = behind-Returns text _ rest root e
percent_spelling-Returns text root none e = kernel_spelling-Returns text root

system_root_spelling-Returns :
    (text root : Text) (behind : Option Text)
    → strip_prefix (ascii_lower text) (codes "\\systemroot\\") ≡ behind
    → Returns (system_root_spelling text root behind)
unfolding system_root_spelling
system_root_spelling-Returns text root (some rest) e = behind-Returns text _ rest root e
system_root_spelling-Returns text root none e = percent_spelling-Returns text root _ refl

known-Returns : (image : Option Text) → Returns image → Returns (known image)
known-Returns image (text, e) = (some text, rw e)

image_of-Returns : (root : Text) (text : Option Text) → Returns text → Returns (image_of root text)
unfolding image_of expand_image
image_of-Returns root text (bare, e) = rw e (by_content (is_nil (trim bare)))
  where
    by_content :
        (b : Bool) → Returns (if b then some none else known (expand_image (trim bare) root))
    by_content true = (none, refl)
    by_content false =
        known-Returns (expand_image (trim bare) root)
          (system_root_spelling-Returns (trim bare) root _ refl)

-- Reading a service's configured image never panics: every slice of `image_file` lies between two
-- characters, whatever text the registry holds.
pub image_file-Returns :
    (configured root : Text) → (image : Option Text) × (image_file configured root ≡ some image)
unfolding image_file without_arguments
image_file-Returns configured root =
    image_of-Returns root (without_arguments (trim configured))
      (unquoted-Returns (trim configured) _)
