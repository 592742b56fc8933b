-- ===== src/Denylist/Patterns.antt =====
-- core/src/safety/denylist.rs: the pattern tests decide relations that are stated without them.
use wardsweep.Base.{
  ◌≡◌, ◌↔◌, ◌⊎◌, inl, inr, refl, true, false, ◌||◌, List, [], ◌∷◌, ◌++◌, arith, leb, ◌==◌, length,
  All, Bool-cases, and-eq_true, ==_iff, any-eq_false→, any-eq_false←,
}
use wardsweep.Text.Chars.{Text}
use wardsweep.Text
use wardsweep.Text.{codes, text_eq, ascii_upper, eq_ignore_case}
use wardsweep.Text.Laws.Case.{text_eq_refl, eq_of_text_eq, eq_ignore_case_iff}
use wardsweep.Denylist.Check.{zip_pattern, starts_with_pattern, equals_pattern, is_named}

-- Equal up to ASCII case.
abbrev pub Same : Text → Text → Type 0
Same t u = ascii_upper t ≡ ascii_upper u

-- The path lies at or below the shape; `*` stands for any one component.
abbrev pub Below : List Text → List Text → Type 0
Below components [] = Unit
Below [] (want ∷ wants) = ⊥
Below (have ∷ haves) (want ∷ wants) = ((want ≡ codes "*") ⊎ Same have want) × Below haves wants

-- The path is of the shape.
abbrev pub Exactly : List Text → List Text → Type 0
Exactly components shape = (length components ≡ length shape) × Below components shape

component_iff :
    (have want : Text)
    → ((text_eq want (codes "*") || eq_ignore_case have want) ≡ true)
      ↔ ((want ≡ codes "*") ⊎ Same have want)
component_iff have want = (
  λ h. elim (Bool-cases (text_eq want (codes "*"))) [
    | inl star ↦ inl (eq_of_text_eq want (codes "*") star)
    | inr other ↦ inr ((eq_ignore_case_iff have want).0 (ground arith))
  ],
  λ h. elim h [
    | inl star ↦ rw star (ground (arith, text_eq_refl (codes "*")))
    | inr same ↦ ground (arith, (eq_ignore_case_iff have want).1 same)
  ],
)

starts_with_pattern→ :
    (components shape : List Text)
    → leb (length shape) (length components) ≡ true
    → zip_pattern components shape ≡ true
    → Below components shape
unfolding zip_pattern
starts_with_pattern→ components [] l z = tt
starts_with_pattern→ [] (want ∷ wants) l z = absurd (ground arith)
starts_with_pattern→ (have ∷ haves) (want ∷ wants) l z =
    let (first, rest) = and-eq_true _ (zip_pattern haves wants) z in
    ((component_iff have want).0 first, starts_with_pattern→ haves wants (ground arith) rest)

starts_with_pattern← :
    (components shape : List Text)
    → Below components shape
    → (leb (length shape) (length components) ≡ true) × (zip_pattern components shape ≡ true)
unfolding zip_pattern
starts_with_pattern← components [] b = (ground arith, refl)
starts_with_pattern← [] (want ∷ wants) b = absurd b
starts_with_pattern← (have ∷ haves) (want ∷ wants) b =
    let (l, z) = starts_with_pattern← haves wants b.1 in
    (ground arith, ground (arith, (component_iff have want).1 b.0))

pub starts_with_pattern_iff :
    (components shape : List Text)
    → (starts_with_pattern components shape ≡ true) ↔ Below components shape
unfolding starts_with_pattern
starts_with_pattern_iff components shape = (
  λ h. starts_with_pattern→ components shape (ground arith) (ground arith),
  λ b. ground (arith, starts_with_pattern← components shape b),
)

pub equals_pattern_iff :
    (components shape : List Text)
    → (equals_pattern components shape ≡ true) ↔ Exactly components shape
unfolding equals_pattern
equals_pattern_iff components shape = (
  λ h. (ground arith, (starts_with_pattern_iff components shape).0 (ground arith)),
  λ b. ground (arith, (starts_with_pattern_iff components shape).1 b.1),
)

-- No name of the list is the text, up to ASCII case.
abbrev pub NoneOf : List Text → Text → Type 0
NoneOf names text = All (λ name. ¬ (Same name text)) names

pub is_named→ : (names : List Text) (text : Text) → is_named names text ≡ false → NoneOf names text
unfolding is_named
is_named→ names text =
    any-eq_false→ (λ n. eq_ignore_case n text) (λ n. Same n text) (λ n. eq_ignore_case_iff n text)
      names

pub is_named← : (names : List Text) (text : Text) → NoneOf names text → is_named names text ≡ false
unfolding is_named
is_named← names text =
    any-eq_false← (λ n. eq_ignore_case n text) (λ n. Same n text) (λ n. eq_ignore_case_iff n text)
      names

-- The text begins with the prefix.
abbrev pub Begins : Text → Text → Type 0
Begins t prefix = (rest : Text) × (t ≡ prefix ++ rest)

pub starts_with_iff : (t prefix : Text) → (Text.starts_with t prefix ≡ true) ↔ Begins t prefix
unfolding Text.starts_with
starts_with_iff t [] = (λ h. (t, refl), λ b. refl)
starts_with_iff [] (q ∷ prefix) = (λ h. cc, λ b. absurd (cc (b.1)))
starts_with_iff (c ∷ t) (q ∷ prefix) = (
  λ h.
      let (same, tail) = and-eq_true (c == q) (Text.starts_with t prefix) h in
      let (rest, e) = (starts_with_iff t prefix).0 tail in (rest, cc ((==_iff c q).0 same, e)),
  λ b. let (rest, e) = b in ground (arith, e, (starts_with_iff t prefix).1 (rest, cc e)),
)
