-- ===== src/Paths/WellFormed.antt =====
-- core/src/safety/paths.rs: what every canonical path satisfies.
use wardsweep.Base.{
  ℕ, ◌≡◌, refl, ap, subst, ◌∙◌, Bool, true, false, not, ◌&&◌, some, List, [], ◌∷◌, ◌++◌, ◌⊎◌, arith,
  ◌==◌, is_nil, init, All, All-append, All-init, inl, inr, ok, >>=-eq-ok,
}
use wardsweep.Text.Chars.{Text, to_upper, between}
use wardsweep.Text.{ascii_upper, contains, replace, trim, trim_end, split}
use wardsweep.Text.Laws.{Chars, trim-Chars, trim_end-Chars, split_by-Chars, replace-Chars}
use wardsweep.Text.Laws.Case.{
  ascii_upper_idem, all-ascii_upper, any-ascii_upper, trim_end-ascii_upper, trim_end_idem,
}
use wardsweep.Paths.Root.{split_root-Chars, IsDriveRoot, split_root-IsDriveRoot}
use wardsweep.Paths.Canonical.{
  PathKind, drive_rooted, unc, device, CanonicalPath, sep, dot_or_space, is_device, split_root,
  normalise_segment, normalise_loop, normalise_components, assemble, render, canonicalise_trimmed,
  canonicalise_syntactic,
}

-- Not a separator of either kind, and not NUL.
abbrev pub is_plain : ℕ → Bool
is_plain c = (not (c == b'/') && not (c == 0)) && not (c == sep)

-- A component as the deny-list reads it.
pub record IsComponent (kind : PathKind) (component : Text) : Type 0 where
  pub nonempty : is_nil component ≡ false
  pub plain : Chars is_plain component
  pub upper : ascii_upper component ≡ component
  pub clean_end : trim_end dot_or_space component ≡ component
  pub no_stream : is_device kind ≡ false → contains b':' component ≡ false

-- The text and the drive of a drive-rooted path are those of its letter and its components.
pub record IsDrivePath (path : CanonicalPath) : Type 0 where
  pub letter : ℕ
  pub is_letter : between b'A' b'Z' letter ≡ true
  pub drive : path.drive ≡ some letter
  pub text : path.text ≡ render drive_rooted (letter ∷ b':' ∷ []) path.components

pub record IsCanonical (path : CanonicalPath) : Type 0 where
  pub components : All (IsComponent path.kind) path.components
  pub drive_path : path.kind ≡ drive_rooted → IsDrivePath path

is_nil-ascii_upper : (t : Text) → is_nil (ascii_upper t) ≡ is_nil t
unfolding ascii_upper
is_nil-ascii_upper [] = refl
is_nil-ascii_upper (c ∷ t) = refl

dot_or_space-to_upper : (c : ℕ) → dot_or_space (to_upper c) ≡ dot_or_space c
unfolding to_upper
dot_or_space-to_upper c = ground arith

is_plain-to_upper : (c : ℕ) → is_plain (to_upper c) ≡ is_plain c
unfolding to_upper
is_plain-to_upper c = ground arith

colon-to_upper : (c : ℕ) → (to_upper c == b':') ≡ (c == b':')
unfolding to_upper
colon-to_upper c = ground arith

ascii_upper-IsComponent :
    (kind : PathKind) (raw : Text)
    → let segment = trim_end dot_or_space raw in
      Chars is_plain raw
      → is_nil segment ≡ false
      → (not (is_device kind) && contains b':' segment) ≡ false
      → IsComponent kind (ascii_upper segment)
unfolding contains
ascii_upper-IsComponent kind raw plain nonempty stream =
    let segment = trim_end dot_or_space raw in
    record {
      nonempty = is_nil-ascii_upper segment ∙ nonempty;
      plain =
          all-ascii_upper is_plain is_plain-to_upper segment
          ∙ trim_end-Chars is_plain dot_or_space raw plain;
      upper = ascii_upper_idem segment;
      clean_end =
          trim_end-ascii_upper dot_or_space dot_or_space-to_upper segment
          ∙ ap ascii_upper (trim_end_idem dot_or_space raw);
      no_stream = λ d. any-ascii_upper (λ x. x == b':') colon-to_upper segment ∙ ground arith;
    }

-- What one pass does to `out`: nothing, a pop, or the push of a component.
normalise_segment-cases :
    (original : Text) (kind : PathKind) (raw : Text) (out : List Text) (short_name : Bool)
    (next : List Text × Bool)
    → let segment = trim_end dot_or_space raw in
      normalise_segment original kind raw (out, short_name) ≡ ok next
      → (next.0 ≡ out)
        ⊎ (next.0 ≡ init out)
        ⊎ (next.0 ≡ out ++ (ascii_upper segment ∷ []))
          × (is_nil segment ≡ false)
          × ((not (is_device kind) && contains b':' segment) ≡ false)
unfolding normalise_segment
normalise_segment-cases original kind raw out short_name next e = ground arith

normalise_segment-All :
    (original : Text) (kind : PathKind) (raw : Text) (out : List Text) (short_name : Bool)
    (next : List Text × Bool)
    → Chars is_plain raw
    → All (IsComponent kind) out
    → normalise_segment original kind raw (out, short_name) ≡ ok next
    → All (IsComponent kind) next.0
normalise_segment-All original kind raw out short_name next plain kept e =
    let component = ascii_upper-IsComponent kind raw plain in
    elim (normalise_segment-cases original kind raw out short_name next e) [
      | inl same ↦ rw same kept
      | inr (inl popped) ↦ rw popped (All-init (IsComponent kind) out kept)
      | inr (inr (pushed, nonempty, stream)) ↦ rw pushed (
          All-append (IsComponent kind) out (ascii_upper (trim_end dot_or_space raw) ∷ []) kept
            (component nonempty stream, tt))
    ]

normalise_loop-All :
    (original : Text) (kind : PathKind) (raws : List Text) (state final : List Text × Bool)
    → All (Chars is_plain) raws
    → All (IsComponent kind) state.0
    → normalise_loop original kind raws state ≡ ok final
    → All (IsComponent kind) final.0
unfolding normalise_loop
normalise_loop-All original kind [] state final plain kept e =
    let same : state ≡ final = cc in rw (← same) kept
normalise_loop-All original kind (raw ∷ raws) state final plain kept e =
    let (next, step, rest) =
      >>=-eq-ok (normalise_segment original kind raw state) (normalise_loop original kind raws) e in
    normalise_loop-All original kind raws next final plain.1
      (normalise_segment-All original kind raw state.0 state.1 next plain.0 kept step) rest

-- Not a `/` and not NUL: what the unified text consists of.
abbrev is_unified : ℕ → Bool
is_unified c = not (c == b'/') && not (c == 0)

normalise_components-All :
    (rest original : Text) (kind : PathKind) (final : List Text × Bool)
    → Chars is_unified rest
    → normalise_components rest original kind ≡ ok final
    → All (IsComponent kind) final.0
unfolding normalise_components split
normalise_components-All rest original kind final h e =
    normalise_loop-All original kind (split sep rest) ([], false) final
      (split_by-Chars is_unified (λ c. c == sep) rest h) tt e

-- The parts of a path that the string rewriting built.
pub record IsBuilt (trimmed : Text) (path : CanonicalPath) : Type 0 where
  pub root : PathKind × Text × Text
  pub normalised : List Text × Bool
  pub rooted : split_root trimmed ≡ ok root
  pub normal : normalise_components root.2 trimmed root.0 ≡ ok normalised
  pub built : assemble root.0 root.1 normalised ≡ path

pub canonicalise_trimmed-IsBuilt :
    (trimmed : Text) (path : CanonicalPath)
    → canonicalise_trimmed trimmed ≡ ok path
    → IsBuilt trimmed path
unfolding canonicalise_trimmed
canonicalise_trimmed-IsBuilt trimmed path e =
    let (root, rooted, e₁) = >>=-eq-ok (split_root trimmed) _ e in
    let (normalised, normal, e₂) = >>=-eq-ok (normalise_components root.2 trimmed root.0) _ e₁ in
    record { root = root; normalised = normalised; rooted = rooted; normal = normal; built = cc e₂ }

assemble-IsDrivePath :
    (root : Text) (normalised : List Text × Bool)
    → IsDriveRoot root
    → IsDrivePath (assemble drive_rooted root normalised)
unfolding assemble
assemble-IsDrivePath root normalised r = record {
  letter = r.letter;
  is_letter = r.is_letter;
  drive = rw r.spelling (ap some (to_upper-letter r.letter r.is_letter));
  text = ap (λ t. render drive_rooted t normalised.0) r.spelling;
}
  where
    to_upper-letter : (c : ℕ) → between b'A' b'Z' c ≡ true → to_upper c ≡ c
    to_upper-letter c h = unfold to_upper in ground arith

assemble-IsCanonical :
    (kind : PathKind) (root : Text) (normalised : List Text × Bool)
    → All (IsComponent kind) normalised.0
    → (kind ≡ drive_rooted → IsDriveRoot root)
    → IsCanonical (assemble kind root normalised)
unfolding assemble
assemble-IsCanonical drive_rooted root normalised kept drive = record {
  components = kept;
  drive_path = λ e. assemble-IsDrivePath root normalised (drive refl);
}
assemble-IsCanonical unc root normalised kept drive = record {
  components = kept;
  drive_path = λ e. absurd (cc);
}
assemble-IsCanonical device root normalised kept drive = record {
  components = kept;
  drive_path = λ e. absurd (cc);
}

canonicalise_trimmed-IsCanonical :
    (trimmed : Text) (path : CanonicalPath)
    → Chars is_unified trimmed
    → canonicalise_trimmed trimmed ≡ ok path
    → IsCanonical path
canonicalise_trimmed-IsCanonical trimmed path h e =
    let b = canonicalise_trimmed-IsBuilt trimmed path e in
    subst IsCanonical b.built (
      assemble-IsCanonical b.root.0 b.root.1 b.normalised
        (normalise_components-All b.root.2 trimmed b.root.0 b.normalised
          (split_root-Chars is_unified trimmed b.root h b.rooted) b.normal)
        (split_root-IsDriveRoot trimmed b.root b.rooted))

-- What `canonicalise_syntactic` trims before it looks at the root.
abbrev pub trimmed_input : Text → Text
trimmed_input input = trim (replace b'/' sep input)

pub trimmed_input-is_unified :
    (input : Text) → contains 0 input ≡ false → Chars is_unified (trimmed_input input)
trimmed_input-is_unified input h =
    trim-Chars is_unified (replace b'/' sep input) (replace-Chars b'/' sep 0 input refl refl h)

pub canonicalise_syntactic-eq-ok :
    (input : Text) (path : CanonicalPath)
    → canonicalise_syntactic input ≡ ok path
    → (contains 0 input ≡ false) × (canonicalise_trimmed (trimmed_input input) ≡ ok path)
unfolding canonicalise_syntactic
canonicalise_syntactic-eq-ok input path e = ground arith

-- Every path that `canonicalise_syntactic` returns is canonical: no component is empty, holds a
-- separator, a slash or NUL, has a lower-case ASCII letter, ends in a dot or a space, or outside
-- the device namespace holds a colon; and the text and drive of a drive-rooted path are those of its
-- letter and its components.
pub canonicalise_syntactic-IsCanonical :
    (input : Text) (path : CanonicalPath)
    → canonicalise_syntactic input ≡ ok path
    → IsCanonical path
canonicalise_syntactic-IsCanonical input path e =
    let (no_nul, e') = canonicalise_syntactic-eq-ok input path e in
    canonicalise_trimmed-IsCanonical (trimmed_input input) path
      (trimmed_input-is_unified input no_nul) e'
