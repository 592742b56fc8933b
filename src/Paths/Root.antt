-- ===== src/Paths/Root.antt =====
-- core/src/safety/paths.rs: `split_root` takes a prefix off and invents no character of the rest.
use wardsweep.Base.{
  ℕ, ◌≡◌, refl, ap, subst, ◌∙◌, Bool, true, Option, none, some, [], ◌∷◌, arith, all, Bool-cases,
  Option-cases, inl, inr, ok, >>=-eq-ok,
}
use wardsweep.Text.Chars.{Text, to_upper, between, is_alphabetic}
use wardsweep.Text.{codes, byte_len, split_once, strip_prefix, split_at_byte}
use wardsweep.Text.Laws.{Chars, split_once-Chars, split_at_byte-Chars, strip_prefix-Chars}
use wardsweep.Paths.Canonical.{
  PathKind, drive_rooted, device, sep, strip_prefix_ci, starts_with_globalroot, drive_root,
  unc_root, plain_root, extended_root, device_root, long_root, split_root, or_empty,
}

module _ (p : ℕ → Bool) where
  strip_prefix_ci-Chars :
      (t prefix rest : Text) → Chars p t → strip_prefix_ci t prefix ≡ ok (some rest) → Chars p rest
  unfolding strip_prefix_ci
  strip_prefix_ci-Chars t prefix rest h e =
      elim (Option-cases (split_at_byte (byte_len prefix) t)) [
        | inl out ↦ ground arith
        | inr (halves, found) ↦
            ground (arith, split_at_byte-Chars p (byte_len prefix) t halves h found)
      ]

  drive_root-Chars :
      (candidate original : Text) (root : PathKind × Text × Text)
      → Chars p candidate
      → drive_root candidate original ≡ ok root
      → Chars p root.2
  unfolding drive_root all
  drive_root-Chars [] original root h e = cc
  drive_root-Chars (a ∷ []) original root h e = cc
  drive_root-Chars (a ∷ b ∷ []) original root h e = ground arith
  drive_root-Chars (a ∷ b ∷ c ∷ rest) original root h e = ground arith

  or_empty-Chars : (o : Option Text) → ((t : Text) → o ≡ some t → Chars p t) → Chars p (or_empty o)
  unfolding all
  or_empty-Chars none h = refl
  or_empty-Chars (some t) h = h t refl

  unc_root-Chars :
      (rest original : Text) (root : PathKind × Text × Text)
      → Chars p rest
      → unc_root rest original ≡ ok root
      → Chars p root.2
  unfolding unc_root
  unc_root-Chars rest original root h e =
      let after_host = or_empty-Chars (split_once sep rest).1 (split_once-Chars p sep rest h).1 in
      let shared = or_empty (split_once sep rest).1 in
      let tail =
        or_empty-Chars (split_once sep shared).1 (split_once-Chars p sep shared after_host).1 in
      ground (arith, tail)

  plain_root-Chars :
      (path : Text) (root : PathKind × Text × Text)
      → Chars p path
      → plain_root path ≡ ok root
      → Chars p root.2
  unfolding plain_root
  plain_root-Chars path root h e = elim (Option-cases (strip_prefix path (codes "\\??\\"))) [
    | inr (rest, found) ↦ ground (arith, strip_prefix-Chars p path (codes "\\??\\") rest h found)
    | inl out ↦ elim (Option-cases (strip_prefix path (codes "\\\\"))) [
      | inr (rest, found) ↦
          unc_root-Chars rest path root (strip_prefix-Chars p path (codes "\\\\") rest h found)
            (ground arith)
      | inl none_left ↦ drive_root-Chars path path root h (ground arith)
    ]
  ]

  extended_root-Chars :
      (rest path : Text) (root : PathKind × Text × Text)
      → Chars p rest
      → extended_root rest path ≡ ok root
      → Chars p root.2
  unfolding extended_root
  extended_root-Chars rest path root h e =
      let (global, tested, e') = >>=-eq-ok (starts_with_globalroot rest) _ e in
      elim (Bool-cases global) [
        | inl yes_global ↦ ground arith
        | inr no_global ↦ drive_root-Chars rest path root h (ground arith)
      ]

  device_root-Chars :
      (path : Text) (root : PathKind × Text × Text)
      → Chars p path
      → device_root path ≡ ok root
      → Chars p root.2
  unfolding device_root
  device_root-Chars path root h e =
      let (dotted, tested, e') = >>=-eq-ok (strip_prefix_ci path (codes "\\\\.\\")) _ e in
      elim (Option-cases dotted) [
        | inl out ↦ plain_root-Chars path root h (ground arith)
        | inr (rest, found) ↦
            ground
              (arith, strip_prefix_ci-Chars path (codes "\\\\.\\") rest h (tested ∙ ap ok found))
      ]

  long_root-Chars :
      (path : Text) (root : PathKind × Text × Text)
      → Chars p path
      → long_root path ≡ ok root
      → Chars p root.2
  unfolding long_root
  long_root-Chars path root h e =
      let (long, tested, e') = >>=-eq-ok (strip_prefix_ci path (codes "\\\\?\\")) _ e in
      elim (Option-cases long) [
        | inl out ↦ device_root-Chars path root h (ground arith)
        | inr (rest, found) ↦
            extended_root-Chars rest path root
              (strip_prefix_ci-Chars path (codes "\\\\?\\") rest h (tested ∙ ap ok found))
              (ground arith)
      ]

  -- The rest that `split_root` returns has no character that the path has not.
  pub split_root-Chars :
      (path : Text) (root : PathKind × Text × Text)
      → Chars p path
      → split_root path ≡ ok root
      → Chars p root.2
  unfolding split_root
  split_root-Chars path root h e =
      let (long, tested, e') = >>=-eq-ok (strip_prefix_ci path (codes "\\\\?\\UNC\\")) _ e in
      elim (Option-cases long) [
        | inl out ↦ long_root-Chars path root h (ground arith)
        | inr (rest, found) ↦
            unc_root-Chars rest path root
              (strip_prefix_ci-Chars path (codes "\\\\?\\UNC\\") rest h (tested ∙ ap ok found))
              (ground arith)
      ]

-- A property of roots that holds of each form holds of what `split_root` returns.
module _ (P : PathKind × Text × Text → Type 0)
    (of_device : (root rest : Text) → P (device, root, rest))
    (of_unc : (rest original : Text) (root : PathKind × Text × Text)
      → unc_root rest original ≡ ok root
      → P root)
    (of_drive : (candidate original : Text) (root : PathKind × Text × Text)
      → drive_root candidate original ≡ ok root
      → P root) where
  device_case :
      (prefix rest : Text) (root : PathKind × Text × Text) → (device, prefix, rest) ≡ root → P root
  device_case prefix rest root same = subst P same (of_device prefix rest)

  plain_root_cases :
      (path : Text) (root : PathKind × Text × Text) → plain_root path ≡ ok root → P root
  unfolding plain_root
  plain_root_cases path root e = elim (Option-cases (strip_prefix path (codes "\\??\\"))) [
    | inr (rest, found) ↦ device_case (codes "\\??\\") rest root (ground arith)
    | inl out ↦ elim (Option-cases (strip_prefix path (codes "\\\\"))) [
      | inr (rest, found) ↦ of_unc rest path root (ground arith)
      | inl neither ↦ of_drive path path root (ground arith)
    ]
  ]

  extended_root_cases :
      (rest path : Text) (root : PathKind × Text × Text)
      → extended_root rest path ≡ ok root
      → P root
  unfolding extended_root
  extended_root_cases rest path root e =
      let (global, tested, e') = >>=-eq-ok (starts_with_globalroot rest) _ e in
      elim (Bool-cases global) [
        | inl is_global ↦ device_case (codes "\\\\?\\") rest root (ground arith)
        | inr not_global ↦ of_drive rest path root (ground arith)
      ]

  device_root_cases :
      (path : Text) (root : PathKind × Text × Text) → device_root path ≡ ok root → P root
  unfolding device_root
  device_root_cases path root e =
      let (dotted, tested, e') = >>=-eq-ok (strip_prefix_ci path (codes "\\\\.\\")) _ e in
      elim (Option-cases dotted) [
        | inl out ↦ plain_root_cases path root (ground arith)
        | inr (rest, found) ↦ device_case (codes "\\\\.\\") rest root (ground arith)
      ]

  long_root_cases :
      (path : Text) (root : PathKind × Text × Text) → long_root path ≡ ok root → P root
  unfolding long_root
  long_root_cases path root e =
      let (long, tested, e') = >>=-eq-ok (strip_prefix_ci path (codes "\\\\?\\")) _ e in
      elim (Option-cases long) [
        | inl out ↦ device_root_cases path root (ground arith)
        | inr (rest, found) ↦ extended_root_cases rest path root (ground arith)
      ]

  pub split_root_cases :
      (path : Text) (root : PathKind × Text × Text) → split_root path ≡ ok root → P root
  unfolding split_root
  split_root_cases path root e =
      let (long, tested, e') = >>=-eq-ok (strip_prefix_ci path (codes "\\\\?\\UNC\\")) _ e in
      elim (Option-cases long) [
        | inl out ↦ long_root_cases path root (ground arith)
        | inr (rest, found) ↦ of_unc rest path root (ground arith)
      ]

-- A drive's root is its upper-case letter and a colon.
pub record IsDriveRoot (root : Text) : Type 0 where
  pub letter : ℕ
  pub is_letter : between b'A' b'Z' letter ≡ true
  pub spelling : root ≡ letter ∷ b':' ∷ []

to_upper-between : (c : ℕ) → is_alphabetic c ≡ true → between b'A' b'Z' (to_upper c) ≡ true
unfolding is_alphabetic to_upper
to_upper-between c h = ground arith

drive_root-IsDriveRoot :
    (candidate original : Text) (root : PathKind × Text × Text)
    → drive_root candidate original ≡ ok root
    → IsDriveRoot root.1
unfolding drive_root
drive_root-IsDriveRoot [] original root e = cc
drive_root-IsDriveRoot (a ∷ []) original root e = cc
drive_root-IsDriveRoot (a ∷ b ∷ []) original root e = record {
  letter = to_upper a;
  is_letter = to_upper-between a (ground arith);
  spelling = ground arith;
}
drive_root-IsDriveRoot (a ∷ b ∷ c ∷ rest) original root e = record {
  letter = to_upper a;
  is_letter = to_upper-between a (ground arith);
  spelling = ground arith;
}

pub split_root-IsDriveRoot :
    (path : Text) (root : PathKind × Text × Text)
    → split_root path ≡ ok root
    → root.0 ≡ drive_rooted
    → IsDriveRoot root.1
split_root-IsDriveRoot =
    split_root_cases (λ root. root.0 ≡ drive_rooted → IsDriveRoot root.1)
      (λ root rest e. absurd (cc))
      (λ rest original root u e. absurd (unc_root-kind rest original root u e))
      (λ candidate original root d e. drive_root-IsDriveRoot candidate original root d)
  where
    unc_root-kind :
        (rest original : Text) (root : PathKind × Text × Text)
        → unc_root rest original ≡ ok root
        → root.0 ≡ drive_rooted
        → ⊥
    unc_root-kind rest original root u e = unfold unc_root in ground arith
