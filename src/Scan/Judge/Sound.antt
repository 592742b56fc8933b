-- ===== src/Scan/Judge/Sound.antt =====
-- core/src/scan/engine.rs: what a classification rests on.
use mathlib.Core.List.{Memᴰ}
use wardsweep.Base.{
  sym, ap, ◌∙◌, ◌≡◌, refl, ◌↔◌, inl, inr, Bool, true, false, Option, none, some, List, [], ◌∷◌, any,
  map, arith, subst, Bool-cases,
}
use wardsweep.Text.Chars.{Text}
use wardsweep.Text.{codes, ascii_upper, eq_ignore_case}
use wardsweep.Text.Laws.Case.{eq_ignore_case_iff}
use wardsweep.Catalog.Schema.{AntiCheat}
use wardsweep.Scan.Model.{Classification, confirmed, Finding, Evidence}
use wardsweep.Scan.View.{Signature, verified, unsigned, invalid, unknown}
use wardsweep.Scan.Judge.{
  attestation_signer, is_ours, judge, Pending, is_confirmed, is_suspicious, classify, settle_one,
  settle,
}

-- One of the publishers that an entry names, but for the case of its ASCII letters.
abbrev pub IsPublisher : AntiCheat → Text → Type 0
IsPublisher entry signer =
    (name : Text) × Memᴰ name entry.authenticode_cn × (ascii_upper name ≡ ascii_upper signer)

-- The signer of Microsoft's attestation of third-party drivers, but for the case of its letters.
abbrev pub IsAttestation : Text → Type 0
IsAttestation signer =
    ascii_upper signer ≡ ascii_upper (codes "Microsoft Windows Hardware Compatibility Publisher")

any-Mem :
    (names : List Text) (signer : Text)
    → any (λ name. eq_ignore_case name signer) names ≡ true
    → (name : Text) × Memᴰ name names × (ascii_upper name ≡ ascii_upper signer)
unfolding any
any-Mem [] signer h = cc
any-Mem (name ∷ names) signer h = elim (Bool-cases (eq_ignore_case name signer)) [
  | inl same ↦ (name, Memᴰ.head refl, (eq_ignore_case_iff name signer).0 same)
  | inr differ ↦
      let (other, there, same) = any-Mem names signer (ground (arith, differ)) in
      (other, Memᴰ.tail there, same)
]

Mem-any :
    (names : List Text) (signer name : Text)
    → Memᴰ name names
    → ascii_upper name ≡ ascii_upper signer
    → any (λ other. eq_ignore_case other signer) names ≡ true
unfolding any
Mem-any [] signer name m same = elim m [ ]
Mem-any (first ∷ names) signer name (Memᴰ.head e) same =
    ground (arith, (eq_ignore_case_iff first signer).1 (ap ascii_upper (sym e) ∙ same))
Mem-any (first ∷ names) signer name (Memᴰ.tail m) same =
    ground (arith, Mem-any names signer name m same)

is_ours_iff :
    (entry : AntiCheat) (signer : Text) → (is_ours entry signer ≡ true) ↔ IsPublisher entry signer
unfolding is_ours
is_ours_iff entry signer = (
  λ h. any-Mem entry.authenticode_cn signer h,
  λ (name, there, same). Mem-any entry.authenticode_cn signer name there same,
)

IsAttestation-iff :
    (signer : Text) → (eq_ignore_case signer attestation_signer ≡ false) ↔ ¬ (IsAttestation signer)
IsAttestation-iff signer = (
  λ h same. ground (arith, h, (eq_ignore_case_iff signer attestation_signer).1 same),
  λ h. elim (Bool-cases (eq_ignore_case signer attestation_signer)) [
    | inl same ↦ absurd (h ((eq_ignore_case_iff signer attestation_signer).0 same))
    | inr differ ↦ differ
  ],
)

judge_verified :
    (signer : Text) (entry : AntiCheat)
    → (judge (verified signer) entry).0 ≡ confirmed
    → ¬ (IsAttestation signer) × IsPublisher entry signer
unfolding judge
judge_verified signer entry h =
    ((IsAttestation-iff signer).0 (ground arith), (is_ours_iff entry signer).0 (ground arith))

judge_publisher :
    (signer : Text) (entry : AntiCheat)
    → ¬ (IsAttestation signer)
    → IsPublisher entry signer
    → (judge (verified signer) entry).0 ≡ confirmed
unfolding judge
judge_publisher signer entry other ours =
    ground (arith, (IsAttestation-iff signer).1 other, (is_ours_iff entry signer).1 ours)

-- A file is confirmed exactly when its signature verifies, its signer is one of the publishers that the entry
-- names, up to ASCII case, and the signer is not `Microsoft Windows Hardware Compatibility Publisher`, up to
-- case, which attests third-party drivers.
pub judge-confirmed_iff :
    (signature : Signature) (entry : AntiCheat)
    → ((judge signature entry).0 ≡ confirmed) ↔ (
        (signer : Text) × (signature ≡ verified signer)
        × ¬ (IsAttestation signer)
        × IsPublisher entry signer)
judge-confirmed_iff signature entry = (
  λ h. verified_signer signature h,
  λ (signer, same, other, ours). rw same (judge_publisher signer entry other ours),
)
  where
    verified_signer :
        (given : Signature)
        → (judge given entry).0 ≡ confirmed
        → (signer : Text) × (given ≡ verified signer)
          × ¬ (IsAttestation signer)
          × IsPublisher entry signer
    verified_signer (verified signer) h =
        let (other, ours) = judge_verified signer entry h in (signer, refl, other, ours)
    verified_signer unsigned h = unfold judge in cc
    verified_signer invalid h = unfold judge in cc
    verified_signer (unknown reason) h = unfold judge in cc

classify-kept :
    (c s : Bool) (judged : Option Classification) (evidence : List Evidence)
    → is_confirmed judged ≡ true
    → is_confirmed (some (classify c s judged evidence).0) ≡ true
unfolding classify is_confirmed
classify-kept c s (some verdict) evidence h = h
classify-kept c s none evidence h = cc

classify-needed :
    (s : Bool) (judged : Option Classification) (evidence : List Evidence)
    → is_confirmed (some (classify false s judged evidence).0) ≡ true
    → is_confirmed judged ≡ true
unfolding classify is_confirmed
classify-needed s (some verdict) evidence h = h
classify-needed s none evidence h = cc

-- Whether a finding is confirmed, and whether a pending one is by its own signature.
abbrev has_confirmed : List Finding → Bool
has_confirmed findings = any (λ finding. is_confirmed (some finding.classification)) findings

abbrev has_judged : List Pending → Bool
has_judged found = any (λ pending. is_confirmed pending.judged) found

has_judged-kept :
    (entry : AntiCheat) (c s : Bool) (found : List Pending)
    → has_judged found ≡ true
    → has_confirmed (map (settle_one entry c s) found) ≡ true
unfolding any settle_one
has_judged-kept entry c s [] h = cc
has_judged-kept entry c s (pending ∷ found) h =
    ground
      (arith, classify-kept c s pending.judged pending.evidence, has_judged-kept entry c s found)

has_judged-needed :
    (entry : AntiCheat) (s : Bool) (found : List Pending)
    → has_confirmed (map (settle_one entry false s) found) ≡ true
    → has_judged found ≡ true
unfolding any settle_one
has_judged-needed entry s [] h = cc
has_judged-needed entry s (pending ∷ found) h =
    ground
      (arith, classify-needed s pending.judged pending.evidence, has_judged-needed entry s found)

-- The findings of an entry hold a confirmed one exactly when the signature of a file among them
-- confirmed its publisher.
pub settle-confirmed_iff :
    (entry : AntiCheat) (found : List Pending)
    → (any (λ finding. is_confirmed (some finding.classification)) (settle entry found) ≡ true)
      ↔ (any (λ pending. is_confirmed pending.judged) found ≡ true)
unfolding settle
settle-confirmed_iff entry found = (
  λ h. elim (Bool-cases (has_judged found)) [
    | inl judged ↦ judged
    | inr none_judged ↦ has_judged-needed entry _ found (
        subst
          (λ c.
            has_confirmed
              (map (settle_one entry c (any (λ pending. is_suspicious pending.judged) found)) found)
            ≡ true)
          none_judged h)
  ],
  has_judged-kept entry _ _ found,
)

classify-distrusted :
    (c : Bool) (judged : Option Classification) (evidence : List Evidence)
    → is_confirmed (some (classify c true judged evidence).0) ≡ is_confirmed judged
unfolding classify is_confirmed
classify-distrusted c (some verdict) evidence = refl
classify-distrusted c none evidence = ground arith

settle_one-distrusted :
    (entry : AntiCheat) (c : Bool) (found : List Pending)
    → map
        (λ finding. is_confirmed (some finding.classification))
        (map (settle_one entry c true) found)
      ≡ map (λ pending. is_confirmed pending.judged) found
unfolding settle_one
settle_one-distrusted entry c [] = refl
settle_one-distrusted entry c (pending ∷ found) =
    rw (classify-distrusted c pending.judged pending.evidence, settle_one-distrusted entry c found)

-- Once one file of an entry is suspicious, the findings of the entry that are confirmed are those
-- whose own signature confirmed them: nothing else is confirmed along with them.
pub settle-distrusted :
    (entry : AntiCheat) (found : List Pending)
    → any (λ pending. is_suspicious pending.judged) found ≡ true
    → map (λ finding. is_confirmed (some finding.classification)) (settle entry found)
      ≡ map (λ pending. is_confirmed pending.judged) found
unfolding settle
settle-distrusted entry found h =
    rw (h) (settle_one-distrusted entry (any (λ pending. is_confirmed pending.judged) found) found)
