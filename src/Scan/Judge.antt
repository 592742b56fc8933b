-- ===== src/Scan/Judge.antt =====
-- core/src/scan/engine.rs: `judge`, `views` and `settle`, which give a finding its classification.
pub mod Sound
pub mod Views
use wardsweep.Base.{
  Bool, true, false, not, ◌&&◌, Option, none, some, List, [], ◌∷◌, ◌++◌, map, any, is_nil,
  if◌then◌else◌,
}
use wardsweep.Text.Chars.{Text}
use wardsweep.Text.{codes, eq_ignore_case, split_at_byte}
use wardsweep.Catalog.Schema
use wardsweep.Catalog.Schema.{AntiCheat, Risk}
use wardsweep.Scan.Model.{
  Classification, confirmed, probable, suspicious, RegView, bits64, bits32, Artifact, Evidence,
  attested, signed, signed_unchecked, signed_by_another, not_signed, not_verified, not_checked,
  publisher_confirmed, name_alone, Finding,
}
use wardsweep.Scan.View.{Signature, verified, unsigned, invalid, unknown}

abbrev pub attestation_signer : Text
attestation_signer = codes "Microsoft Windows Hardware Compatibility Publisher"

-- The closure `ours`.
unfoldable pub is_ours : AntiCheat → Text → Bool
is_ours entry signer = any (λ name. eq_ignore_case name signer) entry.authenticode_cn

unfoldable pub judge : Signature → AntiCheat → Classification × Evidence
judge (verified signer) entry =
    if eq_ignore_case signer attestation_signer
    then (probable, attested signer)
    else if is_ours entry signer
    then (confirmed, signed signer)
    else if is_nil entry.authenticode_cn
    then (probable, signed_unchecked signer)
    else (suspicious, signed_by_another signer)
judge unsigned entry = (suspicious, not_signed)
judge invalid entry = (suspicious, not_verified)
judge (unknown reason) entry = (probable, not_checked reason)

-- `key.get(..14)`, which is `None` inside a character.
unfoldable pub is_redirected : Text → Bool
is_redirected key = elim (split_at_byte 14 key) [
  | some (head, rest) ↦ eq_ignore_case head (codes "HKLM\\SOFTWARE\\")
  | none ↦ false
]

unfoldable pub views : Text → Schema.View → List RegView
views key Schema.bits32 = bits32 ∷ []
views key Schema.bits64 = bits64 ∷ []
views key Schema.both = if is_redirected key then bits64 ∷ bits32 ∷ [] else bits64 ∷ []

pub record Pending : Type 0 where
  pub artifact : Artifact
  pub evidence : List Evidence
  pub judged : Option Classification

unfoldable pub is_confirmed : Option Classification → Bool
is_confirmed (some confirmed) = true
is_confirmed _ = false

unfoldable pub is_suspicious : Option Classification → Bool
is_suspicious (some suspicious) = true
is_suspicious _ = false

-- The `unwrap_or_else`, with the line that it adds to the evidence.
unfoldable pub classify :
    Bool → Bool → Option Classification → List Evidence → Classification × List Evidence
classify any_confirmed any_suspicious (some classification) evidence = (classification, evidence)
classify any_confirmed any_suspicious none evidence =
    if any_confirmed && not any_suspicious
    then (confirmed, evidence ++ (publisher_confirmed ∷ []))
    else (probable, evidence ++ (name_alone ∷ []))

-- One pass of the loop of `settle`.
unfoldable pub settle_one : AntiCheat → Bool → Bool → Pending → Finding
settle_one entry any_confirmed any_suspicious pending =
    let classified = classify any_confirmed any_suspicious pending.judged pending.evidence in
    record {
      anticheat = entry.id;
      risk = entry.risk;
      artifact = pending.artifact;
      classification = classified.0;
      evidence = classified.1;
    }

-- What `settle` appends to the report's findings.
unfoldable pub settle : AntiCheat → List Pending → List Finding
settle entry found =
    let any_confirmed = any (λ pending. is_confirmed pending.judged) found in
    let any_suspicious = any (λ pending. is_suspicious pending.judged) found in
    map (settle_one entry any_confirmed any_suspicious) found
