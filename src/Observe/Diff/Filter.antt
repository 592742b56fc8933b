-- ===== src/Observe/Diff/Filter.antt =====
-- tools/observe/src/diff.rs: `NoiseFilter`, and the loop that moves what it suppresses aside.
pub mod Sift
use wardsweep.Base.{
  ℕ, Bool, true, false, not, ◌&&◌, Option, none, some, List, [], ◌∷◌, map, any, all, length, is_nil,
  leb, if◌then◌else◌,
}
use wardsweep.Text.Chars.{Text}
use wardsweep.Text.{codes, eq_ignore_case, text_eq, byte_len}
use wardsweep.Text.Search.{rsplit_once_at, is_hex_digit}
use wardsweep.Observe.Diff.Types.{
  ChangeKind, modified, FieldChange, ServiceChange, FileChange, Suppressed,
}

pub record NoiseFilter : Type 0 where
  pub ignored : List Text
  pub normalise_per_user_instances : Bool

unfoldable pub standard : NoiseFilter
standard = record {
  ignored = map codes (
      "wuauserv" ∷ "UsoSvc" ∷ "WaaSMedicSvc" ∷ "TrustedInstaller" ∷ "DoSvc" ∷ "WinDefend"
      ∷ "WdNisSvc" ∷ "Sense" ∷ "MsSecFlt" ∷ "webthreatdefsvc" ∷ "edgeupdate" ∷ "edgeupdatem"
      ∷ "gupdate" ∷ "gupdatem" ∷ "MozillaMaintenance" ∷ []);
  normalise_per_user_instances = true;
}

unfoldable pub permissive : NoiseFilter
permissive = record { ignored = []; normalise_per_user_instances = false }

-- The `match` on `rsplit_once('_')`.
unfoldable pub stem_or : Text → Option (Text × Text) → Text
stem_or name none = name
stem_or name (some (stem, suffix)) =
    if leb 4 (byte_len suffix) && not (is_nil stem) && all is_hex_digit suffix then stem else name

unfoldable pub canonical_name : NoiseFilter → Text → Text
canonical_name filter name =
    if filter.normalise_per_user_instances
    then stem_or name (rsplit_once_at (codes "_") name)
    else name

abbrev pub is_modified : ChangeKind → Bool
is_modified modified = true
is_modified _ = false

abbrev pub is_timestamp_only : List FieldChange → Bool
is_timestamp_only (field ∷ []) = text_eq field.field (codes "modified_utc")
is_timestamp_only _ = false

unfoldable pub file_rule_for : NoiseFilter → FileChange → Option Text
file_rule_for filter change =
    if not filter.normalise_per_user_instances
    then none
    else if is_modified change.kind && is_timestamp_only change.fields
    then some (codes "timestamp-only")
    else none

unfoldable pub rule_for : NoiseFilter → ServiceChange → Option Text
rule_for filter change =
    if any (λ ignored. eq_ignore_case ignored change.name) filter.ignored
    then some (codes "volatile-service")
    else none

-- The loop over the changes: those that no rule matches, and those that one does, with the rule.
abbrev pub keep : {C : Type 0} → Option Text → C → List C → List C
keep none change rest = change ∷ rest
keep (some rule) change rest = rest

unfoldable pub kept : {C : Type 0} → (C → Option Text) → List C → List C
kept rule [] = []
kept rule (change ∷ changes) = keep (rule change) change (kept rule changes)

abbrev pub move : {C : Type 0} → Option Text → C → List (Suppressed C) → List (Suppressed C)
move none change rest = rest
move (some name) change rest = record { rule = name; change = change } ∷ rest

unfoldable pub moved_aside : {C : Type 0} → (C → Option Text) → List C → List (Suppressed C)
moved_aside rule [] = []
moved_aside rule (change ∷ changes) = move (rule change) change (moved_aside rule changes)
