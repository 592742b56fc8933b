-- ===== src/Observe/Diff/Summary.antt =====
-- tools/observe/src/diff.rs: what a summary of a diff shows.
use wardsweep.Base.{ℕ, suc, Bool, ◌&&◌, List, [], ◌∷◌, ◌==◌}
use wardsweep.Text.Chars.{Text}
use wardsweep.Observe.Index.{Index, insert, get}
use wardsweep.Observe.Diff.Types.{Suppressed, Refiltered, Diff, text_order}
use wardsweep.Observe.Diff.Services.{or_zero}

-- One of the two loops of `suppression_counts`.
unfoldable pub count_rules : {C : Type 0} → Index Text ℕ → List (Suppressed C) → Index Text ℕ
count_rules counted [] = counted
count_rules counted (entry ∷ entries) =
    count_rules (insert entry.rule (suc (or_zero (get entry.rule counted))) counted) entries

-- `Diff::suppression_counts`
unfoldable pub suppression_counts : Diff → Index Text ℕ
suppression_counts diff = count_rules (count_rules [] diff.suppressed) diff.suppressed_files

-- `Refiltered::is_empty`
unfoldable pub is_empty : Refiltered → Bool
is_empty counted =
    counted.registry_records == 0
    && counted.registry_values == 0
    && counted.access_denied == 0
    && counted.emptied_keys == 0
    && counted.files == 0
    && counted.emptied_directories == 0
