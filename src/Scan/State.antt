-- ===== src/Scan/State.antt =====
-- core/src/scan/engine.rs: what `Audit` changes, and the loops that change it.
pub mod Loops
use wardsweep.Base.{List, [], ◌∷◌, ◌++◌, some, Outcome, ok, ◌>>=◌}
use wardsweep.Text.Chars.{Text}
use wardsweep.Denylist.Check.{DenyReason}
use wardsweep.Catalog.Schema.{AntiCheat}
use wardsweep.Scan.Model.{Protected, Disbelieved, Unreadable, Item, Reason}
use wardsweep.Scan.Judge.{Pending}

-- What the methods of `Audit` write before `settle`: three lists of its report, and `found`.
pub record State : Type 0 where
  pub protected : List Protected
  pub disbelieved : List Disbelieved
  pub unreadable : List Unreadable
  pub found : List Pending

unfoldable pub report_unreadable : AntiCheat → Item → Reason → State → State
report_unreadable entry item reason state = record state {
  unreadable =
      state.unreadable ++ (record { anticheat = some entry.id; item = item; reason = reason } ∷ []);
}

unfoldable pub report_protected : AntiCheat → Text → Reason → State → State
report_protected entry target reason state = record state {
  protected =
      state.protected ++ (record { anticheat = entry.id; target = target; reason = reason } ∷ []);
}

unfoldable pub report_disbelieved : AntiCheat → Text → Reason → State → State
report_disbelieved entry item reason state = record state {
  disbelieved =
      state.disbelieved ++ (record { anticheat = entry.id; item = item; reason = reason } ∷ []);
}

unfoldable pub push : Pending → State → State
push pending state = record state { found = state.found ++ (pending ∷ []) }

-- A `for` loop whose body may panic.
unfoldable pub fold {ℓ} :
    {S : Type 0} {A : Type ℓ} → (S → A → Outcome DenyReason S) → S → List A → Outcome DenyReason S
fold step state [] = ok state
fold step state (x ∷ xs) = do next ← step state x; fold step next xs
