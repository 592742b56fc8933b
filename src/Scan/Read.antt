-- ===== src/Scan/Read.antt =====
-- core/src/scan: an answer that leaves open whether the thing is there, and a report without one.
use wardsweep.Base.{◌≡◌, ◌≢◌, Bool, true, false, List, [], ◌∷◌, ◌++◌}
use wardsweep.Scan.View.{Lookup, found, absent, unreadable}
use wardsweep.Scan.State.{State}

-- Whether an answer says if the thing is there.
unfoldable pub is_read {ℓ} : {A : Type ℓ} → Lookup A → Bool
is_read (found x) = true
is_read absent = true
is_read (unreadable reason) = false

abbrev pub IsComplete : State → Type 0
IsComplete state = state.unreadable ≡ []

pub append-nonempty : {A : Type 0} (xs : List A) (x : A) → xs ++ (x ∷ []) ≢ []
append-nonempty [] x h = cc
append-nonempty (y ∷ xs) x h = cc
