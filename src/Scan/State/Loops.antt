-- ===== src/Scan/State/Loops.antt =====
-- core/src/scan/engine.rs: invariants of the audit's loops.
use wardsweep.Base.{◌≡◌, ok, List, [], ◌∷◌, All, Outcome, >>=-eq-ok, subst, sym}
use wardsweep.Denylist.Check.{DenyReason}
use wardsweep.Scan.State.{fold}

pub ok-injective {ℓ} : {E A : Type ℓ} {a b : A} → ◌≡◌ {A = Outcome E A} (ok a) (ok b) → a ≡ b
ok-injective h = cc

module _ {ℓ κ} {S : Type 0} {A : Type ℓ} (step : S → A → Outcome DenyReason S) where
  -- What each pass keeps, the loop keeps.
  pub fold_invariant :
      (P : S → Type κ)
      → ((state : S) (x : A) (next : S) → step state x ≡ ok next → P state → P next)
      → (state : S) (xs : List A) (last : S) → fold step state xs ≡ ok last
      → P state
      → P last
  unfolding fold
  fold_invariant P keeps state [] last h p = subst P (ok-injective h) p
  fold_invariant P keeps state (x ∷ xs) last h p =
      let (next, first, rest) = >>=-eq-ok (step state x) (λ next. fold step next xs) h in
      fold_invariant P keeps next xs last rest (keeps state x next first p)

  -- The same, where a pass may use what is known of its element.
  pub fold_invariant_on :
      (P : S → Type κ) (Q : A → Type κ)
      → ((state : S) (x : A) (next : S) → Q x → step state x ≡ ok next → P state → P next)
      → (state : S) (xs : List A) (last : S) → All Q xs
      → fold step state xs ≡ ok last
      → P state
      → P last
  unfolding fold
  fold_invariant_on P Q keeps state [] last known h p = subst P (ok-injective h) p
  fold_invariant_on P Q keeps state (x ∷ xs) last known h p =
      let (next, first, rest) = >>=-eq-ok (step state x) (λ next. fold step next xs) h in
      fold_invariant_on P Q keeps next xs last known.1 rest (keeps state x next known.0 first p)

  -- What the last state shows of each pass, read from the end of the loop to its start.
  pub fold_backwards :
      (P : S → Type κ) (Q : A → Type κ)
      → ((state : S) (x : A) (next : S) → step state x ≡ ok next → P next → P state × Q x)
      → (state : S) (xs : List A) (last : S) → fold step state xs ≡ ok last
      → P last
      → P state × All Q xs
  unfolding fold
  fold_backwards P Q back state [] last h p = (subst P (sym (ok-injective h)) p, tt)
  fold_backwards P Q back state (x ∷ xs) last h p =
      let (next, first, rest) = >>=-eq-ok (step state x) (λ next. fold step next xs) h in
      let (there, others) = fold_backwards P Q back next xs last rest p in
      let (here, shown) = back state x next first there in (here, (shown, others))
