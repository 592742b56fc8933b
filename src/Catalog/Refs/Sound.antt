-- ===== src/Catalog/Refs/Sound.antt =====
-- core/src/catalog/validate.rs: what a catalog that `check_refs` finds no problem with satisfies.
use mathlib.Core.List.{Memᴰ}
use wardsweep.Base.{
  ℕ, ◌≡◌, ◌≢◌, refl, sym, ap, true, Option, none, some, List, [], ◌∷◌, arith, All, any, Bool-cases,
  inl, inr,
}
use wardsweep.Text.Chars.{Text}
use wardsweep.Text.{text_eq}
use wardsweep.Text.Laws.Case.{text_eq_refl, eq_of_text_eq}
use wardsweep.Catalog.Schema.{Catalog, AntiCheat, Game, Launcher}
use wardsweep.Catalog.Problems.{Section, nothing, ⊕-eq_nil, each-sound}
use wardsweep.Catalog.Refs.{
  previous, report_reuse, check_ids, all_ids, check_anticheat_ref, check_launcher_ref,
  check_game_refs, check_refs,
}

-- No id stands twice.
abbrev pub DistinctIds : List (Text × Section) → Type 0
DistinctIds [] = Unit
DistinctIds ((id, section) ∷ ids) = All (λ e. e.0 ≢ id) ids × DistinctIds ids

previous-eq_none :
    (id : Text) (seen : List (Text × Section)) → previous id seen ≡ none → All (λ e. e.0 ≢ id) seen
unfolding previous
previous-eq_none id [] h = tt
previous-eq_none id ((other, section) ∷ seen) h = elim (Bool-cases (text_eq other id)) [
  | inl same ↦ absurd (ground arith)
  | inr differs ↦ (
    (λ e. cc (ap (λ t. text_eq other t) e, text_eq_refl other, differs)),
    previous-eq_none id seen (ground arith),
  )
]

report_reuse-eq_nil :
    (section : Section) (id : Text) (earlier : Option Section)
    → report_reuse section id earlier ≡ nothing
    → earlier ≡ none
unfolding report_reuse
report_reuse-eq_nil section id none h = refl
report_reuse-eq_nil section id (some earlier) h = cc

-- Each id differs from those seen before the loop and from those behind it.
All-unseen :
    (id : Text) (section : Section) (seen ids : List (Text × Section))
    → All (λ e. All (λ s. s.0 ≢ e.0) ((id, section) ∷ seen)) ids
    → All (λ e. All (λ s. s.0 ≢ e.0) seen) ids × All (λ e. e.0 ≢ id) ids
All-unseen id section seen [] h = (tt, tt)
All-unseen id section seen (e ∷ ids) h =
    let (older, newer) = All-unseen id section seen ids h.1 in
    ((h.0.1, older), ((λ same. h.0.0 (sym same)), newer))

check_ids-DistinctIds :
    (seen ids : List (Text × Section))
    → check_ids seen ids ≡ nothing
    → All (λ e. All (λ s. s.0 ≢ e.0) seen) ids × DistinctIds ids
unfolding check_ids
check_ids-DistinctIds seen [] h = (tt, tt)
check_ids-DistinctIds seen ((id, section) ∷ ids) h =
    let (here, later) = ⊕-eq_nil (report_reuse section id (previous id seen)) _ h in
    let (unseen, distinct) = check_ids-DistinctIds ((id, section) ∷ seen) ids later in
    let (older, newer) = All-unseen id section seen ids unseen in
    (
      (previous-eq_none id seen (report_reuse-eq_nil section id (previous id seen) here), older),
      (newer, distinct),
    )

-- An element with the id.
any-Memᴰ :
    {A : Type 0} (name : A → Text) (xs : List A) (t : Text)
    → any (λ x. text_eq (name x) t) xs ≡ true
    → (x : A) × Memᴰ x xs × (name x ≡ t)
unfolding any
any-Memᴰ name [] t h = cc
any-Memᴰ name (x ∷ xs) t h = elim (Bool-cases (text_eq (name x) t)) [
  | inl e ↦ (x, Memᴰ.head refl, eq_of_text_eq (name x) t e)
  | inr e ↦ let (y, m, same) = any-Memᴰ name xs t (ground arith) in (y, Memᴰ.tail m, same)
]

-- Every reference of a game names an entry that the catalog has.
pub record RefsExist (catalog : Catalog) (g : Game) : Type 0 where
  pub anticheats :
      All (λ id. (ac : AntiCheat) × Memᴰ ac catalog.anticheat × (ac.id ≡ id)) g.anticheat
  pub launchers : All (λ id. (l : Launcher) × Memᴰ l catalog.launcher × (l.id ≡ id)) g.platforms

check_anticheat_ref_sound :
    (catalog : Catalog) (g : Game) (index : ℕ) (id : Text)
    → check_anticheat_ref catalog g index id ≡ nothing
    → (ac : AntiCheat) × Memᴰ ac catalog.anticheat × (ac.id ≡ id)
unfolding check_anticheat_ref
check_anticheat_ref_sound catalog g index id h =
    any-Memᴰ (λ ac. AntiCheat.id ac) catalog.anticheat id (ground arith)

check_launcher_ref_sound :
    (catalog : Catalog) (g : Game) (index : ℕ) (id : Text)
    → check_launcher_ref catalog g index id ≡ nothing
    → (l : Launcher) × Memᴰ l catalog.launcher × (l.id ≡ id)
unfolding check_launcher_ref
check_launcher_ref_sound catalog g index id h =
    any-Memᴰ (λ l. Launcher.id l) catalog.launcher id (ground arith)

check_game_refs-RefsExist :
    (catalog : Catalog) (index : ℕ) (g : Game)
    → check_game_refs catalog index g ≡ nothing
    → RefsExist catalog g
unfolding check_game_refs
check_game_refs-RefsExist catalog index g h =
    let (anticheats, launchers) = ⊕-eq_nil _ _ h in
    record {
      anticheats =
          each-sound (check_anticheat_ref catalog g) _ (check_anticheat_ref_sound catalog g) 0
            g.anticheat anticheats;
      launchers =
          each-sound (check_launcher_ref catalog g) _ (check_launcher_ref_sound catalog g) 0
            g.platforms launchers;
    }

-- A catalog with which `check_refs` finds no problem uses no id twice, in or across its three
-- sections, and each of its games refers only to anti-cheat and launcher entries that it has.
pub check_refs_sound :
    (catalog : Catalog)
    → check_refs catalog ≡ nothing
    → DistinctIds (all_ids catalog) × All (RefsExist catalog) catalog.game
unfolding check_refs
check_refs_sound catalog h =
    let (ids, games) = ⊕-eq_nil (check_ids [] (all_ids catalog)) _ h in
    (
      (check_ids-DistinctIds [] (all_ids catalog) ids).1,
      each-sound (check_game_refs catalog) (RefsExist catalog) (check_game_refs-RefsExist catalog) 0
          catalog.game games,
    )
