-- ===== src/Scan/Targets/Complete.antt =====
-- core/src/scan/engine.rs: keys and paths that could not be read are reported.
use mathlib.Core.List.{Memᴰ}
use wardsweep.Base.{
  ◌∷◌, ◌≡◌, ◌⊎◌, inl, inr, refl, sym, true, Option, none, some, List, [], All, Outcome, ok, err,
  panic, >>=-eq-ok, subst,
}
use wardsweep.Text.Chars.{Text}
use wardsweep.Paths.RegKey.{CanonicalRegKey, RegKeyError, canonicalise_reg_key}
use wardsweep.Denylist.Check.{DenyReason, Verdict}
use wardsweep.Denylist.Keys.{check_registry_key}
use wardsweep.Scan.Judge.Views.{IsCalledFor, Mem-views}
use wardsweep.Catalog.Schema.{AntiCheat, PathEntry, RegistryEntry}
use wardsweep.Catalog.Expand.{ExpandError, expand_with}
use wardsweep.Catalog.Gate.{exceptions_for}
use wardsweep.Scan.Model.{RegView, Reason}
use wardsweep.Scan.View.{Lookup, found, absent, unreadable, PathKind, MachineView}
use wardsweep.Scan.Judge.{views}
use wardsweep.Scan.Targets
use wardsweep.Scan.Targets.{
  refusal, key_refused, read_key, key_unless, registry_key, refused_at, path_unless, path_at,
  each_path, expanded_paths, run_keys, run_paths, run_targets,
}
use wardsweep.Scan.State.{State, report_unreadable, report_protected, push, fold}
use wardsweep.Scan.Environment.{Environment, lookup}
use wardsweep.Scan.Read.{is_read, IsComplete, append-nonempty}
use wardsweep.Scan.State.Loops.{ok-injective, fold_backwards}

-- A template that expands, to paths that were all read.
abbrev pub TemplateIsRead : MachineView → Environment → PathEntry → Type 0
TemplateIsRead machine environment listed =
    (expansions : List Text) × (expand_with listed.path (lookup environment) ≡ ok expansions)
    × All (λ path. is_read (machine.path path) ≡ true) expansions

-- The deny-list refuses a key: it does not canonicalise, or the check of what it canonicalises to denies it.
abbrev pub KeyIsRefused : AntiCheat → Text → Type 0
KeyIsRefused entry key =
    ((error : RegKeyError) × (canonicalise_reg_key key ≡ err error))
    ⊎ ((canonical : CanonicalRegKey) × (reason : DenyReason) × (canonicalise_reg_key key
          ≡ ok canonical)
        × (check_registry_key canonical (exceptions_for entry) ≡ err reason))

-- A key that was read in a view, unless the deny-list refuses it.
abbrev pub KeyIsRead : MachineView → AntiCheat → Text → RegView → Type 0
KeyIsRead machine entry key view =
    KeyIsRefused entry key ⊎ (is_read (machine.registry_key key view) ≡ true)

-- A key that is read in every view that is called for.
abbrev pub EntryKeyIsRead : MachineView → AntiCheat → RegistryEntry → Type 0
EntryKeyIsRead machine entry listed =
    (view : RegView)
    → IsCalledFor listed.key listed.view view
    → KeyIsRead machine entry listed.key view

refusal-denied :
    (verdict : Verdict) (reason : Reason)
    → refusal verdict ≡ ok (some reason)
    → (denial : DenyReason) × (verdict ≡ err denial)
unfolding refusal
refusal-denied (ok _) reason h = cc
refusal-denied (err denial) reason h = (denial, refl)
refusal-denied panic reason h = cc

key_refused-KeyIsRefused :
    (entry : AntiCheat) (key : Text) (outcome : Outcome RegKeyError CanonicalRegKey)
    (reason : Reason)
    → canonicalise_reg_key key ≡ outcome
    → key_refused (exceptions_for entry) outcome ≡ ok (some reason)
    → KeyIsRefused entry key
unfolding key_refused
key_refused-KeyIsRefused entry key (ok canonical) reason e h =
    let (denial, denied) = refusal-denied _ reason h in inr (canonical, denial, e, denied)
key_refused-KeyIsRefused entry key (err error) reason e h = inl (error, e)
key_refused-KeyIsRefused entry key panic reason e h = cc

path_unless-IsComplete :
    (machine : MachineView) (entry : AntiCheat) (path : Text) (kind : PathKind) (state : State)
    (refused : Option Reason)
    → IsComplete (path_unless machine entry path kind state refused)
    → IsComplete state
unfolding path_unless report_protected push
path_unless-IsComplete machine entry path kind state (some reason) h = h
path_unless-IsComplete machine entry path kind state none h = h

path_at-IsRead :
    (machine : MachineView) (entry : AntiCheat) (path : Text) (state : State)
    (there : Lookup PathKind) (next : State)
    → path_at machine entry path state there ≡ ok next
    → IsComplete next
    → IsComplete state × (is_read there ≡ true)
unfolding path_at report_unreadable is_read
path_at-IsRead machine entry path state absent next h complete =
    (subst IsComplete (sym (ok-injective h)) complete, refl)
path_at-IsRead machine entry path state (unreadable reason) next h complete =
    absurd (append-nonempty state.unreadable _ (subst IsComplete (sym (ok-injective h)) complete))
path_at-IsRead machine entry path state (found kind) next h complete =
    let (refused, e, rest) =
      >>=-eq-ok (refused_at entry path kind)
        (λ refused. ok (path_unless machine entry path kind state refused)) h in
    (
      path_unless-IsComplete machine entry path kind state refused
          (subst IsComplete (sym (ok-injective rest)) complete),
      refl,
    )

expanded_paths-IsRead :
    (machine : MachineView) (environment : Environment) (entry : AntiCheat) (template : Text)
    (state : State) (expansions : Outcome ExpandError (List Text)) (next : State)
    → expanded_paths machine entry template state expansions ≡ ok next
    → IsComplete next
    → IsComplete state
      × ((paths : List Text) × (expansions ≡ ok paths)
          × All (λ path. is_read (machine.path path) ≡ true) paths)
unfolding expanded_paths each_path report_unreadable
expanded_paths-IsRead machine environment entry template state (ok paths) next h complete =
    let (before, read) =
      fold_backwards (λ state path. path_at machine entry path state (machine.path path)) IsComplete
        (λ path. is_read (machine.path path) ≡ true)
        (λ state path. path_at-IsRead machine entry path state (machine.path path)) state paths next
        h complete in
    (before, (paths, refl, read))
expanded_paths-IsRead machine environment entry template state (err error) next h complete =
    absurd (append-nonempty state.unreadable _ (subst IsComplete (sym (ok-injective h)) complete))
expanded_paths-IsRead machine environment entry template state panic next h complete = absurd (cc)

run_paths-IsRead :
    (machine : MachineView) (environment : Environment) (entry : AntiCheat) (state : State)
    (listed : List PathEntry) (next : State)
    → run_paths machine environment entry state listed ≡ ok next
    → IsComplete next
    → IsComplete state × All (TemplateIsRead machine environment) listed
unfolding run_paths Targets.path
run_paths-IsRead machine environment entry =
    fold_backwards (λ state listed. Targets.path machine environment entry state listed.path)
      IsComplete (TemplateIsRead machine environment)
      (λ state listed. expanded_paths-IsRead machine environment entry listed.path state _)

read_key-IsRead :
    (machine : MachineView) (entry : AntiCheat) (key : Text) (view : RegView)
    (there : Lookup (Unit {0})) (state : State)
    → IsComplete (read_key machine entry key view there state)
    → IsComplete state × (is_read there ≡ true)
unfolding read_key report_unreadable push is_read
read_key-IsRead machine entry key view absent state complete = (complete, refl)
read_key-IsRead machine entry key view (found _) state complete = (complete, refl)
read_key-IsRead machine entry key view (unreadable reason) state complete =
    absurd (append-nonempty state.unreadable _ complete)

key_unless-IsRead :
    (machine : MachineView) (entry : AntiCheat) (key : Text) (view : RegView) (state : State)
    (refused : Option Reason)
    → key_refused (exceptions_for entry) (canonicalise_reg_key key) ≡ ok refused
    → IsComplete (key_unless machine entry key view state refused)
    → IsComplete state × KeyIsRead machine entry key view
unfolding key_unless report_protected
key_unless-IsRead machine entry key view state (some reason) e complete =
    (complete, inl (key_refused-KeyIsRefused entry key _ reason refl e))
key_unless-IsRead machine entry key view state none e complete =
    let (before, read) =
      read_key-IsRead machine entry key view (machine.registry_key key view) state complete in
    (before, inr read)

registry_key-IsRead :
    (machine : MachineView) (entry : AntiCheat) (key : Text) (state : State) (view : RegView)
    (next : State)
    → registry_key machine entry key state view ≡ ok next
    → IsComplete next
    → IsComplete state × KeyIsRead machine entry key view
unfolding registry_key
registry_key-IsRead machine entry key state view next h complete =
    let (refused, e, rest) =
      >>=-eq-ok (key_refused (exceptions_for entry) (canonicalise_reg_key key))
        (λ refused. ok (key_unless machine entry key view state refused)) h in
    key_unless-IsRead machine entry key view state refused e
      (subst IsComplete (sym (ok-injective rest)) complete)

All-Mem : {A : Type 0} (P : A → Type 0) (x : A) (xs : List A) → All P xs → Memᴰ x xs → P x
All-Mem P x [] h m = elim m [ ]
All-Mem P x (y ∷ ys) h (Memᴰ.head e) = subst P (sym e) h.0
All-Mem P x (y ∷ ys) h (Memᴰ.tail m) = All-Mem P x ys h.1 m

entry_key-IsRead :
    (machine : MachineView) (entry : AntiCheat) (state : State) (listed : RegistryEntry)
    (next : State)
    → fold (registry_key machine entry listed.key) state (views listed.key listed.view) ≡ ok next
    → IsComplete next
    → IsComplete state × EntryKeyIsRead machine entry listed
entry_key-IsRead machine entry state listed next h complete =
    let (before, read) =
      fold_backwards (registry_key machine entry listed.key) IsComplete
        (KeyIsRead machine entry listed.key) (registry_key-IsRead machine entry listed.key) state
        (views listed.key listed.view) next h complete in
    (
      before,
      λ view called.
          All-Mem (KeyIsRead machine entry listed.key) view (views listed.key listed.view) read
            (Mem-views listed.key listed.view view called),
    )

run_keys-IsRead :
    (machine : MachineView) (entry : AntiCheat) (state : State) (keys : List RegistryEntry)
    (next : State)
    → run_keys machine entry state keys ≡ ok next
    → IsComplete next
    → IsComplete state × All (EntryKeyIsRead machine entry) keys
unfolding run_keys
run_keys-IsRead machine entry =
    fold_backwards
      (λ state key. fold (registry_key machine entry key.key) state (views key.key key.view))
      IsComplete (EntryKeyIsRead machine entry) (entry_key-IsRead machine entry)

pub run_targets-IsRead :
    (machine : MachineView) (environment : Environment) (entry : AntiCheat) (state next : State)
    → run_targets machine environment entry state ≡ ok next
    → next.unreadable ≡ []
    → All (TemplateIsRead machine environment) entry.paths
      × All (EntryKeyIsRead machine entry) entry.registry
unfolding run_targets
run_targets-IsRead machine environment entry state next h complete =
    let (keys, first, rest) =
      >>=-eq-ok (run_keys machine entry state entry.registry)
        (λ keys. run_paths machine environment entry keys entry.paths) h in
    let (between, paths_read) =
      run_paths-IsRead machine environment entry keys entry.paths next rest complete in
    (paths_read, (run_keys-IsRead machine entry state entry.registry keys first between).1)

-- Nothing was unreadable before either.
pub run_targets-IsComplete :
    (machine : MachineView) (environment : Environment) (entry : AntiCheat) (state next : State)
    → run_targets machine environment entry state ≡ ok next
    → IsComplete next
    → IsComplete state
unfolding run_targets
run_targets-IsComplete machine environment entry state next h complete =
    let (keys, first, rest) =
      >>=-eq-ok (run_keys machine entry state entry.registry)
        (λ keys. run_paths machine environment entry keys entry.paths) h in
    let (between, paths_read) =
      run_paths-IsRead machine environment entry keys entry.paths next rest complete in
    (run_keys-IsRead machine entry state entry.registry keys first between).0
