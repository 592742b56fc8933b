-- ===== src/Scan/Targets/Safe.antt =====
-- core/src/scan/engine.rs: what the audit offers was allowed by the deny-list.
use wardsweep.Base.{
  ◌≢◌, ◌≡◌, refl, Option, none, some, List, Outcome, ok, err, panic, >>=-eq-ok, subst,
}
use wardsweep.Text.Chars.{Text}
use wardsweep.Paths.Canonical.{CanonicalPath, PathError, canonicalise_syntactic}
use wardsweep.Paths.RegKey.{CanonicalRegKey, RegKeyError, canonicalise_reg_key}
use wardsweep.Denylist.Exceptions.{Exceptions}
use wardsweep.Denylist.Check.{Verdict, allowed, catalog_load}
use wardsweep.Denylist.Footprint.{check_path_iff}
use wardsweep.Denylist.KeyRules.Sound.{check_registry_key-IsRemovableKey}
use wardsweep.Catalog.Schema.{AntiCheat, PathEntry, RegistryEntry}
use wardsweep.Catalog.Expand.{ExpandError}
use wardsweep.Catalog.Gate.{exceptions_for}
use wardsweep.Catalog.Gate.Sound.{NamesRemovable}
use wardsweep.Scan.Model.{RegView, Reason}
use wardsweep.Scan.View.{
  Lookup, found, absent, unreadable, PathKind, file, directory, reparse_point, MachineView,
}
use wardsweep.Scan.Judge.{views}
use wardsweep.Scan.Targets
use wardsweep.Scan.Targets.{
  refusal, key_refused, path_refused, read_key, key_unless, registry_key, pending_path, refused_at,
  path_unless, path_at, each_path, expanded_paths, run_keys, run_paths, run_targets,
}
use wardsweep.Scan.State.{State, report_unreadable, report_protected, fold}
use wardsweep.Scan.Environment.{Environment}
use wardsweep.Scan.Grounded.{KeyIsRemovable, IsGrounded, IsSafe, push-IsSafe}
use wardsweep.Scan.State.Loops.{ok-injective, fold_invariant}

refusal-allowed : (verdict : Verdict) → refusal verdict ≡ ok none → verdict ≡ allowed
unfolding refusal
refusal-allowed (ok _) h = refl
refusal-allowed (err reason) h = cc
refusal-allowed panic h = cc

key_refused-KeyIsRemovable :
    (exceptions : Exceptions) (key : Text) (outcome : Outcome RegKeyError CanonicalRegKey)
    → canonicalise_reg_key key ≡ outcome
    → key_refused exceptions outcome ≡ ok none
    → KeyIsRemovable exceptions key
unfolding key_refused
key_refused-KeyIsRemovable exceptions key (ok canonical) e h = record {
  canonical = canonical;
  canonicalises = e;
  removable = check_registry_key-IsRemovableKey canonical exceptions (refusal-allowed _ h);
}
key_refused-KeyIsRemovable exceptions key (err error) e h = absurd (cc)
key_refused-KeyIsRemovable exceptions key panic e h = absurd (cc)

path_refused-NamesRemovable :
    (exceptions : Exceptions) (path : Text) (outcome : Outcome PathError CanonicalPath)
    → canonicalise_syntactic path ≡ outcome
    → path_refused exceptions outcome ≡ ok none
    → NamesRemovable exceptions path
unfolding path_refused
path_refused-NamesRemovable exceptions path (ok canonical) e h =
    let (evidence, local, unaliased, removable) =
      (check_path_iff canonical exceptions catalog_load).0 (refusal-allowed _ h) in
    record {
      canonical = canonical;
      canonicalises = e;
      local = local;
      unaliased = unaliased;
      removable = removable;
    }
path_refused-NamesRemovable exceptions path (err error) e h = absurd (cc)
path_refused-NamesRemovable exceptions path panic e h = absurd (cc)

refused_at-NamesRemovable :
    (entry : AntiCheat) (path : Text) (kind : PathKind)
    → refused_at entry path kind ≡ ok none
    → NamesRemovable (exceptions_for entry) path
unfolding refused_at
refused_at-NamesRemovable entry path file h = path_refused-NamesRemovable _ path _ refl h
refused_at-NamesRemovable entry path directory h = path_refused-NamesRemovable _ path _ refl h
refused_at-NamesRemovable entry path reparse_point h = absurd (cc)

pending_path-IsGrounded :
    (machine : MachineView) (environment : Environment) (entry : AntiCheat) (path : Text)
    (kind : PathKind)
    → machine.path path ≡ found kind
    → kind ≢ reparse_point
    → NamesRemovable (exceptions_for entry) path
    → IsGrounded machine environment
        (exceptions_for entry)
        (pending_path machine entry path kind).artifact
unfolding pending_path
pending_path-IsGrounded machine environment entry path kind there no_link removable = record {
  kind = kind;
  there = there;
  no_link = no_link;
  same_kind = refl;
  removable = removable;
}

refused_at-no_link :
    (entry : AntiCheat) (path : Text) (kind : PathKind)
    → refused_at entry path kind ≡ ok none
    → kind ≢ reparse_point
unfolding refused_at
refused_at-no_link entry path file h = λ e. cc
refused_at-no_link entry path directory h = λ e. cc
refused_at-no_link entry path reparse_point h = absurd (cc)

path_unless-IsSafe :
    (machine : MachineView) (environment : Environment) (entry : AntiCheat) (path : Text)
    (kind : PathKind) (state : State) (refused : Option Reason)
    → machine.path path ≡ found kind
    → refused_at entry path kind ≡ ok refused
    → IsSafe machine environment entry state
    → IsSafe machine environment entry (path_unless machine entry path kind state refused)
unfolding path_unless report_protected
path_unless-IsSafe machine environment entry path kind state (some reason) there e safe = safe
path_unless-IsSafe machine environment entry path kind state none there e safe =
    push-IsSafe machine environment entry _ state
      (pending_path-IsGrounded machine environment entry path kind there
        (refused_at-no_link entry path kind e) (refused_at-NamesRemovable entry path kind e))
      safe

path_at-IsSafe :
    (machine : MachineView) (environment : Environment) (entry : AntiCheat) (path : Text)
    (state : State) (there : Lookup PathKind) (next : State)
    → machine.path path ≡ there
    → path_at machine entry path state there ≡ ok next
    → IsSafe machine environment entry state
    → IsSafe machine environment entry next
unfolding path_at report_unreadable
path_at-IsSafe machine environment entry path state absent next seen h safe =
    subst (IsSafe machine environment entry) (ok-injective h) safe
path_at-IsSafe machine environment entry path state (unreadable reason) next seen h safe =
    subst (IsSafe machine environment entry) (ok-injective h) safe
path_at-IsSafe machine environment entry path state (found kind) next seen h safe =
    let (refused, e, rest) =
      >>=-eq-ok (refused_at entry path kind)
        (λ refused. ok (path_unless machine entry path kind state refused)) h in
    subst (IsSafe machine environment entry) (ok-injective rest)
      (path_unless-IsSafe machine environment entry path kind state refused seen e safe)

each_path-IsSafe :
    (machine : MachineView) (environment : Environment) (entry : AntiCheat) (state : State)
    (paths : List Text) (next : State)
    → each_path machine entry state paths ≡ ok next
    → IsSafe machine environment entry state
    → IsSafe machine environment entry next
unfolding each_path
each_path-IsSafe machine environment entry =
    fold_invariant (λ state path. path_at machine entry path state (machine.path path))
      (IsSafe machine environment entry)
      (λ state path next.
        path_at-IsSafe machine environment entry path state (machine.path path) next refl)

expanded_paths-IsSafe :
    (machine : MachineView) (environment : Environment) (entry : AntiCheat) (template : Text)
    (state : State) (expansions : Outcome ExpandError (List Text)) (next : State)
    → expanded_paths machine entry template state expansions ≡ ok next
    → IsSafe machine environment entry state
    → IsSafe machine environment entry next
unfolding expanded_paths report_unreadable
expanded_paths-IsSafe machine environment entry template state (ok paths) next h safe =
    each_path-IsSafe machine environment entry state paths next h safe
expanded_paths-IsSafe machine environment entry template state (err error) next h safe =
    subst (IsSafe machine environment entry) (ok-injective h) safe
expanded_paths-IsSafe machine environment entry template state panic next h safe = absurd (cc)

run_paths-IsSafe :
    (machine : MachineView) (environment : Environment) (entry : AntiCheat) (state : State)
    (listed : List PathEntry) (next : State)
    → run_paths machine environment entry state listed ≡ ok next
    → IsSafe machine environment entry state
    → IsSafe machine environment entry next
unfolding run_paths Targets.path
run_paths-IsSafe machine environment entry =
    fold_invariant (λ state listed. Targets.path machine environment entry state listed.path)
      (IsSafe machine environment entry)
      (λ state listed. expanded_paths-IsSafe machine environment entry listed.path state _)

read_key-IsSafe :
    (machine : MachineView) (environment : Environment) (entry : AntiCheat) (key : Text)
    (view : RegView) (there : Lookup (Unit {0})) (state : State)
    → machine.registry_key key view ≡ there
    → KeyIsRemovable (exceptions_for entry) key
    → IsSafe machine environment entry state
    → IsSafe machine environment entry (read_key machine entry key view there state)
unfolding read_key report_unreadable
read_key-IsSafe machine environment entry key view absent state seen removable safe = safe
read_key-IsSafe machine environment entry key view (unreadable reason) state seen removable safe =
    safe
read_key-IsSafe machine environment entry key view (found tt) state seen removable safe =
    push-IsSafe machine environment entry _ state (removable, seen) safe

key_unless-IsSafe :
    (machine : MachineView) (environment : Environment) (entry : AntiCheat) (key : Text)
    (view : RegView) (state : State) (refused : Option Reason)
    → key_refused (exceptions_for entry) (canonicalise_reg_key key) ≡ ok refused
    → IsSafe machine environment entry state
    → IsSafe machine environment entry (key_unless machine entry key view state refused)
unfolding key_unless report_protected
key_unless-IsSafe machine environment entry key view state (some reason) e safe = safe
key_unless-IsSafe machine environment entry key view state none e safe =
    read_key-IsSafe machine environment entry key view (machine.registry_key key view) state refl
      (key_refused-KeyIsRemovable (exceptions_for entry) key (canonicalise_reg_key key) refl e) safe

registry_key-IsSafe :
    (machine : MachineView) (environment : Environment) (entry : AntiCheat) (key : Text)
    (state : State) (view : RegView) (next : State)
    → registry_key machine entry key state view ≡ ok next
    → IsSafe machine environment entry state
    → IsSafe machine environment entry next
unfolding registry_key
registry_key-IsSafe machine environment entry key state view next h safe =
    let (refused, e, rest) =
      >>=-eq-ok (key_refused (exceptions_for entry) (canonicalise_reg_key key))
        (λ refused. ok (key_unless machine entry key view state refused)) h in
    subst (IsSafe machine environment entry) (ok-injective rest)
      (key_unless-IsSafe machine environment entry key view state refused e safe)

run_keys-IsSafe :
    (machine : MachineView) (environment : Environment) (entry : AntiCheat) (state : State)
    (keys : List RegistryEntry) (next : State)
    → run_keys machine entry state keys ≡ ok next
    → IsSafe machine environment entry state
    → IsSafe machine environment entry next
unfolding run_keys
run_keys-IsSafe machine environment entry =
    fold_invariant
      (λ state key. fold (registry_key machine entry key.key) state (views key.key key.view))
      (IsSafe machine environment entry)
      (λ state key.
        fold_invariant (registry_key machine entry key.key) (IsSafe machine environment entry)
          (registry_key-IsSafe machine environment entry key.key) state (views key.key key.view))

-- Whatever the machine answers, the keys and paths that the audit of an entry offers are removable
-- with that entry's carve-outs: if it begins with such a list of offers, it ends with one, where a
-- path canonicalises to a removable place on a local drive and a key to a removable key.
pub run_targets-IsSafe :
    (machine : MachineView) (environment : Environment) (entry : AntiCheat) (state next : State)
    → run_targets machine environment entry state ≡ ok next
    → IsSafe machine environment entry state
    → IsSafe machine environment entry next
unfolding run_targets
run_targets-IsSafe machine environment entry state next h safe =
    let (keys, first, rest) =
      >>=-eq-ok (run_keys machine entry state entry.registry)
        (λ keys. run_paths machine environment entry keys entry.paths) h in
    run_paths-IsSafe machine environment entry keys entry.paths next rest
      (run_keys-IsSafe machine environment entry state entry.registry keys first safe)
