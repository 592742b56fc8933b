-- ===== src/Observe/Diff/Reversed.antt =====
-- tools/observe/src/diff.rs: `reversed`, a diff read the other way round.
pub mod Twice
use wardsweep.Base.{Bool, Option, none, some, List, map}
use wardsweep.Text.Chars.{Text}
use wardsweep.Observe.Model
use wardsweep.Observe.Model.{ServiceRecord, FileRecord}
use wardsweep.Observe.Diff.Types.{
  ChangeKind, added, removed, modified, FieldChange, ServiceChange, FileChange, RegistryChange,
  Suppressed, Diff,
}
use wardsweep.Observe.Diff.Compare.{signer_counts}

unfoldable pub reversed_kind : ChangeKind → ChangeKind
reversed_kind added = removed
reversed_kind removed = added
reversed_kind modified = modified

unfoldable pub reversed_field : FieldChange → FieldChange
reversed_field field = record { field = field.field; before = field.after; after = field.before }

-- `before.or(after)`
unfoldable pub later : {A : Type 0} → Option A → Option A → Option A
later none after = after
later (some record_) after = some record_

-- `map_or`
unfoldable pub map_or : {A B : Type 0} → B → (A → B) → Option A → B
map_or default f none = default
map_or default f (some x) = f x

unfoldable pub reversed_service : ServiceChange → ServiceChange
reversed_service change = record {
  name = change.name;
  kind = reversed_kind change.kind;
  is_driver = map_or change.is_driver Model.is_driver (later change.before change.after);
  is_boot_start =
      map_or change.is_boot_start Model.is_boot_start (later change.before change.after);
  before = change.after;
  after = change.before;
  fields = map reversed_field change.fields;
}

unfoldable pub reversed_file : FileChange → FileChange
reversed_file change = record {
  path = change.path;
  kind = reversed_kind change.kind;
  signer = map_or change.signer (λ record_. record_.signer) (later change.before change.after);
  is_driver_image = change.is_driver_image;
  before = change.after;
  after = change.before;
  fields = map reversed_field change.fields;
}

unfoldable pub reversed_registry : RegistryChange → RegistryChange
reversed_registry change = record {
  key = change.key;
  view = change.view;
  kind = reversed_kind change.kind;
  before = change.after;
  after = change.before;
  fields = map reversed_field change.fields;
}

unfoldable pub reversed_entry : {C : Type 0} → (C → C) → Suppressed C → Suppressed C
reversed_entry reverse entry = record { rule = entry.rule; change = reverse entry.change }

unfoldable pub reversed : Diff → Diff
reversed diff =
    let files = map reversed_file diff.files in
    record {
      format_version = diff.format_version;
      snapshot_format_version = diff.snapshot_format_version;
      before_taken_utc = diff.after_taken_utc;
      after_taken_utc = diff.before_taken_utc;
      rebooted_between = diff.rebooted_between;
      emptied_directories = diff.formerly_empty_directories;
      emptied_keys = diff.formerly_empty_keys;
      formerly_empty_directories = diff.emptied_directories;
      formerly_empty_keys = diff.emptied_keys;
      coverage = diff.coverage;
      services = map reversed_service diff.services;
      suppressed = map (reversed_entry reversed_service) diff.suppressed;
      files = files;
      suppressed_files = map (reversed_entry reversed_file) diff.suppressed_files;
      registry = map reversed_registry diff.registry;
      registry_policy_changed = diff.registry_policy_changed;
      filesystem_policy_changed = diff.filesystem_policy_changed;
      libraries = diff.libraries;
      signers = signer_counts files;
      refiltered = diff.refiltered;
      intersection_of = diff.intersection_of;
    }
