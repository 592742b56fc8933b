-- ===== src/Lib.antt =====
-- WardSweep: the safety core, the catalog checks, the scan and the diff of the observation harness.
--
-- WardSweep removes what an anti-cheat leaves behind. A signed catalog names, per anti-cheat and
-- game, the paths and registry keys to remove; the program brings each to one canonical form, and a
-- built-in deny-list decides whether that place may be touched at all. The same deny-list is asked
-- when a catalog is checked and again on every place found on a disk; an entry's own
-- drivers and services give it a narrow carve-out.
--
-- Parts, and the files that model them:
--   Paths/Canonical   core/src/safety/paths.rs: `canonicalise_syntactic`, `canonicalise_resolved`,
--                     `CanonicalPath`; a function per function, its `if let` chains cut into
--                     helpers that are named for what they read (`long_root`, `device_root`)
--   Paths/RegKey      core/src/safety/paths.rs: `canonicalise_reg_key`, `CanonicalRegKey`
--   Denylist/Tables   core/src/safety/denylist.rs: the constant tables
--   Denylist/Exceptions, Denylist/Check, Denylist/Keys
--                     core/src/safety/denylist.rs: the carve-outs `Exceptions`, then `check_path` and
--                     `check_registry_key` with the evaluators below them, guards in their order
--   Catalog/Schema    core/src/catalog/schema.rs: a record or data type for each struct or enum
--   Catalog/Expand    core/src/catalog/expand.rs: `expand_with`, `expand_for_validation`
--   Catalog/Problems  the `Vec<Problem>` that the checks below push to
--   Catalog/Validate, Catalog/Refs, Catalog/Gate, Catalog/Shared
--                     core/src/catalog/validate.rs: `validate`, `check_refs`, `check_denylist`,
--                     `audit_shared`
--   Scan/View, Scan/Model
--                     core/src/scan/view.rs and model.rs: the trait `MachineView` as a record of its
--                     reads, and what a report holds
--   Scan/Judge, Scan/Environment, Scan/Image, Scan/Targets, Scan/Registered, Scan/Audit
--                     core/src/scan/engine.rs: `judge`, `views` and `settle`; `Environment`;
--                     `image_file`; `Audit::registry_key` and `Audit::path`; `Audit::service` and
--                     `Audit::driver`; `Audit::run` and `audit`. Scan/State is what they change,
--                     Scan/Grounded and Scan/Read are the predicates that the proofs carry along
--   Scan/Libraries    core/src/scan/libraries.rs: `Library`, `common`; Manifest: `normalised`,
--                     `epic_library_of`, `deduplicated`
--   Observe/Model, Observe/Coverage
--                     tools/observe/src/model.rs: what a snapshot records, `Coverage::intersect`
--   Observe/Policy    tools/observe/src/policy.rs, and `is_excluded` of collect/filesystem.rs: what
--                     the harness refuses
--   Observe/Diff      tools/observe/src/diff.rs: `NoiseFilter` (Filter), `compare_services`,
--                     `compare_files`, `compare_registry` (Services, Files, Registry), `compare`
--                     (Compare), `reversed` (Reversed), `refilter` (Refilter), the counts (Summary)
--   Base, Text        the shared list, option and number lemmas; Rust's `str` and `char` operations
-- The modules below a part (Sound, Laws, WellFormed, Footprint, Carveout, ...) hold its proofs,
-- Examples runs of the definitions on concrete inputs.
--
-- How they interact: `check_denylist` expands a template, canonicalises each expansion and asks
-- `check_path`; keys go through `canonicalise_reg_key` to `check_registry_key`.
-- The scan does the same with the machine's own values of the variables, and looks at what is there.
-- The harness compares two snapshots of a machine, from which new catalog entries are drafted: `compare`
-- intersects their coverage, then compares each domain that is covered, behind the policy and the filter.
--
-- How the code is read:
-- * A text is the list of its code points. `str::len` and byte slices count the bytes of its UTF-8
--   form, and a slice inside a character is a panic: a fallible function returns `Outcome E A`, that
--   is `ok`, `err` or `panic`. Numbers are lengths and indices of texts and lists, far below `2 ^ 64`.
-- * A check returns `Checked`: the list of its problems, or `none` for a panic. A formatted message
--   is a constructor with the values that it prints.
-- * `CanonicalPath` keeps all its fields, `resolved_via_handle` and `short_name` included; the
--   evidence of a check at execution is a `Stage`.
-- * In core, a `BTreeSet` or `BTreeMap` is a list in order of insertion, as nothing depends on its
--   order. In tools/observe it is a list of entries in the order of its keys (Observe/Index), since the
--   order of a diff is the order of its keys.
-- * What `compare` counts in `&mut refiltered` while it compares is computed by functions of its own
--   over the same records. A field's number is printed with one digit of fuel per unit, which is enough.
-- * A field called `data` in the code is `value` here.
-- * Every loop runs over a list (segments, entries, the pieces between percent signs), so it is a
--   structural recursion and takes no fuel.
-- * An audit's `&mut self` is a `State` that each method takes and returns: the lists of the report
--   that it pushes to, and what the entry has so far. The machine is an argument of every method.
-- * `std::path::Path::extension` is the parameter `extension` of `validate`.
--
-- Not modelled: reading TOML and JSON and verifying the signature (crates `toml`, `serde_json` and
-- `ed25519-dalek`), the Win32 calls (core/src/scan/win.rs), the readers of launcher manifests in
-- core/src/scan/libraries.rs (`discover`, `key_values`, `tokenise`), the command lines (cli, tools/catalog), the rest of the observation
-- harness (intersect.rs, suggest.rs, redact.rs, review.rs, collect), the broker
-- spike (spikes/s3-split-privilege) and the C# user interface (ui).
pub mod Base
pub mod Text
pub mod Paths
pub mod Denylist
pub mod Catalog
pub mod Scan
pub mod Observe
mod Examples
