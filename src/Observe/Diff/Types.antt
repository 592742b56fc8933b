-- ===== src/Observe/Diff/Types.antt =====
-- tools/observe/src/diff.rs: what a diff holds.
use wardsweep.Base.{ℕ, Bool, Option, List, [], ◌∷◌, if◌then◌else◌, ◌≡◌, ◌↔◌, arith, true, ◌&&◌}
use wardsweep.Text.Chars.{Text}
use wardsweep.Text.{text_eq}
use wardsweep.Text.Search.{text_before}
use wardsweep.Text.Laws.Case.{text_eq_refl, eq_of_text_eq}
use wardsweep.Scan.Libraries.{Library}
use wardsweep.Observe.Index.{KeyOrder, Index}
use wardsweep.Observe.Model.{ServiceRecord, FileRecord, RegistryRecord, RegistryKeyRef, Coverage}

abbrev pub diff_format_version : ℕ
diff_format_version = 2

pub data ChangeKind : Type 0 where
  added removed modified : ChangeKind

pub record FieldChange : Type 0 where
  pub field : Text
  pub before : Text
  pub after : Text

pub record ServiceChange : Type 0 where
  pub name : Text
  pub kind : ChangeKind
  pub is_driver : Bool
  pub is_boot_start : Bool
  pub before : Option ServiceRecord
  pub after : Option ServiceRecord
  pub fields : List FieldChange

pub record FileChange : Type 0 where
  pub path : Text
  pub kind : ChangeKind
  pub signer : Option Text
  pub is_driver_image : Bool
  pub before : Option FileRecord
  pub after : Option FileRecord
  pub fields : List FieldChange

pub record RegistryChange : Type 0 where
  pub key : Text
  pub view : Text
  pub kind : ChangeKind
  pub before : Option RegistryRecord
  pub after : Option RegistryRecord
  pub fields : List FieldChange

-- `Suppressed` and `SuppressedFile`
pub record Suppressed (C : Type 0) : Type 0 where
  pub rule : Text
  pub change : C

pub record Refiltered : Type 0 where
  pub registry_records : ℕ
  pub registry_values : ℕ
  pub access_denied : ℕ
  pub emptied_keys : ℕ
  pub files : ℕ
  pub emptied_directories : ℕ

pub record Footprint : Type 0 where
  pub before_taken_utc : Text
  pub after_taken_utc : Text
  pub changes : ℕ

pub record Diff : Type 0 where
  pub format_version : ℕ
  pub snapshot_format_version : ℕ
  pub before_taken_utc : Text
  pub after_taken_utc : Text
  pub rebooted_between : Option Bool
  pub emptied_directories : Option (List Text)
  pub emptied_keys : Option (List RegistryKeyRef)
  pub formerly_empty_directories : Option (List Text)
  pub formerly_empty_keys : Option (List RegistryKeyRef)
  pub coverage : Coverage
  pub services : List ServiceChange
  pub suppressed : List (Suppressed ServiceChange)
  pub files : List FileChange
  pub suppressed_files : List (Suppressed FileChange)
  pub registry : List RegistryChange
  pub registry_policy_changed : Bool
  pub filesystem_policy_changed : Bool
  pub libraries : List Library
  pub signers : Index Text ℕ
  pub refiltered : Refiltered
  pub intersection_of : Option (List Footprint)

-- The order of `String`.
pub text_eq_iff : (t u : Text) → (text_eq t u ≡ true) ↔ (t ≡ u)
text_eq_iff t u = (eq_of_text_eq t u, λ e. rw e (text_eq_refl u))

instance abbrev pub text_order : KeyOrder Text
text_order = record { same = text_eq; before = text_before; same_iff = text_eq_iff }

-- A key and its view, compared in that order.
pub pair_same_iff : (a b : Text × Text) → ((text_eq a.0 b.0 && text_eq a.1 b.1) ≡ true) ↔ (a ≡ b)
pair_same_iff a b = ground (
  arith,
  (text_eq_iff a.0 b.0).0,
  (text_eq_iff a.0 b.0).1,
  (text_eq_iff a.1 b.1).0,
  (text_eq_iff a.1 b.1).1,
)

instance abbrev pub pair_order : KeyOrder (Text × Text)
pair_order = record {
  same = λ a b. text_eq a.0 b.0 && text_eq a.1 b.1;
  before = λ a b. if text_eq a.0 b.0 then text_before a.1 b.1 else text_before a.0 b.0;
  same_iff = pair_same_iff;
}

-- `if old != new { push }`
unfoldable pub compare_field : Text → Text → Text → List FieldChange
compare_field field old new =
    if text_eq old new then [] else record { field = field; before = old; after = new } ∷ []
