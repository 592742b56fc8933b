-- ===== src/Scan/Model.antt =====
-- core/src/scan/model.rs: what an audit finds. A formatted text is a constructor with the values that
-- it prints.
use wardsweep.Base.{ℕ, Bool, true, false, not, Option, List, [], ◌∷◌, is_nil, suc, if◌then◌else◌}
use wardsweep.Text.Chars.{Text}
use wardsweep.Paths.Canonical.{PathError}
use wardsweep.Paths.RegKey.{RegKeyError}
use wardsweep.Denylist.Check.{DenyReason}
use wardsweep.Catalog.Schema.{Risk}
use wardsweep.Catalog.Expand.{ExpandError}

pub data Classification : Type 0 where
  confirmed probable suspicious : Classification

pub data RegView : Type 0 where
  bits64 bits32 : RegView

pub data Artifact : Type 0 where
  service : Text → Option Text → Bool → Artifact
  driver : Text → Option Text → Text → Bool → Artifact
  registry_key : Text → RegView → Artifact
  path : Text → Bool → Artifact

-- The lines of evidence.
pub data Evidence : Type 0 where
  attested signed signed_unchecked signed_by_another : Text → Evidence
  not_signed not_verified : Evidence
  not_checked : Text → Evidence
  in_view : RegView → Evidence
  file_exists directory_exists link_exists : Evidence
  publisher_confirmed name_alone : Evidence
  scm_lists past_scm unregistered : Evidence
  image_said : Text → Evidence → Evidence
  image_missing : Text → Evidence
  image_unreadable : Text → Text → Evidence
  own_image_said : Evidence → Evidence
  registered_by : Text → Evidence
  not_on_disk : Evidence

pub record Finding : Type 0 where
  pub anticheat : Text
  pub risk : Risk
  pub artifact : Artifact
  pub classification : Classification
  pub evidence : List Evidence

-- The reasons, as the engine prints them.
pub data Reason : Type 0 where
  denied : DenyReason → Reason
  path_error : PathError → Reason
  key_error : RegKeyError → Reason
  cannot_be_expanded : ExpandError → Reason
  platform : Text → Reason
  stale_record : Reason

pub record Protected : Type 0 where
  pub anticheat : Text
  pub target : Text
  pub reason : Reason

pub data Item : Type 0 where
  plain : Text → Item
  service_item : Text → Item
  services_item : Item
  key_item : Text → RegView → Item

pub record Unreadable : Type 0 where
  pub anticheat : Option Text
  pub item : Item
  pub reason : Reason

pub record Disbelieved : Type 0 where
  pub anticheat : Text
  pub item : Text
  pub reason : Reason

pub record Report : Type 0 where
  pub v : ℕ
  pub findings : List Finding
  pub protected : List Protected
  pub disbelieved : List Disbelieved
  pub unreadable : List Unreadable

abbrev pub report_version : ℕ
report_version = 1

-- `Report::partial`
unfoldable pub is_partial : Report → Bool
is_partial report = not (is_nil report.unreadable)

unfoldable pub same_classification : Classification → Classification → Bool
same_classification confirmed confirmed = true
same_classification probable probable = true
same_classification suspicious suspicious = true
same_classification _ _ = false

unfoldable pub count_in : Classification → List Finding → ℕ
count_in classification [] = 0
count_in classification (finding ∷ findings) =
    let rest = count_in classification findings in
    if same_classification finding.classification classification then suc rest else rest

-- `Report::count`
unfoldable pub count : Classification → Report → ℕ
count classification report = count_in classification report.findings
