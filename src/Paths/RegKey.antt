-- ===== src/Paths/RegKey.antt =====
-- core/src/safety/paths.rs: `CanonicalRegKey` and the function that builds one.
use wardsweep.Base.{
  Bool, ◌&&◌, ◌||◌, Option, none, some, List, [], ◌∷◌, ◌++◌, ◌==◌, leb, if◌then◌else◌, length,
  is_nil, Outcome, ok, err,
}
use wardsweep.Text.Chars.{Text}
use wardsweep.Text.{codes, ascii_upper, text_eq, replace, trim, trim_matches, split_once, split}
use wardsweep.Paths.Canonical.{sep, render_components, zip_matches}

pub data Hive : Type 0 where
  hklm hkcu hku hkcr hkcc : Hive

unfoldable pub short : Hive → Text
short hklm = codes "HKLM"
short hkcu = codes "HKCU"
short hku = codes "HKU"
short hkcr = codes "HKCR"
short hkcc = codes "HKCC"

pub data RegKeyError : Type 0 where
  unknown_hive : Text → RegKeyError
  empty : RegKeyError

pub record CanonicalRegKey : Type 0 where
  pub hive : Hive
  pub components : List Text
  pub text : Text

unfoldable pub starts_with : CanonicalRegKey → List Text → Bool
starts_with key prefix =
    leb (length prefix) (length key.components) && zip_matches prefix key.components

-- The `match` on the upper-cased head.
unfoldable pub hive_of : Text → Option Hive
hive_of head =
    if text_eq head (codes "HKLM") || text_eq head (codes "HKEY_LOCAL_MACHINE")
    then some hklm
    else if text_eq head (codes "HKCU") || text_eq head (codes "HKEY_CURRENT_USER")
    then some hkcu
    else if text_eq head (codes "HKU") || text_eq head (codes "HKEY_USERS")
    then some hku
    else if text_eq head (codes "HKCR") || text_eq head (codes "HKEY_CLASSES_ROOT")
    then some hkcr
    else if text_eq head (codes "HKCC") || text_eq head (codes "HKEY_CURRENT_CONFIG")
    then some hkcc
    else none

-- `filter` the segments that are not blank, and `map` each to its trimmed upper case.
unfoldable pub key_components : List Text → List Text
key_components [] = []
key_components (segment ∷ segments) =
    let rest = key_components segments in
    if is_nil (trim segment) then rest else ascii_upper (trim segment) ∷ rest

-- The split into head and parts: the first segment, and the others.
unfoldable pub segments_after : Option Text → List Text
segments_after none = []
segments_after (some rest) = split sep rest

unfoldable pub canonicalise_reg_key : Text → Outcome RegKeyError CanonicalRegKey
canonicalise_reg_key input =
    let trimmed = trim_matches (λ c. c == sep) (trim (replace b'/' sep input)) in
    let (head, parts) = split_once sep trimmed in
    let components = key_components (segments_after parts) in
    if is_nil trimmed then err RegKeyError.empty else elim (hive_of (ascii_upper head)) [
      | none ↦ err (unknown_hive input)
      | some hive ↦ ok (record {
        hive = hive;
        components = components;
        text = short hive ++ render_components components;
      })
    ]
