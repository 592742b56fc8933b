-- ===== src/Scan/Libraries/Manifest/NoDrive.antt =====
-- core/src/scan/libraries.rs: a library is never a bare drive.
use wardsweep.Base.{
  ◌≡◌, ◌⊎◌, refl, subst, inl, inr, Bool-cases, true, false, some, Option-cases, [], ◌∷◌, ◌++◌, ◌==◌,
  is_nil, and-eq_true, arith,
}
use wardsweep.Text.Chars.{Text, char_len}
use wardsweep.Text.{codes, byte_len}
use wardsweep.Text.Laws.Slices.{byte_len-append}
use wardsweep.Text.Search.{rsplit_once_at}
use wardsweep.Scan.Libraries.Manifest.{
  is_drive, with_root, if_any, normalised, parent_or, epic_library_of,
}

-- `epic_library_of` gives a folder above its argument only when that is no bare drive.
epic_library_of_lem :
    (location : Text)
    → (epic_library_of location ≡ location) ⊎ (is_drive (epic_library_of location) ≡ false)
unfolding epic_library_of parent_or
epic_library_of_lem location = elim (Option-cases (rsplit_once_at (codes "\\") location)) [
  | inl whole ↦ rw whole (inl refl)
  | inr (split, there) ↦ elim (Bool-cases (is_drive split.0)) [
    | inl drive ↦ rw there (inl (ground (arith, drive)))
    | inr folder ↦ elim (Bool-cases (is_nil split.0)) [
      | inl nothing ↦ rw there (inl (ground (arith, nothing)))
      | inr something ↦ rw (there, folder, something) (inr folder)
    ]
  ]
]

byte_len_backslash : byte_len (b'\\' ∷ []) ≡ 1
unfolding byte_len char_len
byte_len_backslash = refl

is_drive_root : (path : Text) → is_drive path ≡ true → is_drive (path ++ (b'\\' ∷ [])) ≡ false
unfolding is_drive
is_drive_root path h = ground (
  arith,
  byte_len-append path (b'\\' ∷ []),
  byte_len_backslash,
  (and-eq_true (byte_len path == 2) _ h).0,
)

is_drive-with_root : (path : Text) → is_drive (with_root path) ≡ false
unfolding with_root
is_drive-with_root path = elim (Bool-cases (is_drive path)) [
  | inl drive ↦ rw drive (is_drive_root path drive)
  | inr folder ↦ rw folder folder
]

if_any-some : (path location : Text) → if_any path ≡ some location → path ≡ location
unfolding if_any
if_any-some [] location e = cc e
if_any-some (c ∷ path) location e = cc e

normalised-IsNoDrive :
    (path location : Text) → normalised path ≡ some location → is_drive location ≡ false
unfolding normalised
normalised-IsNoDrive path location e =
    subst (λ text. is_drive text ≡ false) (if_any-some _ location e) (is_drive-with_root _)

-- The library of an Epic game whose manifest names a location is never a bare drive like `D:`, which would
-- mean that drive's current directory.
pub epic_library_of-normalised :
    (path location : Text)
    → normalised path ≡ some location
    → is_drive (epic_library_of location) ≡ false
epic_library_of-normalised path location e = elim (epic_library_of_lem location) [
  | inl same ↦ rw same (normalised-IsNoDrive path location e)
  | inr folder ↦ folder
]
