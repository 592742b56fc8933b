-- ===== src/Examples/LibraryExamples.antt =====
-- Runs of core/src/scan/libraries.rs.
use mathlib.Core.List.{Memᴰ}
use wardsweep.Base.{◌≡◌, ◌↔◌, refl, false, some, [], ◌∷◌, All, any}
use wardsweep.Text.Chars.{is_whitespace, char_len}
use wardsweep.Text.{
  codes, byte_len, ends_with, replace, trim, trim_start, trim_end, trim_matches, text_eq,
}
use wardsweep.Scan.Libraries.{steam, Library, common}
use wardsweep.Scan.Libraries.Common.{IsNamed, common_iff}
use wardsweep.Scan.Libraries.Manifest.{is_drive, with_root, if_any, normalised, epic_library_of}
use wardsweep.Scan.Libraries.Manifest.NoDrive.{epic_library_of-normalised}

abbrev a_library : Library
a_library = record { launcher = steam; path = codes "D:\\SteamLibrary" }

abbrev shouted : Library
shouted = record { launcher = steam; path = codes "D:\\STEAMLIBRARY" }

common_iff_example :
    Memᴰ a_library (common ((a_library ∷ []) ∷ (shouted ∷ []) ∷ []))
    ↔ (Memᴰ a_library (a_library ∷ []) × All (IsNamed a_library) ((shouted ∷ []) ∷ []))
common_iff_example = common_iff a_library (a_library ∷ []) ((shouted ∷ []) ∷ [])

drive_is_rooted : normalised (codes "E:/") ≡ some (codes "E:\\")
unfolding any text_eq byte_len ends_with replace trim trim_start trim_end trim_matches is_whitespace
    char_len is_drive with_root if_any normalised
drive_is_rooted = refl

epic_library_of-normalised_example : is_drive (epic_library_of (codes "E:\\")) ≡ false
epic_library_of-normalised_example =
    epic_library_of-normalised (codes "E:/") (codes "E:\\") drive_is_rooted
