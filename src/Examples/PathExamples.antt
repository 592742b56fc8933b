-- ===== src/Examples/PathExamples.antt =====
-- Runs of core/src/safety/paths.rs.
use wardsweep.Base.{◌≡◌, refl, false, some, [], ◌∷◌, map, ok, err, panic}
use wardsweep.Text.{codes}
use wardsweep.Paths.Canonical.{drive_rooted, CanonicalPath, escapes_root, canonicalise_syntactic}
use wardsweep.Paths.WellFormed.{IsCanonical, canonicalise_syntactic-IsCanonical}
use wardsweep.Examples.Running.{paths}

abbrev pub riot : CanonicalPath
riot = record {
  text = codes "C:\\PROGRAM FILES\\RIOT GAMES";
  kind = drive_rooted;
  drive = some b'C';
  components = map codes ("PROGRAM FILES" ∷ "RIOT GAMES" ∷ []);
  short_name = false;
  resolved_via_handle = false;
}

riot_spelling :
    canonicalise_syntactic (codes " \\\\?\\c:/Program Files/Common/.././/Riot Games. ") ≡ ok riot
unfolding paths
riot_spelling = refl

escaping :
    canonicalise_syntactic (codes "C:\\a\\..\\..\\b")
    ≡ err (escapes_root (codes "C:\\a\\..\\..\\b"))
unfolding paths
escaping = refl

-- The byte offset 4 lies inside the character behind `C:\`.
accented_panics : canonicalise_syntactic (b'C' ∷ b':' ∷ b'\\' ∷ 0xe9 ∷ []) ≡ panic
unfolding paths
accented_panics = refl

canonicalise_syntactic-IsCanonical_example : IsCanonical riot
canonicalise_syntactic-IsCanonical_example =
    canonicalise_syntactic-IsCanonical (codes " \\\\?\\c:/Program Files/Common/.././/Riot Games. ")
      riot riot_spelling
