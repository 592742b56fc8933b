-- ===== src/Scan/Libraries.antt =====
-- core/src/scan/libraries.rs: the libraries that two walks have in common.
pub mod Retain
pub mod Common
pub mod Manifest
use wardsweep.Base.{Bool, true, false, ◌&&◌, List, [], ◌∷◌, ◌++◌, any, if◌then◌else◌}
use wardsweep.Text.Chars.{Text}
use wardsweep.Text.{codes, eq_ignore_case}

pub data Launcher : Type 0 where
  steam epic : Launcher

pub record Library : Type 0 where
  pub launcher : Launcher
  pub path : Text

abbrev pub games_of : Launcher → Text → Text
games_of steam path = path ++ codes "\\steamapps\\common"
games_of epic path = path

-- `Library::games`
unfoldable pub games : Library → Text
games library = games_of library.launcher library.path

unfoldable pub same_launcher : Launcher → Launcher → Bool
same_launcher steam steam = true
same_launcher epic epic = true
same_launcher _ _ = false

unfoldable pub same_library : Library → Library → Bool
same_library library other =
    same_launcher other.launcher library.launcher && eq_ignore_case other.path library.path

-- `Vec::retain`
unfoldable pub retain : {A : Type 0} → (A → Bool) → List A → List A
retain p [] = []
retain p (x ∷ xs) = if p x then x ∷ retain p xs else retain p xs

unfoldable pub common_with : List Library → List (List Library) → List Library
common_with kept [] = kept
common_with kept (list ∷ lists) =
    common_with (retain (λ library. any (same_library library) list) kept) lists

unfoldable pub common : List (List Library) → List Library
common [] = []
common (first ∷ lists) = common_with first lists
