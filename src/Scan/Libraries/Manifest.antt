-- ===== src/Scan/Libraries/Manifest.antt =====
-- core/src/scan/libraries.rs: what is made of the paths that a launcher's manifests name.
pub mod NoDrive
use wardsweep.Base.{
  ◌≡◌, ◌⊎◌, refl, subst, inl, inr, Bool, Bool-cases, true, false, not, ◌&&◌, ◌||◌, Option, none,
  some, Option-cases, List, [], ◌∷◌, ◌++◌, ◌==◌, is_nil, ltb, if◌then◌else◌, and-eq_true, arith,
}
use wardsweep.Text.Chars.{Text, char_len}
use wardsweep.Text.{
  codes, ascii_lower, byte_len, ends_with, eq_ignore_case, replace, trim, trim_end,
}
use wardsweep.Text.Search.{rsplit_once_at, text_before}
use wardsweep.Scan.Libraries.{Launcher, steam, epic, Library, same_launcher}

unfoldable pub variable_of : Launcher → Text
variable_of steam = codes "STEAM_LIBRARY"
variable_of epic = codes "EPIC_LIBRARY"

-- `Library::variable`
unfoldable pub variable : Library → Text
variable library = variable_of library.launcher

unfoldable pub is_drive : Text → Bool
is_drive path = byte_len path == 2 && ends_with path (codes ":")

unfoldable pub with_root : Text → Text
with_root path = if is_drive path then path ++ (b'\\' ∷ []) else path

unfoldable pub if_any : Text → Option Text
if_any path = if not (is_nil path) then some path else none

unfoldable pub normalised : Text → Option Text
normalised path = if_any (with_root (trim_end (λ c. c == b'\\') (replace b'/' b'\\' (trim path))))

-- The `match` of `epic_library_of`.
unfoldable pub parent_or : Text → Option (Text × Text) → Text
parent_or location none = location
parent_or location (some (parent, game)) =
    if not (is_nil parent) && not (is_drive parent) then parent else location

unfoldable pub epic_library_of : Text → Text
epic_library_of location = parent_or location (rsplit_once_at (codes "\\") location)

-- The order that `deduplicated` sorts by: the launcher, then the path in lower case.
unfoldable pub launcher_before : Launcher → Launcher → Bool
launcher_before steam epic = true
launcher_before _ _ = false

unfoldable pub is_behind : Library → Library → Bool
is_behind left right =
    launcher_before right.launcher left.launcher
    || same_launcher left.launcher right.launcher
      && text_before (ascii_lower right.path) (ascii_lower left.path)

-- `sort_by`, which is stable.
unfoldable pub insert_library : Library → List Library → List Library
insert_library library [] = library ∷ []
insert_library library (other ∷ libraries) =
    if is_behind library other
    then other ∷ insert_library library libraries
    else library ∷ other ∷ libraries

unfoldable pub sort_libraries : List Library → List Library
sort_libraries [] = []
sort_libraries (library ∷ libraries) = insert_library library (sort_libraries libraries)

unfoldable pub is_repeated : Library → Library → Bool
is_repeated later earlier =
    same_launcher later.launcher earlier.launcher && eq_ignore_case later.path earlier.path

-- `dedup_by`: of neighbours that are the same the first stays.
unfoldable pub dedup_from : Library → List Library → List Library
dedup_from earlier [] = []
dedup_from earlier (later ∷ libraries) =
    let behind_earlier = dedup_from earlier libraries in
    let behind_later = later ∷ dedup_from later libraries in
    if is_repeated later earlier then behind_earlier else behind_later

unfoldable pub dedup_libraries : List Library → List Library
dedup_libraries [] = []
dedup_libraries (library ∷ libraries) = library ∷ dedup_from library libraries

unfoldable pub deduplicated : List Library → List Library
deduplicated libraries = dedup_libraries (sort_libraries libraries)
