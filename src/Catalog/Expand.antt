-- ===== src/Catalog/Expand.antt =====
-- core/src/catalog/expand.rs: the `%VAR%` placeholders of a path template.
use wardsweep.Base.{
  Bool, Option, none, some, List, [], ◌∷◌, ◌++◌, map, if◌then◌else◌, any, Outcome, ok, err,
}
use wardsweep.Text.Chars.{Text}
use wardsweep.Text.{codes, ascii_upper, text_eq, eq_ignore_case, split}

unfoldable pub known_variables : List Text
known_variables = map codes (
    "ProgramFiles" ∷ "ProgramFiles(x86)" ∷ "ProgramData" ∷ "LOCALAPPDATA" ∷ "APPDATA"
    ∷ "USERPROFILE" ∷ "SystemRoot" ∷ "PUBLIC" ∷ "STEAM_LIBRARY" ∷ "EPIC_LIBRARY" ∷ [])

pub data ExpandError : Type 0 where
  unknown_variable : Text → ExpandError
  unterminated_variable : ExpandError

-- The `match` on the upper-cased name.
unfoldable pub candidates_upper : Text → Option (List Text)
candidates_upper name =
    if text_eq name (codes "PROGRAMFILES")
    then some (codes "C:\\Program Files" ∷ [])
    else if text_eq name (codes "PROGRAMFILES(X86)")
    then some (codes "C:\\Program Files (x86)" ∷ [])
    else if text_eq name (codes "PROGRAMDATA")
    then some (codes "C:\\ProgramData" ∷ [])
    else if text_eq name (codes "LOCALAPPDATA")
    then some (codes "C:\\Users\\ExampleUser\\AppData\\Local" ∷ [])
    else if text_eq name (codes "APPDATA")
    then some (codes "C:\\Users\\ExampleUser\\AppData\\Roaming" ∷ [])
    else if text_eq name (codes "USERPROFILE")
    then some (codes "C:\\Users\\ExampleUser" ∷ [])
    else if text_eq name (codes "SYSTEMROOT")
    then some (codes "C:\\Windows" ∷ [])
    else if text_eq name (codes "PUBLIC")
    then some (codes "C:\\Users\\Public" ∷ [])
    else if text_eq name (codes "STEAM_LIBRARY")
    then some (codes "C:\\Program Files (x86)\\Steam" ∷ codes "D:\\SteamLibrary" ∷ [])
    else if text_eq name (codes "EPIC_LIBRARY")
    then some (codes "C:\\Program Files\\Epic Games" ∷ codes "D:\\Epic Games" ∷ [])
    else none

unfoldable pub candidates_for : Text → Option (List Text)
candidates_for name = candidates_upper (ascii_upper name)

abbrev pub or_nil : Option (List Text) → List Text
or_nil none = []
or_nil (some values) = values

-- The `flat_map`: each result so far, then the literal, then each value.
unfoldable pub extend_one : Text → Text → List Text → List Text
extend_one prefix literal [] = []
extend_one prefix literal (value ∷ values) =
    (prefix ++ (literal ++ value)) ∷ extend_one prefix literal values

unfoldable pub extend : List Text → Text → List Text → List Text
extend [] literal values = []
extend (prefix ∷ prefixes) literal values =
    extend_one prefix literal values ++ extend prefixes literal values

unfoldable pub is_known : Text → Bool
is_known name = any (λ known. eq_ignore_case known name) known_variables

-- The `while` loop, over the pieces between `%` signs: `rest.find('%')` ends a piece, and the piece
-- behind it is a name if a further `%` ends that.
unfoldable pub expand_pieces :
    (Text → Option (List Text)) → List Text → List Text → Outcome ExpandError (List Text)
expand_pieces values results [] = ok results
expand_pieces values results (rest ∷ []) = ok (map (λ result. result ++ rest) results)
expand_pieces values results (literal ∷ after ∷ []) = err unterminated_variable
expand_pieces values results (literal ∷ name ∷ rest ∷ pieces) =
    let expanded =
      expand_pieces values (extend results literal (or_nil (values name))) (rest ∷ pieces) in
    if is_known name then expanded else err (unknown_variable name)

unfoldable pub expand_with : Text → (Text → Option (List Text)) → Outcome ExpandError (List Text)
expand_with template values = expand_pieces values ([] ∷ []) (split b'%' template)

unfoldable pub expand_for_validation : Text → Outcome ExpandError (List Text)
expand_for_validation template = expand_with template candidates_for
