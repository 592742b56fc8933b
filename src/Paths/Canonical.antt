-- ===== src/Paths/Canonical.antt =====
-- core/src/safety/paths.rs: `CanonicalPath` and the two functions that build one.
use wardsweep.Base.{
  ℕ, Bool, true, false, not, ◌&&◌, ◌||◌, Option, none, some, List, [], ◌∷◌, ◌++◌, ◌==◌, leb,
  if◌then◌else◌, length, is_nil, all, init, Outcome, ok, err, or_panic, ◌>>=◌,
}
use wardsweep.Text.Chars.{Text, is_alphabetic, is_digit, to_upper}
use wardsweep.Text.{
  codes, ascii_upper, text_eq, eq_ignore_case, contains, replace, byte_len, split_at_byte, trim,
  trim_end, split, split_once, after_last, strip_prefix,
}

pub data PathKind : Type 0 where
  drive_rooted unc device : PathKind

pub data PathError : Type 0 where
  empty embedded_nul : PathError
  not_absolute escapes_root malformed_unc dots_only_component stream_syntax : Text → PathError

pub record CanonicalPath : Type 0 where
  pub text : Text
  pub kind : PathKind
  pub drive : Option ℕ
  pub components : List Text
  pub short_name : Bool
  pub resolved_via_handle : Bool

-- `prefix.iter().zip(&self.components).all(..)`, which stops at the shorter list
unfoldable pub zip_matches : List Text → List Text → Bool
zip_matches [] haves = true
zip_matches (want ∷ wants) [] = true
zip_matches (want ∷ wants) (have ∷ haves) = eq_ignore_case have want && zip_matches wants haves

unfoldable pub starts_with : CanonicalPath → List Text → Bool
starts_with path prefix =
    leb (length prefix) (length path.components) && zip_matches prefix path.components

unfoldable pub equals : CanonicalPath → List Text → Bool
equals path whole = length whole == length path.components && starts_with path whole

abbrev pub sep : ℕ
sep = b'\\'

unfoldable pub strip_prefix_ci : Text → Text → Outcome PathError (Option Text)
strip_prefix_ci haystack prefix =
    if leb (byte_len prefix) (byte_len haystack)
    then (do
      halves ← or_panic (split_at_byte (byte_len prefix) haystack)
      ok (if eq_ignore_case halves.0 prefix then some halves.1 else none))
    else ok none

unfoldable pub starts_with_globalroot : Text → Outcome PathError Bool
starts_with_globalroot rest = do
  tail ← strip_prefix_ci rest (codes "GLOBALROOT\\")
  ok (elim tail [ some _ ↦ true | none ↦ eq_ignore_case rest (codes "GLOBALROOT") ])

-- The tests on `bytes[0]`, `bytes[1]` and `bytes[2]` pass on ASCII characters alone, so they read
-- the first characters: `X:\..` and the bare `X:`.
unfoldable pub drive_root : Text → Text → Outcome PathError (PathKind × Text × Text)
drive_root (letter ∷ colon ∷ []) original =
    if is_alphabetic letter && colon == b':'
    then ok (drive_rooted, to_upper letter ∷ b':' ∷ [], [])
    else err (not_absolute original)
drive_root (letter ∷ colon ∷ slash ∷ rest) original =
    if is_alphabetic letter && colon == b':' && slash == sep
    then ok (drive_rooted, to_upper letter ∷ b':' ∷ [], rest)
    else err (not_absolute original)
drive_root _ original = err (not_absolute original)

abbrev pub or_empty : Option Text → Text
or_empty none = []
or_empty (some t) = t

-- `rest.splitn(3, '\\')`: the host, the share and the tail
unfoldable pub unc_root : Text → Text → Outcome PathError (PathKind × Text × Text)
unc_root rest original =
    let (host, after_host) = split_once sep rest in
    let (share, tail) = split_once sep (or_empty after_host) in
    if is_nil host || is_nil share
    then err (malformed_unc original)
    else ok (unc, sep ∷ sep ∷ host ++ (sep ∷ share), or_empty tail)

-- The last two tests of `split_root`: the NT object namespace and plain UNC, then a drive.
unfoldable pub plain_root : Text → Outcome PathError (PathKind × Text × Text)
plain_root path = elim (strip_prefix path (codes "\\??\\")) [
  | some rest ↦ ok (device, codes "\\??\\", rest)
  | none ↦ elim (strip_prefix path (codes "\\\\")) [
    | some rest ↦ unc_root rest path
    | none ↦ drive_root path path
  ]
]

-- What follows `\\?\`: `GLOBALROOT` or a drive.
unfoldable pub extended_root : Text → Text → Outcome PathError (PathKind × Text × Text)
extended_root rest path = do
  global ← starts_with_globalroot rest
  if global then ok (device, codes "\\\\?\\", rest) else drive_root rest path

-- `\\.\..`, and the forms of `plain_root`
unfoldable pub device_root : Text → Outcome PathError (PathKind × Text × Text)
device_root path = do
  dotted ← strip_prefix_ci path (codes "\\\\.\\")
  elim dotted [ some rest ↦ ok (device, codes "\\\\.\\", rest) | none ↦ plain_root path ]

-- `\\?\..`, and the forms of `device_root`
unfoldable pub long_root : Text → Outcome PathError (PathKind × Text × Text)
long_root path = do
  long ← strip_prefix_ci path (codes "\\\\?\\")
  elim long [ some rest ↦ extended_root rest path | none ↦ device_root path ]

unfoldable pub split_root : Text → Outcome PathError (PathKind × Text × Text)
split_root path = do
  long_unc ← strip_prefix_ci path (codes "\\\\?\\UNC\\")
  elim long_unc [ some rest ↦ unc_root rest path | none ↦ long_root path ]

-- `segment.split('.').next()`, then what follows the last `~`
unfoldable pub is_short_name : Text → Bool
is_short_name segment = elim (after_last b'~' (split_once b'.' segment).0) [
  | some suffix ↦ not (is_nil suffix) && all is_digit suffix
  | none ↦ false
]

abbrev pub dot_or_space : ℕ → Bool
dot_or_space c = c == b'.' || c == b' '

abbrev pub is_device : PathKind → Bool
is_device device = true
is_device _ = false

-- One pass of the loop of `normalise_components`, over `out` and `short_name`.
unfoldable pub normalise_segment :
    Text → PathKind → Text → List Text × Bool → Outcome PathError (List Text × Bool)
normalise_segment original kind raw (out, short_name) =
    let segment = trim_end dot_or_space raw in
    if is_nil raw || text_eq raw (codes ".")
    then ok (out, short_name)
    else if text_eq raw (codes "..")
    then if is_nil out then err (escapes_root original) else ok (init out, short_name)
    else if is_nil segment
    then err (dots_only_component original)
    else if not (is_device kind) && contains b':' segment
    then err (stream_syntax original)
    else ok (out ++ (ascii_upper segment ∷ []), is_short_name segment || short_name)

unfoldable pub normalise_loop :
    Text → PathKind → List Text → List Text × Bool → Outcome PathError (List Text × Bool)
normalise_loop original kind [] state = ok state
normalise_loop original kind (raw ∷ raws) state = do
  next ← normalise_segment original kind raw state
  normalise_loop original kind raws next

unfoldable pub normalise_components : Text → Text → PathKind → Outcome PathError (List Text × Bool)
normalise_components rest original kind = normalise_loop original kind (split sep rest) ([], false)

-- Each component behind a separator.
unfoldable pub render_components : List Text → Text
render_components [] = []
render_components (component ∷ components) = sep ∷ component ++ render_components components

abbrev pub is_drive_rooted : PathKind → Bool
is_drive_rooted drive_rooted = true
is_drive_rooted _ = false

unfoldable pub render : PathKind → Text → List Text → Text
render kind root components =
    root
    ++ ((if is_drive_rooted kind && is_nil components then sep ∷ [] else [])
        ++ render_components components)

-- `root.chars().next()`, in upper case
abbrev pub drive_of : PathKind → Text → Option ℕ
drive_of drive_rooted (c ∷ root) = some (to_upper c)
drive_of _ _ = none

-- The record at the end of `canonicalise_syntactic`.
unfoldable pub assemble : PathKind → Text → List Text × Bool → CanonicalPath
assemble kind root (components, short_name) = record {
  text = render kind root components;
  kind = kind;
  drive = drive_of kind root;
  components = components;
  short_name = short_name;
  resolved_via_handle = false;
}

-- The body behind the two early returns, on the trimmed text.
unfoldable pub canonicalise_trimmed : Text → Outcome PathError CanonicalPath
canonicalise_trimmed trimmed = do
  (kind, root, rest) ← split_root trimmed
  normalised ← normalise_components rest trimmed kind
  ok (assemble kind root normalised)

unfoldable pub canonicalise_syntactic : Text → Outcome PathError CanonicalPath
canonicalise_syntactic input =
    let trimmed = trim (replace b'/' sep input) in
    if contains 0 input
    then err embedded_nul
    else if is_nil trimmed
    then err PathError.empty
    else canonicalise_trimmed trimmed

unfoldable pub canonicalise_resolved : Text → Outcome PathError CanonicalPath
canonicalise_resolved final_path = do
  path ← canonicalise_syntactic final_path
  ok (record path { resolved_via_handle = true; short_name = false })
