-- ===== src/Text.antt =====
-- Rust's `str` and `char` operations, on the code points of a text. Byte lengths and byte offsets
-- are those of its UTF-8 form, and a slice that would split a character panics.
pub mod Chars
pub mod Laws
pub mod Search
use Prim.Native.Char.{code}
use wardsweep.Base.{
  ℕ, zero, suc, ◌+◌, ◌-◌, String, Bool, true, false, ◌&&◌, ◌||◌, Option, none, some, List, [], ◌∷◌,
  map, leb, ◌==◌, if◌then◌else◌, is_nil, any, all, Outcome, ok, or_panic, ◌>>=◌,
}
use Chars.{Text, to_lower, to_upper, char_len, is_whitespace}

-- A literal of the source.
abbrev pub codes : String → Text
codes String.[] = []
codes (String.◌∷◌ c s) = code c ∷ codes s

-- `str::to_ascii_uppercase`, `str::to_ascii_lowercase`
unfoldable pub ascii_upper : Text → Text
ascii_upper t = map to_upper t

unfoldable pub ascii_lower : Text → Text
ascii_lower t = map to_lower t

-- `==` on `str`
unfoldable pub text_eq : Text → Text → Bool
text_eq [] [] = true
text_eq [] (d ∷ u) = false
text_eq (c ∷ t) [] = false
text_eq (c ∷ t) (d ∷ u) = c == d && text_eq t u

-- `str::eq_ignore_ascii_case`
unfoldable pub eq_ignore_case : Text → Text → Bool
eq_ignore_case t u = text_eq (ascii_lower t) (ascii_lower u)

-- `str::contains(char)`
unfoldable pub contains : ℕ → Text → Bool
contains c t = any (λ x. x == c) t

-- `str::replace(char, one character)`
unfoldable pub replace : ℕ → ℕ → Text → Text
replace a b t = map (λ c. if c == a then b else c) t

-- `str::len`
unfoldable pub byte_len : Text → ℕ
byte_len [] = 0
byte_len (c ∷ t) = char_len c + byte_len t

abbrev pub cons_fst : ℕ → Option (Text × Text) → Option (Text × Text)
cons_fst c none = none
cons_fst c (some (t, u)) = some (c ∷ t, u)

-- `&s[..n]` and `&s[n..]`; `none` is the panic of an offset that is out of range or inside a
-- character.
unfoldable pub split_at_byte : ℕ → Text → Option (Text × Text)
split_at_byte zero t = some ([], t)
split_at_byte (suc n) [] = none
split_at_byte (suc n) (c ∷ t) =
    if leb (char_len c) (suc n) then cons_fst c (split_at_byte (suc n - char_len c) t) else none

-- `str::trim_start_matches`, `str::trim_end_matches`
unfoldable pub trim_start : (ℕ → Bool) → Text → Text
trim_start p [] = []
trim_start p (c ∷ t) = if p c then trim_start p t else c ∷ t

abbrev pub trim_cons : (ℕ → Bool) → ℕ → Text → Text
trim_cons p c [] = if p c then [] else c ∷ []
trim_cons p c (d ∷ t) = c ∷ d ∷ t

unfoldable pub trim_end : (ℕ → Bool) → Text → Text
trim_end p [] = []
trim_end p (c ∷ t) = trim_cons p c (trim_end p t)

-- `str::trim_matches` and `str::trim`
unfoldable pub trim_matches : (ℕ → Bool) → Text → Text
trim_matches p t = trim_end p (trim_start p t)

unfoldable pub trim : Text → Text
trim t = trim_matches is_whitespace t

-- `str::split(char)`: never empty.
abbrev pub cons_head : ℕ → List Text → List Text
cons_head c [] = (c ∷ []) ∷ []
cons_head c (t ∷ ts) = (c ∷ t) ∷ ts

unfoldable pub split_by : (ℕ → Bool) → Text → List Text
split_by p [] = [] ∷ []
split_by p (c ∷ t) = let rest = split_by p t in if p c then [] ∷ rest else cons_head c rest

unfoldable pub split : ℕ → Text → List Text
split sep t = split_by (λ c. c == sep) t

-- `str::split_once(char)`, with the absent second part as `none`
unfoldable pub split_once : ℕ → Text → Text × Option Text
split_once sep [] = ([], none)
split_once sep (c ∷ t) =
    let (u, rest) = split_once sep t in if c == sep then ([], some t) else (c ∷ u, rest)

-- What follows the last occurrence: `&s[s.rfind(char)? + 1..]` for a character of one byte.
unfoldable pub after_last : ℕ → Text → Option Text
after_last sep [] = none
after_last sep (c ∷ t) = elim (after_last sep t) [
  | some r ↦ some r
  | none ↦ if c == sep then some t else none
]

-- `str::strip_prefix(&str)`
unfoldable pub strip_prefix : Text → Text → Option Text
strip_prefix t [] = some t
strip_prefix [] (p ∷ ps) = none
strip_prefix (c ∷ t) (p ∷ ps) = if c == p then strip_prefix t ps else none

-- `str::starts_with(&str)`
unfoldable pub starts_with : Text → Text → Bool
starts_with t [] = true
starts_with [] (p ∷ ps) = false
starts_with (c ∷ t) (p ∷ ps) = c == p && starts_with t ps

-- `str::ends_with(&str)`
unfoldable pub ends_with : Text → Text → Bool
ends_with [] q = text_eq [] q
ends_with (c ∷ t) q = text_eq (c ∷ t) q || ends_with t q

-- `str::find(&str)`: the byte offset of the first occurrence.
abbrev pub add_offset : ℕ → Option ℕ → Option ℕ
add_offset n none = none
add_offset n (some at) = some (n + at)

unfoldable pub find : Text → Text → Option ℕ
find pattern_ [] = if is_nil pattern_ then some 0 else none
find pattern_ (c ∷ t) =
    let later = add_offset (char_len c) (find pattern_ t) in
    if starts_with (c ∷ t) pattern_ then some 0 else later
