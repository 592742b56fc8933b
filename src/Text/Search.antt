-- ===== src/Text/Search.antt =====
-- More of Rust's `str`: searching and splitting by a text, order, joining, and numbers in decimal.
pub mod Decimal
use Prim.Native.Nat.{◌/◌, ◌%◌}
use wardsweep.Base.{
  ℕ, zero, suc, ◌+◌, Bool, true, false, ◌&&◌, ◌||◌, Option, none, some, List, [], ◌∷◌, ◌++◌, ltb,
  ◌==◌, if◌then◌else◌, is_nil,
}
use wardsweep.Text.Chars.{Text, between}
use wardsweep.Text.{text_eq, starts_with, strip_prefix}

-- `str::contains(&str)`
unfoldable pub contains_text : Text → Text → Bool
contains_text pattern_ [] = is_nil pattern_
contains_text pattern_ (c ∷ t) = starts_with (c ∷ t) pattern_ || contains_text pattern_ t

-- The order of `str`: by bytes in UTF-8, which is that of the code points.
unfoldable pub text_before : Text → Text → Bool
text_before [] [] = false
text_before [] (d ∷ u) = true
text_before (c ∷ t) [] = false
text_before (c ∷ t) (d ∷ u) = ltb c d || c == d && text_before t u

abbrev pub cons_before : ℕ → Option (Text × Text) → Option (Text × Text)
cons_before c none = none
cons_before c (some (t, u)) = some (c ∷ t, u)

abbrev pub first_of : {A : Type 0} → Option A → Option A → Option A
first_of none b = b
first_of (some a) b = some a

abbrev pub behind_prefix : Option Text → Option (Text × Text)
behind_prefix none = none
behind_prefix (some rest) = some ([], rest)

-- `str::split_once(&str)` and `str::rsplit_once(&str)`
unfoldable pub split_once_at : Text → Text → Option (Text × Text)
split_once_at pattern_ [] = behind_prefix (strip_prefix [] pattern_)
split_once_at pattern_ (c ∷ t) =
    first_of (behind_prefix (strip_prefix (c ∷ t) pattern_))
      (cons_before c (split_once_at pattern_ t))

unfoldable pub rsplit_once_at : Text → Text → Option (Text × Text)
rsplit_once_at pattern_ [] = behind_prefix (strip_prefix [] pattern_)
rsplit_once_at pattern_ (c ∷ t) =
    first_of (cons_before c (rsplit_once_at pattern_ t))
      (behind_prefix (strip_prefix (c ∷ t) pattern_))

-- `str::strip_suffix(&str)`
unfoldable pub strip_suffix : Text → Text → Option Text
strip_suffix [] suffix = if is_nil suffix then some [] else none
strip_suffix (c ∷ t) suffix =
    if text_eq (c ∷ t) suffix
    then some []
    else elim (strip_suffix t suffix) [ some rest ↦ some (c ∷ rest) | none ↦ none ]

-- `[String]::join(&str)`
unfoldable pub join : Text → List Text → Text
join separator [] = []
join separator (t ∷ []) = t
join separator (t ∷ u ∷ rest) = t ++ (separator ++ join separator (u ∷ rest))

-- `to_string` on a number, with the number of digits as fuel at most.
unfoldable pub digits : ℕ → ℕ → Text
digits zero n = []
digits (suc fuel) n =
    let more = digits fuel (n / 10) ++ ((b'0' + n % 10) ∷ []) in
    if ltb n 10 then (b'0' + n) ∷ [] else more

unfoldable pub decimal : ℕ → Text
decimal n = digits (suc n) n

-- `char::is_ascii_hexdigit`
unfoldable pub is_hex_digit : ℕ → Bool
is_hex_digit c = between b'0' b'9' c || between b'a' b'f' c || between b'A' b'F' c
