-- ===== src/Scan/Image.antt =====
-- core/src/scan/engine.rs: `image_file` and `file_name`, a service's configured image as a path. A slice
-- inside a character would panic: `none`.
pub mod Total
use wardsweep.Base.{
  ℕ, ◌+◌, ◌-◌, Option, none, some, List, [], ◌∷◌, ◌++◌, if◌then◌else◌, is_nil, leb, head_or,
}
use wardsweep.Text.Chars.{Text, is_whitespace}
use wardsweep.Text.{
  codes, ascii_lower, byte_len, find, split_at_byte, split, starts_with, strip_prefix, after_last,
  trim,
}

-- The least of the ends of the extensions that occur.
abbrev pub least : Option ℕ → Option ℕ → Option ℕ
least none b = b
least (some a) none = some a
least (some a) (some b) = some (if leb a b then a else b)

abbrev pub plus : ℕ → Option ℕ → Option ℕ
plus n none = none
plus n (some at) = some (at + n)

unfoldable pub executable_end : Text → List Text → Option ℕ
executable_end lowered [] = none
executable_end lowered (extension ∷ extensions) =
    least (plus (byte_len extension) (find extension lowered)) (executable_end lowered extensions)

abbrev pub extensions : List Text
extensions = codes ".exe" ∷ codes ".sys" ∷ codes ".dll" ∷ []

-- `&text[..end]` and `&text[start..]`
abbrev pub first_part : Option (Text × Text) → Option Text
first_part none = none
first_part (some (head, rest)) = some head

abbrev pub second_part : Option (Text × Text) → Option Text
second_part none = none
second_part (some (head, rest)) = some rest

unfoldable pub slice_to : ℕ → Text → Option Text
slice_to end text = first_part (split_at_byte end text)

unfoldable pub slice_from : ℕ → Text → Option Text
slice_from start text = second_part (split_at_byte start text)

-- The `map_or` on the end that was found.
unfoldable pub cut_at : Text → Option ℕ → Option Text
cut_at text none = some text
cut_at text (some end) = slice_to end text

unfoldable pub unquoted : Text → Option Text → Option Text
unquoted text (some quoted) = some (head_or [] (split b'"' quoted))
unquoted text none = cut_at text (executable_end (ascii_lower text) extensions)

-- Quotes and arguments removed.
unfoldable pub without_arguments : Text → Option Text
without_arguments text = unquoted text (strip_prefix text (codes "\""))

abbrev pub under : Text → Option Text → Option Text
under root none = none
under root (some rest) = some (root ++ (b'\\' ∷ rest))

-- The spellings behind `%systemroot%`.
unfoldable pub kernel_spelling : Text → Text → Option Text
kernel_spelling text system_root =
    if starts_with (ascii_lower text) (codes "\\??\\")
    then slice_from 4 text
    else if starts_with (ascii_lower text) (codes "system32\\")
    then some (system_root ++ (b'\\' ∷ text))
    else some text

unfoldable pub percent_spelling : Text → Text → Option Text → Option Text
percent_spelling text system_root (some rest) =
    under system_root (slice_from (byte_len text - byte_len rest) text)
percent_spelling text system_root none = kernel_spelling text system_root

unfoldable pub system_root_spelling : Text → Text → Option Text → Option Text
system_root_spelling text system_root (some rest) =
    under system_root (slice_from (byte_len text - byte_len rest) text)
system_root_spelling text system_root none =
    percent_spelling text system_root (strip_prefix (ascii_lower text) (codes "%systemroot%\\"))

-- The kernel's own spellings, written out.
unfoldable pub expand_image : Text → Text → Option Text
expand_image text system_root =
    system_root_spelling text system_root (strip_prefix (ascii_lower text) (codes "\\systemroot\\"))

abbrev pub known : Option Text → Option (Option Text)
known none = none
known (some text) = some (some text)

unfoldable pub image_of : Text → Option Text → Option (Option Text)
image_of system_root none = none
image_of system_root (some text) =
    if is_nil (trim text) then some none else known (expand_image (trim text) system_root)

unfoldable pub image_file : Text → Text → Option (Option Text)
image_file configured system_root = image_of system_root (without_arguments (trim configured))

abbrev pub or_else : Option Text → Text → Text
or_else none text = text
or_else (some name) text = name

-- `rsplit('\\').next()`, unless it is empty
unfoldable pub file_name : Text → Option Text
file_name path =
    let name = or_else (after_last b'\\' path) path in if is_nil name then none else some name
