-- ===== src/Catalog/Validate/Fields.antt =====
-- core/src/catalog/validate.rs: the checks of single fields that `validate` applies.
use wardsweep.Base.{
  ℕ, Bool, true, false, not, ◌&&◌, ◌||◌, Option, none, some, List, [], ◌∷◌, ◌==◌, if◌then◌else◌,
  all, is_nil, last, init, find_map, Outcome, ok, err, panic,
}
use wardsweep.Text.Chars.{Text, between}
use wardsweep.Text.{codes, text_eq, contains, byte_len, split, split_by, ends_with}
use wardsweep.Paths.Canonical.{CanonicalPath, PathError, canonicalise_syntactic}
use wardsweep.Paths.RegKey.{CanonicalRegKey, RegKeyError, canonicalise_reg_key}
use wardsweep.Catalog.Schema.{Class, save, PathEntry, RegistryEntry}
use wardsweep.Catalog.Expand.{ExpandError, expand_for_validation}
use wardsweep.Catalog.Problems.{
  Checked, Location, field, item, Message, not_kebab_case, wildcard, relative_component,
  trailing_dot_or_space, save_outside_saves, not_save_in_saves, save_for_registry, cannot_expand,
  does_not_canonicalise, bad_registry_key, problem, nothing, ◌⊕◌, each,
}

abbrev pub is_hexdigit : ℕ → Bool
is_hexdigit c = between b'0' b'9' c || between b'a' b'f' c || between b'A' b'F' c

-- 64 hex characters; the bytes of a text are hex digits exactly when its characters are.
unfoldable pub is_hash : Text → Bool
is_hash hash = byte_len hash == 64 && all is_hexdigit hash

abbrev pub group_lengths : List Text → Bool
group_lengths (a ∷ b ∷ c ∷ d ∷ e ∷ []) =
    byte_len a == 8 && byte_len b == 4 && byte_len c == 4 && byte_len d == 4 && byte_len e == 12
group_lengths _ = false

unfoldable pub is_product_code : Text → Bool
is_product_code inner =
    group_lengths (split b'-' inner) && all (λ c. is_hexdigit c || c == b'-') inner

abbrev pub is_brace : Option ℕ → Bool
is_brace none = false
is_brace (some c) = c == b'}'

-- `strip_prefix('{')` and `strip_suffix('}')`
unfoldable pub looks_like_product_code : Text → Bool
looks_like_product_code [] = false
looks_like_product_code (open_brace ∷ rest) =
    open_brace == b'{' && is_brace (last rest) && is_product_code (init rest)

unfoldable pub is_kebab_segment : Text → Bool
is_kebab_segment segment =
    not (is_nil segment) && all (λ c. between b'a' b'z' c || between b'0' b'9' c) segment

unfoldable pub is_kebab : Text → Bool
is_kebab id = not (is_nil id) && all is_kebab_segment (split b'-' id)

unfoldable pub check_id : Location → Text → Checked
check_id at id =
    if is_kebab id then nothing else problem (field at (codes "id")) (not_kebab_case id)

abbrev pub is_save : Class → Bool
is_save save = true
is_save _ = false

unfoldable pub component_problem : Text → Option Message
component_problem component =
    if text_eq component (codes ".") || text_eq component (codes "..")
    then some (relative_component component)
    else if ends_with component (codes ".") || ends_with component (codes " ")
    then some (trailing_dot_or_space component)
    else none

unfoldable pub non_canonical_component : Text → Option Message
non_canonical_component template =
    find_map component_problem (split_by (λ c. c == b'\\' || c == b'/') template)

abbrev pub report_component : Location → Option Message → Checked
report_component at none = nothing
report_component at (some message) = problem at message

unfoldable pub canonicalised : Location → Text → Outcome PathError CanonicalPath → Checked
canonicalised at path (ok _) = nothing
canonicalised at path (err error) = problem at (does_not_canonicalise path error)
canonicalised at path panic = none

-- `for expansion in expansions`
unfoldable pub check_each_expansion : Location → Text → List Text → Checked
check_each_expansion at path [] = nothing
check_each_expansion at path (expansion ∷ expansions) =
    canonicalised at path (canonicalise_syntactic expansion)
    ⊕ check_each_expansion at path expansions

unfoldable pub expanded : Location → Text → Outcome ExpandError (List Text) → Checked
expanded at path (ok expansions) = check_each_expansion at path expansions
expanded at path (err error) = problem at (cannot_expand error)
expanded at path panic = none

unfoldable pub check_class : Location → Bool → Class → Checked
check_class at expect_save_class class =
    if expect_save_class && not (is_save class)
    then problem at save_outside_saves
    else if not expect_save_class && is_save class
    then problem at not_save_in_saves
    else nothing

unfoldable pub check_wildcard : Location → Text → Checked
check_wildcard at path =
    if contains b'*' path || contains b'?' path then problem at (wildcard path) else nothing

unfoldable pub check_path_entry : Location → Text → Bool → ℕ → PathEntry → Checked
check_path_entry at name expect_save_class index e =
    let here = item at name index in
    check_class here expect_save_class e.class
    ⊕ check_wildcard here e.path
    ⊕ report_component here (non_canonical_component e.path)
    ⊕ expanded here e.path (expand_for_validation e.path)

unfoldable pub check_paths : Location → Text → List PathEntry → Bool → Checked
check_paths at name entries expect_save_class =
    each 0 (check_path_entry at name expect_save_class) entries

unfoldable pub canonical_key : Location → Outcome RegKeyError CanonicalRegKey → Checked
canonical_key at (ok _) = nothing
canonical_key at (err error) = problem at (bad_registry_key error)
canonical_key at panic = none

unfoldable pub check_registry_entry : Location → ℕ → RegistryEntry → Checked
check_registry_entry at index e =
    let here = item at (codes "registry") index in
    canonical_key here (canonicalise_reg_key e.key)
    ⊕ (if is_save e.class then problem here save_for_registry else nothing)

unfoldable pub check_registry : Location → List RegistryEntry → Checked
check_registry at entries = each 0 (check_registry_entry at) entries
