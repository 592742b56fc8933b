-- ===== src/Denylist/Exceptions.antt =====
-- core/src/safety/denylist.rs: the carve-outs that a catalog entry earns. A `BTreeSet` is read only
-- by `contains`, so it is the list of its members.
use wardsweep.Base.{
  Bool, not, ◌&&◌, ◌||◌, Option, none, some, List, [], ◌∷◌, ◌==◌, if◌then◌else◌, is_nil, any, last,
}
use wardsweep.Text.Chars.{Text}
use wardsweep.Text.{ascii_upper, text_eq, eq_ignore_case, trim, split_by}
use wardsweep.Denylist.Tables.Inbox.{inbox_drivers, inbox_services}

unfoldable pub is_inbox_driver : Text → Bool
is_inbox_driver file_name = any (λ inbox. eq_ignore_case inbox (trim file_name)) inbox_drivers

unfoldable pub is_inbox_service : Text → Bool
is_inbox_service service_name =
    any (λ inbox. eq_ignore_case inbox (trim service_name)) inbox_services

pub record Exceptions : Type 0 where
  pub driver_files : List Text
  pub service_names : List Text

unfoldable pub none_allowed : Exceptions
none_allowed = record { driver_files = []; service_names = [] }

abbrev pub or_text : Text → Option Text → Text
or_text d none = d
or_text d (some t) = t

-- `rsplit(['\\', '/']).next()`: the last part
unfoldable pub base_file_name : Text → Option Text
base_file_name raw =
    let parts = split_by (λ c. c == b'\\' || c == b'/') raw in
    let name = ascii_upper (trim (or_text raw (last parts))) in
    if is_nil name then none else some name

-- The `filter` on a name that `base_file_name` kept.
unfoldable pub keep_driver : Option Text → List Text → List Text
keep_driver none rest = rest
keep_driver (some name) rest = if not (is_inbox_driver name) then name ∷ rest else rest

unfoldable pub driver_names : List Text → List Text
driver_names [] = []
driver_names (raw ∷ raws) = keep_driver (base_file_name raw) (driver_names raws)

unfoldable pub named_services : List Text → List Text
named_services [] = []
named_services (raw ∷ raws) =
    let rest = named_services raws in
    let name = ascii_upper (trim raw) in
    if not (is_nil name) && not (is_inbox_service name) then name ∷ rest else rest

unfoldable pub new : List Text → List Text → Exceptions
new drivers services = record {
  driver_files = driver_names drivers;
  service_names = named_services services;
}

unfoldable pub allows_driver_file : Exceptions → Text → Bool
allows_driver_file exceptions file_name =
    any (λ name. text_eq name (ascii_upper file_name)) exceptions.driver_files

unfoldable pub allows_service : Exceptions → Text → Bool
allows_service exceptions service_name =
    any (λ name. text_eq name (ascii_upper service_name)) exceptions.service_names
