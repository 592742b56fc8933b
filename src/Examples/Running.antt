-- ===== src/Examples/Running.antt =====
-- What the runs compute through: an `unfolding` line that names one of these names all of its line.
use wardsweep.Base.{any, all}
use wardsweep.Text.Chars.{to_lower, to_upper, is_digit, is_alphabetic, char_len, is_whitespace}
use wardsweep.Text
use wardsweep.Text.{
  ascii_upper, ascii_lower, text_eq, eq_ignore_case, contains, replace, byte_len, split_at_byte,
  trim_start, trim_end, trim_matches, trim, split_by, split, split_once, after_last, strip_prefix,
}
use wardsweep.Paths.Canonical
use wardsweep.Paths.Canonical.{
  zip_matches, strip_prefix_ci, starts_with_globalroot, drive_root, unc_root, plain_root,
  extended_root, device_root, long_root, split_root, is_short_name, normalise_segment,
  normalise_loop, normalise_components, render_components, render, assemble, canonicalise_trimmed,
  canonicalise_syntactic, canonicalise_resolved,
}
use wardsweep.Paths.RegKey.{hive_of, short, key_components, segments_after, canonicalise_reg_key}
use wardsweep.Denylist.Tables.Paths.{
  protected_top_level, container_top_level, library_leaves, steamapps_containers, user_hive_files,
  containers, windows_data,
}
use wardsweep.Denylist.Tables.Inbox.{inbox_drivers, inbox_services}
use wardsweep.Denylist.Tables.Keys.{
  protected_machine_hives, machine_container_keys, machine_protected_keys, user_container_keys,
}
use wardsweep.Denylist.Exceptions
use wardsweep.Denylist.Exceptions.{
  is_inbox_driver, is_inbox_service, none_allowed, base_file_name, keep_driver, driver_names,
  named_services, allows_driver_file, allows_service,
}
use wardsweep.Denylist.Check.{
  zip_pattern, starts_with_pattern, equals_pattern, is_named, is_library, is_container,
  is_driver_file, windows_directory_exception, is_user_hive, evaluate_outside, evaluate_components,
  evaluate_namespace, check_path,
}
use wardsweep.Denylist.Keys.{
  shallow_floor, is_user_container, evaluate_user_key, is_numbered_set, is_control_set,
  service_key_leaf, native_view, is_protected_key, is_container_key, is_protected_hive, is_system,
  evaluate_software, allows_leaf, machine_rest, evaluate_machine_key, evaluate_users_key,
  evaluate_hive, check_registry_key,
}

pub data Run : Type 0 where
  run : Run

unfoldable pub texts : Run
unfolding any all to_lower to_upper is_digit is_alphabetic char_len is_whitespace ascii_upper
    ascii_lower text_eq eq_ignore_case contains replace byte_len split_at_byte trim_start trim_end
    trim_matches trim split_by split split_once after_last strip_prefix Text.starts_with
    Text.ends_with
texts = run

unfoldable pub paths : Run
unfolding texts zip_matches Canonical.starts_with strip_prefix_ci starts_with_globalroot drive_root
    unc_root plain_root extended_root device_root long_root split_root is_short_name
    normalise_segment normalise_loop normalise_components render_components render assemble
    canonicalise_trimmed canonicalise_syntactic canonicalise_resolved hive_of short key_components
    segments_after canonicalise_reg_key
paths = run

unfoldable pub denylist : Run
unfolding paths protected_top_level container_top_level library_leaves steamapps_containers
    user_hive_files containers windows_data inbox_drivers inbox_services protected_machine_hives
    machine_container_keys machine_protected_keys user_container_keys is_inbox_driver
    is_inbox_service none_allowed base_file_name keep_driver driver_names named_services
    Exceptions.new allows_driver_file allows_service zip_pattern starts_with_pattern equals_pattern
    is_named is_library is_container is_driver_file windows_directory_exception is_user_hive
    evaluate_outside evaluate_components evaluate_namespace check_path shallow_floor
    is_user_container evaluate_user_key is_numbered_set is_control_set service_key_leaf native_view
    is_protected_key is_container_key is_protected_hive is_system evaluate_software allows_leaf
    machine_rest evaluate_machine_key evaluate_users_key evaluate_hive check_registry_key
denylist = run
