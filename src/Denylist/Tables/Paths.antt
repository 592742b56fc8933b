-- ===== src/Denylist/Tables/Paths.antt =====
-- core/src/safety/denylist.rs: the tables of directories and file names.
use wardsweep.Base.{List, [], ◌∷◌, map}
use wardsweep.Text.Chars.{Text}
use wardsweep.Text.{codes}

unfoldable pub protected_top_level : List Text
protected_top_level = map codes (
    "WINDOWS" ∷ "WINNT" ∷ "$RECYCLE.BIN" ∷ "SYSTEM VOLUME INFORMATION" ∷ "RECOVERY" ∷ "BOOT" ∷ "EFI"
    ∷ "PERFLOGS" ∷ "$WINDOWS.~BT" ∷ "$WINDOWS.~WS" ∷ [])

unfoldable pub container_top_level : List Text
container_top_level = map codes (
    "USERS" ∷ "PROGRAMDATA" ∷ "PROGRAM FILES" ∷ "PROGRAM FILES (X86)" ∷ "DOCUMENTS AND SETTINGS"
    ∷ [])

unfoldable pub library_leaves : List Text
library_leaves = map codes ("STEAMLIBRARY" ∷ "STEAMAPPS" ∷ "EPIC GAMES" ∷ [])

unfoldable pub steamapps_containers : List Text
steamapps_containers = map codes (
    "COMMON" ∷ "COMPATDATA" ∷ "DOWNLOADING" ∷ "SHADERCACHE" ∷ "SOURCEMODS" ∷ "TEMP" ∷ "WORKSHOP"
    ∷ [])

unfoldable pub user_hive_files : List Text
user_hive_files = map codes ("NTUSER.DAT" ∷ "USRCLASS.DAT" ∷ [])

unfoldable pub containers : List (List Text)
containers = map (map codes) (
    ("USERS" ∷ "*" ∷ [])
    ∷ ("USERS" ∷ "*" ∷ "APPDATA" ∷ [])
    ∷ ("USERS" ∷ "*" ∷ "APPDATA" ∷ "LOCAL" ∷ [])
    ∷ ("USERS" ∷ "*" ∷ "APPDATA" ∷ "LOCALLOW" ∷ [])
    ∷ ("USERS" ∷ "*" ∷ "APPDATA" ∷ "ROAMING" ∷ [])
    ∷ ("USERS" ∷ "*" ∷ "APPDATA" ∷ "LOCAL" ∷ "PROGRAMS" ∷ [])
    ∷ ("USERS" ∷ "*" ∷ "APPDATA" ∷ "LOCAL" ∷ "PACKAGES" ∷ [])
    ∷ ("USERS" ∷ "*" ∷ "APPDATA" ∷ "LOCAL" ∷ "TEMP" ∷ [])
    ∷ ("USERS" ∷ "*" ∷ "CONTACTS" ∷ [])
    ∷ ("USERS" ∷ "*" ∷ "DESKTOP" ∷ [])
    ∷ ("USERS" ∷ "*" ∷ "DOCUMENTS" ∷ [])
    ∷ ("USERS" ∷ "*" ∷ "DOCUMENTS" ∷ "MY GAMES" ∷ [])
    ∷ ("USERS" ∷ "*" ∷ "DOWNLOADS" ∷ [])
    ∷ ("USERS" ∷ "*" ∷ "FAVORITES" ∷ [])
    ∷ ("USERS" ∷ "*" ∷ "LINKS" ∷ [])
    ∷ ("USERS" ∷ "*" ∷ "MUSIC" ∷ [])
    ∷ ("USERS" ∷ "*" ∷ "ONEDRIVE" ∷ [])
    ∷ ("USERS" ∷ "*" ∷ "PICTURES" ∷ [])
    ∷ ("USERS" ∷ "*" ∷ "SAVED GAMES" ∷ [])
    ∷ ("USERS" ∷ "*" ∷ "SEARCHES" ∷ [])
    ∷ ("USERS" ∷ "*" ∷ "VIDEOS" ∷ [])
    ∷ ("PROGRAM FILES" ∷ "COMMON FILES" ∷ [])
    ∷ ("PROGRAM FILES (X86)" ∷ "COMMON FILES" ∷ [])
    ∷ ("PROGRAMDATA" ∷ "PACKAGE CACHE" ∷ [])
    ∷ ("PROGRAM FILES" ∷ "STEAM" ∷ [])
    ∷ ("PROGRAM FILES (X86)" ∷ "STEAM" ∷ [])
    ∷ [])

unfoldable pub windows_data : List (List Text)
windows_data = map (map codes) (
    ("USERS" ∷ "*" ∷ "APPDATA" ∷ "LOCAL" ∷ "MICROSOFT" ∷ [])
    ∷ ("USERS" ∷ "*" ∷ "APPDATA" ∷ "LOCALLOW" ∷ "MICROSOFT" ∷ [])
    ∷ ("USERS" ∷ "*" ∷ "APPDATA" ∷ "ROAMING" ∷ "MICROSOFT" ∷ [])
    ∷ ("PROGRAM FILES" ∷ "WINDOWSAPPS" ∷ [])
    ∷ ("PROGRAM FILES" ∷ "WINDOWS DEFENDER" ∷ [])
    ∷ ("PROGRAM FILES" ∷ "WINDOWS DEFENDER ADVANCED THREAT PROTECTION" ∷ [])
    ∷ ("PROGRAM FILES (X86)" ∷ "WINDOWS DEFENDER" ∷ [])
    ∷ [])
