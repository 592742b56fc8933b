-- ===== src/Denylist/Tables/Keys.antt =====
-- core/src/safety/denylist.rs: the tables of registry keys.
use wardsweep.Base.{List, [], ◌∷◌, map}
use wardsweep.Text.Chars.{Text}
use wardsweep.Text.{codes}

unfoldable pub protected_machine_hives : List Text
protected_machine_hives =
    map codes ("SAM" ∷ "SECURITY" ∷ "HARDWARE" ∷ "COMPONENTS" ∷ "DRIVERS" ∷ [])

unfoldable pub machine_container_keys : List (List Text)
machine_container_keys = map (map codes) (
    ("SOFTWARE" ∷ "CLASSES" ∷ [])
    ∷ ("SOFTWARE" ∷ "CLASSES" ∷ "APPID" ∷ [])
    ∷ ("SOFTWARE" ∷ "CLASSES" ∷ "CLSID" ∷ [])
    ∷ ("SOFTWARE" ∷ "CLASSES" ∷ "INTERFACE" ∷ [])
    ∷ ("SOFTWARE" ∷ "CLASSES" ∷ "TYPELIB" ∷ [])
    ∷ ("SOFTWARE" ∷ "CLIENTS" ∷ [])
    ∷ ("SOFTWARE" ∷ "MICROSOFT" ∷ [])
    ∷ ("SOFTWARE" ∷ "MICROSOFT" ∷ "WINDOWS" ∷ [])
    ∷ ("SOFTWARE" ∷ "MICROSOFT" ∷ "WINDOWS" ∷ "CURRENTVERSION" ∷ [])
    ∷ ("SOFTWARE" ∷ "MICROSOFT" ∷ "WINDOWS" ∷ "CURRENTVERSION" ∷ "APP PATHS" ∷ [])
    ∷ ("SOFTWARE" ∷ "MICROSOFT" ∷ "WINDOWS" ∷ "CURRENTVERSION" ∷ "EXPLORER" ∷ [])
    ∷ ("SOFTWARE" ∷ "MICROSOFT" ∷ "WINDOWS" ∷ "CURRENTVERSION" ∷ "RUN" ∷ [])
    ∷ ("SOFTWARE" ∷ "MICROSOFT" ∷ "WINDOWS" ∷ "CURRENTVERSION" ∷ "RUNONCE" ∷ [])
    ∷ ("SOFTWARE" ∷ "MICROSOFT" ∷ "WINDOWS" ∷ "CURRENTVERSION" ∷ "SHAREDDLLS" ∷ [])
    ∷ ("SOFTWARE" ∷ "MICROSOFT" ∷ "WINDOWS" ∷ "CURRENTVERSION" ∷ "UNINSTALL" ∷ [])
    ∷ ("SOFTWARE" ∷ "MICROSOFT" ∷ "WINDOWS NT" ∷ [])
    ∷ ("SOFTWARE" ∷ "MICROSOFT" ∷ "WINDOWS NT" ∷ "CURRENTVERSION" ∷ [])
    ∷ ("SOFTWARE" ∷ "MICROSOFT" ∷ "WINDOWS NT" ∷ "CURRENTVERSION" ∷ "IMAGE FILE EXECUTION OPTIONS"
        ∷ [])
    ∷ ("SOFTWARE" ∷ "POLICIES" ∷ [])
    ∷ ("SOFTWARE" ∷ "POLICIES" ∷ "MICROSOFT" ∷ [])
    ∷ ("SOFTWARE" ∷ "REGISTEREDAPPLICATIONS" ∷ [])
    ∷ ("SOFTWARE" ∷ "WOW6432NODE" ∷ [])
    ∷ [])

unfoldable pub machine_protected_keys : List (List Text)
machine_protected_keys = map (map codes) (
    ("SOFTWARE" ∷ "MICROSOFT" ∷ "CRYPTOGRAPHY" ∷ [])
    ∷ ("SOFTWARE" ∷ "MICROSOFT" ∷ "WINDOWS NT" ∷ "CURRENTVERSION" ∷ "WINLOGON" ∷ [])
    ∷ ("SOFTWARE" ∷ "MICROSOFT" ∷ "WINDOWS DEFENDER" ∷ [])
    ∷ ("SOFTWARE" ∷ "POLICIES" ∷ "MICROSOFT" ∷ "WINDOWS DEFENDER" ∷ [])
    ∷ [])

unfoldable pub user_container_keys : List (List Text)
user_container_keys = map (map codes) (
    ("SOFTWARE" ∷ "CLASSES" ∷ [])
    ∷ ("SOFTWARE" ∷ "CLASSES" ∷ "CLSID" ∷ [])
    ∷ ("SOFTWARE" ∷ "MICROSOFT" ∷ [])
    ∷ ("SOFTWARE" ∷ "MICROSOFT" ∷ "WINDOWS" ∷ [])
    ∷ ("SOFTWARE" ∷ "MICROSOFT" ∷ "WINDOWS" ∷ "CURRENTVERSION" ∷ [])
    ∷ ("SOFTWARE" ∷ "MICROSOFT" ∷ "WINDOWS" ∷ "CURRENTVERSION" ∷ "RUN" ∷ [])
    ∷ ("SOFTWARE" ∷ "MICROSOFT" ∷ "WINDOWS" ∷ "CURRENTVERSION" ∷ "RUNONCE" ∷ [])
    ∷ ("SOFTWARE" ∷ "MICROSOFT" ∷ "WINDOWS" ∷ "CURRENTVERSION" ∷ "UNINSTALL" ∷ [])
    ∷ ("SOFTWARE" ∷ "POLICIES" ∷ [])
    ∷ ("SOFTWARE" ∷ "WOW6432NODE" ∷ [])
    ∷ [])
