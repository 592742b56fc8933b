-- ===== src/Observe/Policy/Tables.antt =====
-- tools/observe/src/policy.rs, collect/filesystem.rs and collect/g3-identity-terms.txt: what is refused.
use wardsweep.Base.{List, [], ◌∷◌, map}
use wardsweep.Text.Chars.{Text}
use wardsweep.Text.{codes}

unfoldable pub personal_identity_value_names : List Text
personal_identity_value_names = map codes (
    "hostname" ∷ "nv hostname" ∷ "computername" ∷ "registeredowner" ∷ "registeredorganization"
    ∷ "useremail" ∷ "autologinuser" ∷ "activeuser" ∷ "lastgamenameused" ∷ [])

unfoldable pub excluded_key_fragments : List Text
excluded_key_fragments = map codes (
    "\\microsoft\\cryptography\\" ∷ "\\enum\\" ∷ "\\services\\tpm\\"
    ∷ "\\services\\bthport\\parameters\\" ∷ "\\explorer\\mountpoints2\\"
    ∷ "\\networklist\\signatures\\" ∷ "\\microsoft\\identitycrl\\" ∷ "\\microsoft\\onedrive\\"
    ∷ "\\microsoft\\office\\common\\userinfo\\" ∷ "\\networklist\\profiles\\"
    ∷ "\\microsoft\\identitystore\\" ∷ "\\gryphline\\sdk_data\\"
    ∷ "\\appcompatflags\\compatibility assistant\\" ∷ "\\explorer\\featureusage\\"
    ∷ "\\explorer\\userassist\\" ∷ "\\explorer\\typedpaths\\" ∷ "\\explorer\\runmru\\"
    ∷ "\\explorer\\wordwheelquery\\" ∷ "\\explorer\\recentdocs\\" ∷ "\\explorer\\comdlg32\\"
    ∷ "\\explorer\\sessioninfo\\" ∷ "\\search\\jumplistdata\\" ∷ "\\shell\\bagmru\\"
    ∷ "\\shell\\bags\\" ∷ "\\shell\\muicache\\" ∷ "\\services\\bam\\state\\"
    ∷ "\\services\\dam\\state\\" ∷ "\\capabilityaccessmanager\\consentstore\\"
    ∷ "\\currentversion\\notifications\\settings\\" ∷ "\\notifications\\quiethours\\"
    ∷ "\\directinput\\mostrecentapplication\\" ∷ "\\currentversion\\applistbackup\\"
    ∷ "\\currentversion\\ufh\\shc\\" ∷ "\\local settings\\muicache\\"
    ∷ "\\local settings\\mrtcache\\" ∷ "\\persistedstorageitemtable\\" ∷ "\\persistedpickerdata\\"
    ∷ "\\microsoft\\gamingservices\\" ∷ "\\ham\\" ∷ "\\hostactivitymanager\\"
    ∷ "\\currentversion\\cloudstore\\" ∷ "\\diagnostics\\diagtrack\\"
    ∷ "\\visualstudio\\telemetry\\" ∷ "\\hkcu\\software\\valve\\steam\\apps\\"
    ∷ "\\microsoft\\authcookies\\" ∷ "\\preferencemacs\\"
    ∷ "\\currentversion\\softwareprotectionplatform\\"
    ∷ "\\microsoft\\windows\\currentversion\\component based servicing\\" ∷ "\\classes\\clsid\\"
    ∷ "\\classes\\interface\\" ∷ "\\classes\\typelib\\" ∷ "\\classes\\wow6432node\\clsid\\"
    ∷ "\\classes\\wow6432node\\interface\\" ∷ "\\installer\\" ∷ [])

unfoldable pub excluded_path_fragments : List Text
excluded_path_fragments = map codes (
    "\\windows defender\\platform\\" ∷ "\\softwaredistribution\\" ∷ "\\windows\\servicing\\"
    ∷ "\\windows\\winsxs\\" ∷ "\\windows\\assembly\\" ∷ "\\appdata\\local\\temp\\"
    ∷ "\\windows\\temp\\" ∷ "\\inetcache\\" ∷ "\\webcache\\" ∷ "\\crashdumps\\"
    ∷ "\\usoshared\\logs\\" ∷ "\\d3dscache\\" ∷ "\\dxcache\\" ∷ "\\nv_cache\\" ∷ "\\gluecache\\"
    ∷ "\\shadercache\\" ∷ "\\google\\chrome\\user data\\" ∷ "\\microsoft\\edge\\user data\\"
    ∷ "\\mozilla\\firefox\\profiles\\" ∷ "\\bravesoftware\\"
    ∷ "\\appdata\\local\\steam\\htmlcache\\" ∷ "\\npm-cache\\" ∷ "\\node_modules\\"
    ∷ "\\.cargo\\registry\\" ∷ "\\pip\\cache\\" ∷ "\\nuget\\packages\\"
    ∷ "\\appdata\\local\\packages\\" ∷ "\\appdata\\local\\wardsweep\\observations\\"
    ∷ "\\microsoft\\crypto\\" ∷ "\\microsoft\\protect\\"
    ∷ "\\appdata\\local\\connecteddevicesplatform\\" ∷ "\\microsoft\\windows\\recent\\"
    ∷ "\\microsoft\\windows\\wer\\" ∷ "\\appdata\\local\\microsoft\\oneauth\\"
    ∷ "\\appdata\\local\\microsoft\\tokenbroker\\" ∷ "\\appdata\\local\\microsoft\\credentials\\"
    ∷ "\\appdata\\roaming\\microsoft\\credentials\\"
    ∷ "\\appdata\\local\\microsoft\\identitycache\\" ∷ "\\appdata\\local\\microsoft\\onedrive\\"
    ∷ "\\google\\drivefs\\" ∷ "\\steam\\userdata\\" ∷ "\\steam\\appcache\\"
    ∷ "\\steam\\depotcache\\" ∷ "\\origin\\avatarscache\\" ∷ "\\appdata\\roaming\\claude\\"
    ∷ "\\appdata\\local\\claude\\" ∷ "\\programdata\\claude\\"
    ∷ "\\appdata\\local\\claude-cli-nodejs\\" ∷ "\\appdata\\local\\claude-data\\"
    ∷ "\\appdata\\roaming\\code\\user\\" ∷ "\\protonmail\\" ∷ [])

-- The lines of the term file that are neither blank nor comments, in lower case.
unfoldable pub hardware_identity_terms : List Text
hardware_identity_terms = map codes (
    "machineguid" ∷ "smbios" ∷ "serialnumber" ∷ "diskserial" ∷ "volumeserial" ∷ "macaddress"
    ∷ "baseboard" ∷ "processorid" ∷ "computersystemproduct" ∷ "biosuuid" ∷ "systemuuid"
    ∷ "dhcpv6duid" ∷ "defaultgatewaymac" ∷ "dhcpinterfaceoptions" ∷ "dhcpgatewayhardware"
    ∷ "volume{" ∷ [])
