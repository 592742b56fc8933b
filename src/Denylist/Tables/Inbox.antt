-- ===== src/Denylist/Tables/Inbox.antt =====
-- core/src/safety/denylist.rs: the drivers and services that ship with Windows.
use wardsweep.Base.{List, [], ◌∷◌, map}
use wardsweep.Text.Chars.{Text}
use wardsweep.Text.{codes}

unfoldable pub inbox_drivers : List Text
inbox_drivers = map codes (
    "ACPI.SYS" ∷ "ACPIEX.SYS" ∷ "AFD.SYS" ∷ "AMDPPM.SYS" ∷ "BEEP.SYS" ∷ "BINDFLT.SYS" ∷ "BOWSER.SYS"
    ∷ "CDFS.SYS" ∷ "CDROM.SYS" ∷ "CLASSPNP.SYS" ∷ "CLFS.SYS" ∷ "CLIPSP.SYS" ∷ "CNG.SYS" ∷ "DISK.SYS"
    ∷ "DXGKRNL.SYS" ∷ "DXGMMS2.SYS" ∷ "EXFAT.SYS" ∷ "FASTFAT.SYS" ∷ "FILECRYPT.SYS" ∷ "FILEINFO.SYS"
    ∷ "FLTMGR.SYS" ∷ "FVEVOL.SYS" ∷ "HIDCLASS.SYS" ∷ "HIDPARSE.SYS" ∷ "HTTP.SYS" ∷ "I8042PRT.SYS"
    ∷ "INTELPPM.SYS" ∷ "KBDCLASS.SYS" ∷ "KBDHID.SYS" ∷ "KSECDD.SYS" ∷ "KSECPKG.SYS" ∷ "MOUCLASS.SYS"
    ∷ "MOUHID.SYS" ∷ "MOUNTMGR.SYS" ∷ "MRXSMB.SYS" ∷ "MSRPC.SYS" ∷ "MUP.SYS" ∷ "NDIS.SYS"
    ∷ "NETBT.SYS" ∷ "NETIO.SYS" ∷ "NPFS.SYS" ∷ "NSIPROXY.SYS" ∷ "NTFS.SYS" ∷ "NULL.SYS"
    ∷ "PARTMGR.SYS" ∷ "PCI.SYS" ∷ "PDC.SYS" ∷ "RDBSS.SYS" ∷ "REFS.SYS" ∷ "SPACEPORT.SYS"
    ∷ "SRV2.SYS" ∷ "SRVNET.SYS" ∷ "STORAHCI.SYS" ∷ "STORNVME.SYS" ∷ "STORPORT.SYS" ∷ "TCPIP.SYS"
    ∷ "TDX.SYS" ∷ "TM.SYS" ∷ "TPM.SYS" ∷ "UCX01000.SYS" ∷ "UDFS.SYS" ∷ "USBHUB3.SYS" ∷ "USBSTOR.SYS"
    ∷ "USBXHCI.SYS" ∷ "VHDMP.SYS" ∷ "VOLMGR.SYS" ∷ "VOLMGRX.SYS" ∷ "VOLSNAP.SYS" ∷ "VOLUME.SYS"
    ∷ "WCIFS.SYS" ∷ "WDBOOT.SYS" ∷ "WDF01000.SYS" ∷ "WDFILTER.SYS" ∷ "WDFLDR.SYS" ∷ "WDNISDRV.SYS"
    ∷ "WFPLWFS.SYS" ∷ "WOF.SYS" ∷ [])

unfoldable pub inbox_services : List Text
inbox_services = map codes (
    "ACPI" ∷ "AFD" ∷ "APPXSVC" ∷ "BEEP" ∷ "BFE" ∷ "BROKERINFRASTRUCTURE" ∷ "CLIPSVC" ∷ "CNG"
    ∷ "COREMESSAGINGREGISTRAR" ∷ "CRYPTSVC" ∷ "DCOMLAUNCH" ∷ "DHCP" ∷ "DISK" ∷ "DNSCACHE"
    ∷ "EVENTLOG" ∷ "FASTFAT" ∷ "FILEINFO" ∷ "FLTMGR" ∷ "FVEVOL" ∷ "GPSVC" ∷ "KEYISO" ∷ "KSECDD"
    ∷ "KSECPKG" ∷ "LANMANSERVER" ∷ "LANMANWORKSTATION" ∷ "LSM" ∷ "MOUNTMGR" ∷ "MPSDRV" ∷ "MPSSVC"
    ∷ "MSRPC" ∷ "NDIS" ∷ "NETBT" ∷ "NPFS" ∷ "NSI" ∷ "NTFS" ∷ "NULL" ∷ "PARTMGR" ∷ "PCI" ∷ "PLUGPLAY"
    ∷ "POWER" ∷ "PROFSVC" ∷ "REFS" ∷ "RPCEPTMAPPER" ∷ "RPCSS" ∷ "SAMSS" ∷ "SCHEDULE"
    ∷ "SECURITYHEALTHSERVICE" ∷ "SENSE" ∷ "SPACEPORT" ∷ "STATEREPOSITORY" ∷ "STORAHCI" ∷ "STORNVME"
    ∷ "SYSTEMEVENTSBROKER" ∷ "TCPIP" ∷ "TCPIP6" ∷ "TDX" ∷ "TOKENBROKER" ∷ "TPM" ∷ "TRUSTEDINSTALLER"
    ∷ "USERMANAGER" ∷ "VAULTSVC" ∷ "VOLMGR" ∷ "VOLMGRX" ∷ "VOLSNAP" ∷ "VOLUME" ∷ "W32TIME"
    ∷ "WDBOOT" ∷ "WDF01000" ∷ "WDFILTER" ∷ "WDNISDRV" ∷ "WDNISSVC" ∷ "WINDEFEND" ∷ "WINMGMT"
    ∷ "WLIDSVC" ∷ "WOF" ∷ "WUAUSERV" ∷ [])
