-- ===== src/Efi.antt =====
-- internal/efi/efi.go: the firmware's boot entries and their wire formats.
pub mod Utf16
pub mod LoadOption
pub mod Vars
pub mod BootEntry
