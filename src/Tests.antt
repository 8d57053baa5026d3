-- ===== src/Tests.antt =====
-- Runs of the code at concrete inputs, and each theorem at one of them.
mod Efi
mod Power
mod Supervise
mod Network
mod Disk
mod Install
mod Mgmtapi
mod Mount
mod Boot
mod Link
mod Initramfs
mod Openbao
mod Release
mod Console
mod Ociimage
mod Root
mod Build
