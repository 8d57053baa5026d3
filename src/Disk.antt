-- ===== src/Disk.antt =====
-- internal/disk/disk.go and internal/meta/meta.go: finding, partitioning and formatting the
-- system disk, and the marker on META.
pub mod Hardware
pub mod Search
pub mod Layout
pub mod Meta
