-- ===== src/Storage.antt =====
-- internal/storage/filesystem.go: the content of the registry on disk.
pub mod Digest
pub mod Path
pub mod Manifest
pub mod Disk
pub mod Manifests
pub mod Referrers
pub mod Blobs
pub mod Garbage
