-- ===== src/Storage.antt =====
-- src/storage.rs: the sync root, the parser of a sync index, the blobs with their projection, and
-- garbage collection.
pub mod Root
pub mod Index
pub mod Blobs
pub mod Tree
pub mod Gc
pub mod Catalogue
