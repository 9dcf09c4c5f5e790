-- ===== src/Sync.antt =====
-- src/integrations/sync.rs: the paths that a cloud sync writes to. The sync itself is not here.
pub mod Paths
