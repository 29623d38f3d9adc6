-- ===== src/Executor/DataPlane.antt =====
-- The data plane of backups and restores (executor_restore.go, executor_backup.go).
pub mod Location
pub mod Checksum
pub mod Origin
pub mod Database
pub mod Volumes
