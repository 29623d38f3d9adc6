-- ===== src/Podman.antt =====
-- Package `podman`: internal/podman/inspector.go.
pub mod IdMap
