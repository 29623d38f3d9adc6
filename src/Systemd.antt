-- ===== src/Systemd.antt =====
-- The client of systemd (internal/systemd).
pub mod Manager
