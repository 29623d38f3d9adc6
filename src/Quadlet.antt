-- ===== src/Quadlet.antt =====
-- internal/quadlet/renderer.go: names, the image policy, and which files belong to an instance.
pub mod Names
pub mod Policy
pub mod Values
pub mod Units
pub mod Render
