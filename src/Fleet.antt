-- ===== src/Fleet.antt =====
-- What the components share: the task, paths, and actions on the node.
pub mod Task
pub mod Paths
pub mod Effects
