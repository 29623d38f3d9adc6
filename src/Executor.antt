-- ===== src/Executor.antt =====
-- internal/executor: the handlers of the tasks.
pub mod Archive
pub mod Report
pub mod Files
pub mod Limits
pub mod Lifecycle
pub mod Ports
pub mod Deprovision
pub mod Readiness
pub mod Provision
pub mod DataPlane
pub mod Restore
pub mod Dispatch
