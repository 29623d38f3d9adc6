-- ===== src/Tests.antt =====
-- Runs of the definitions at concrete inputs, one module for each part of the program.
pub mod Data
pub mod Executor
pub mod Archive
pub mod Restore
pub mod Pods
pub mod Ports
pub mod Quadlet
pub mod Agent
pub mod Names
