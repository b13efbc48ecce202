-- ===== src/Tools/Manager.antt =====
-- pkg/tools/manager.go: the registry of installed tools.
pub mod Host
pub mod Action
pub mod Source
pub mod Environment
pub mod Registry
pub mod Registered
pub mod Root
