-- ===== src/Tools.antt =====
-- pkg/tools: what runs the tools of a node.
pub mod Recovery
pub mod Executor
pub mod Settings
pub mod Manager
pub mod Health
