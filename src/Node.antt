-- ===== src/Node.antt =====
-- pkg/node/node.go: what a node decides.
pub mod SplitBrain
pub mod Authorization
pub mod Tools
pub mod Start
pub mod Streams
