-- ===== src/Cli.antt =====
-- cmd/jb-mesh: the checks that the command line makes before it calls the packages.
pub mod Inputs
pub mod Preflight
