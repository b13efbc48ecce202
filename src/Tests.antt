-- ===== src/Tests.antt =====
-- Concrete runs of the components, and the theorems at concrete inputs.
mod Versions
mod Peers
mod Access
mod Crashes
mod Logs
mod Storage
mod Settings
mod Services
mod Machines
mod Registries
mod Sorting
mod Queries
mod Nodes
mod Starts
mod Commands
