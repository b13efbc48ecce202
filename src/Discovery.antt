-- ===== src/Discovery.antt =====
-- pkg/discovery/discovery.go: peers found by mDNS. The zeroconf library is a parameter: it
-- delivers the service entries, and a browse ends in one of the ways that `Outcome` lists.
pub mod Peers
pub mod Txt
pub mod Browse
