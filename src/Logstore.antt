-- ===== src/Logstore.antt =====
-- pkg/logstore: the records of the log store.
pub mod Redact
pub mod Sanitize
pub mod Subject
pub mod Normalize
pub mod Query
pub mod Statistics
pub mod Append
