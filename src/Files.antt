-- ===== src/Files.antt =====
-- The mesh's file store: pkg/filestore (Store) and its two faces in pkg/mesh/files.go, the "files"
-- tool (Tool) and the raw subjects (Handlers).
pub mod Store
pub mod Tool
pub mod Handlers
pub mod RoundTrip
pub mod Params
