-- ===== src/Document.antt =====
-- The document: core/pdf-model (overlay, commands, undo journal) and the edits of core/coordinator.
pub mod Overlay
pub mod Incremental
pub mod Command
pub mod Journal
pub mod Session
mod Tests
