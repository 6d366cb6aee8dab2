-- ===== src/Document/Session/Recovery.antt =====
-- What recovery from a sidecar does to a document (core/coordinator/src/document.rs).
use pdf_platform.Common.{List}
