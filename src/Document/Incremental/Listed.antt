-- ===== src/Document/Incremental/Listed.antt =====
-- The cross-reference table that a save prints, and its section in the saved file
-- (core/pdf-write/src/lib.rs).
use pdf_platform.Common.Keys.{nat_eq}
