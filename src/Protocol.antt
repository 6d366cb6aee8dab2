-- ===== src/Protocol.antt =====
-- core/protocol: shared-memory tile descriptors and the length-prefixed control frames.
pub mod Handles
pub mod Transport
pub mod Wire
pub mod Commands
