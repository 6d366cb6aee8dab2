-- ===== src/Render.antt =====
-- core/render-pipeline: the tile cache and the slots of the shared-memory tile pool.
pub mod Cache
pub mod Pool
pub mod Scheduler
