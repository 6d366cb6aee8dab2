-- ===== src/Plugins.antt =====
-- core/plugin-host/src: capabilities (manifest.rs), grants (grant.rs), the instance's fuel (runtime.rs)
-- and the plugin manager with its circuit breaker (manager.rs).
pub mod Capability
pub mod Grants
pub mod Runtime
pub mod Manager
mod Tests
