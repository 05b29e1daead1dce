-- ===== src/Certs.antt =====
-- proxy/proxy-core/cert-lifecycle.js: the names, the cache and the prewarming of certificates.
pub mod Names
pub mod Cache
pub mod Prewarm
pub mod Done
pub mod Ensure
pub mod Single
mod Tests
