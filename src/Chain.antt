-- ===== src/Chain.antt =====
-- The chain proxy of proxy/proxy.js: a tunnel to the target through one more proxy.
pub mod Config
pub mod Link
pub mod Socks
pub mod Http
pub mod Agents
pub mod Meets
pub mod Response
pub mod RoundTrip
mod Tests
