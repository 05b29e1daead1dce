-- ===== src/Manager.antt =====
-- tunnel/manager.js: the requests that go through the tunnel, in both directions.
pub mod Chunks
pub mod State
pub mod Calls
pub mod Forward
pub mod Steps
pub mod Limits
pub mod Bounded
pub mod Maps
pub mod Domains
pub mod Disconnect
mod Tests
