-- ===== src/Filter.antt =====
-- The filter of proxy/proxy.js: which requests are refused, blocked, rewritten or passed on.
pub mod Attacker
pub mod Blocks
pub mod Auth
pub mod Decide
pub mod Devices
pub mod Errors
pub mod Windows
pub mod Watch
pub mod Entitled
pub mod Passwords
pub mod Reasons
mod Tests
