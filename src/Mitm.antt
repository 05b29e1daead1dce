-- ===== src/Mitm.antt =====
-- The rules of the MITM proxy: proxy/mitm, and their use in proxy/proxy.js.
pub mod Registry
pub mod Hosts
pub mod Handler
pub mod Override
pub mod Chosen
pub mod Ends
mod Tests
