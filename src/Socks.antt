-- ===== src/Socks.antt =====
-- socks5/server.js: the SOCKS5 server in front of the HTTP proxy.
pub mod Address
pub mod State
pub mod Handshake
pub mod Relay
pub mod Udp
pub mod Steps
pub mod Balance
pub mod Access
pub mod Garbled
pub mod Replies
mod Tests
