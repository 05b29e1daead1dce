-- ===== src/Manager/Forward.antt =====
-- The timers and the sockets of TunnelManager, its writes to the tunnel, and setConnected.
mod Sending
mod Sockets
mod Sessions
unfoldable pub use Sending.*
unfoldable pub use Sockets.*
unfoldable pub use Sessions.*
