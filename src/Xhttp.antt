-- ===== src/Xhttp.antt =====
-- tunnel/xhttpHandler.js: the HTTP routes of the tunnel and its sessions.
pub mod Routes
pub mod State
pub mod Sessions
pub mod Requests
pub mod Active
pub mod Access
pub mod Closing
pub mod Tokens
pub mod Bodies
mod Tests
