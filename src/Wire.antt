-- ===== src/Wire.antt =====
-- tunnel/protocol.js: the frames of the tunnel, written and read.
pub mod Buffer
pub mod Address
pub mod Capabilities
pub mod Frame
pub mod Tests
