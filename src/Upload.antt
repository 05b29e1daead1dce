-- ===== src/Upload.antt =====
-- tunnel/uploadQueue.js: the queue that puts uploaded frames in order.
pub mod Heap
pub mod Queue
mod Tests
