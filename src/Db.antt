-- ===== src/Db.antt =====
-- The storage layer, src/db.
pub mod Constant
pub mod SpRingBuffer
pub mod RingBuffer
pub mod LogWriter
pub mod Allocator
