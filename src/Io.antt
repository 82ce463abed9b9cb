-- ===== src/Io.antt =====
-- The asynchronous I/O layer, src/io.
pub mod Request
pub mod Sink
pub mod Completion
pub mod AsyncIo
mod Tests
