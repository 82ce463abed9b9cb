-- ===== src/Tools.antt =====
-- The utilities under src/tools.
pub mod LinkedList
pub mod Histogram
pub mod Allocator
pub mod Buffer
pub mod BufferPool
pub mod Log
pub mod Error
pub mod Main
