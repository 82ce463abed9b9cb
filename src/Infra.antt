-- ===== src/Infra.antt =====
-- The shared infrastructure, src/infra.
pub mod Serialize
pub mod BoundedQueue
pub mod SkipList
pub mod IoUring
pub mod Atomic
pub mod Task
pub mod LockGuard
pub mod Logger
pub mod CsppTrie
pub mod Pause
pub mod Allocator
