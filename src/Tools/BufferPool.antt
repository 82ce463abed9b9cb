-- ===== src/Tools/BufferPool.antt =====
-- `BufferPool` of src/tools/buffer_pool.h, which has no operations. Its template `ListHead` is not
-- declared in the repository; `BlockList` stands for `ListHead<Block>`.
use qstorage.Prelude.{ℕ, Option}

pub record BufferPool (BlockList : Type 0) : Type 0 where
  -- The blocks that are free, and those in use from the hottest to the coldest
  pub free : BlockList
  pub lru : BlockList
  -- The first block of the cold part, by its address, and how many blocks are in that part
  pub lru_old : Option ℕ
  pub lru_old_len : ℕ
