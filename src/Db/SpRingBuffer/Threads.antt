-- ===== src/Db/SpRingBuffer/Threads.antt =====
-- `SPSCRingBuffer` of src/db/sp_ring_buffer.h with its two threads: one calls `RequestWriteSpace`,
-- the other `CommitWrite`. `tail_` is an atomic object with all its writes. Its loads are relaxed,
-- so that a load may read an old value, but not one older than the thread has read before; `head_`
-- belongs to the first thread alone.
pub mod Window
mod Tests
use Prim.Native.Nat.{bit_and}
use qstorage.Prelude.{ℕ, zero, suc, ◌+◌, ◌≤◌, ◌≡◌, Option, none, some, ltb, if◌then◌else◌}
use qstorage.Prelude.Words.{add64, sub64}
use qstorage.Db.Constant.{buffer_size, buffer_size_mask}
use qstorage.Infra.Atomic.{Cell, atomic, load_relaxed, fetch_add_relaxed}

-- What both threads share, and `visible`: how many writes a load of the first thread may look back
pub record Shared : Type 0 where
  pub head : ℕ
  pub tail : Cell
  pub visible : ℕ

abbrev pub initial : Shared
initial = record { head = 0; tail = atomic 0; visible = 0 }

-- Where the first thread is: outside, or in `RequestWriteSpace` behind its load
pub data Producer : Type 0 where
  outside : Producer
  loaded : (size cur_tail : ℕ) → Producer

-- The load of `RequestWriteSpace`, which looks back `back` writes
unfoldable pub load_tail : (size back : ℕ) → Shared → Producer × Shared
load_tail size back s = (loaded size (load_relaxed 64 s.tail back), record s { visible = back })

-- The rest of `RequestWriteSpace`, with the offset from `buffer_` or `none`
unfoldable pub reserve : (size cur_tail : ℕ) → Shared → Option ℕ × Shared
reserve size cur_tail s =
    let used_space = sub64 s.head cur_tail in
    let free_space = sub64 buffer_size used_space in
    if ltb free_space size
    then (none, s)
    else (some (bit_and s.head buffer_size_mask), record s { head = add64 s.head size })

-- `CommitWrite` of the other thread: one more write that the first may have to look back
unfoldable pub commit_write : ℕ → Shared → Shared
commit_write size s = record s {
  tail = (fetch_add_relaxed 64 s.tail size).1;
  visible = suc s.visible;
}

-- How many bytes a call has got
abbrev pub given : Option ℕ → ℕ → ℕ
given none size = 0
given (some off) size = size

-- What the two threads come to, with the numbers of bytes given out and committed so far; a commit
-- is of bytes that have been given out.
pub data Reach : Producer → Shared → (granted committed : ℕ) → Type 0 where
  start : Reach Producer.outside initial 0 0
  loads :
      (size back : ℕ) (s : Shared) (granted committed : ℕ)
      → Reach Producer.outside s granted committed
      → back ≤ s.visible
      → Reach (load_tail size back s).0 (load_tail size back s).1 granted committed
  reserves :
      (size cur_tail : ℕ) (s : Shared) (granted committed : ℕ)
      → Reach (Producer.loaded size cur_tail) s granted committed
      → Reach Producer.outside
          (reserve size cur_tail s).1
          (granted + given (reserve size cur_tail s).0 size)
          committed
  commits :
      (size : ℕ) (p : Producer) (s : Shared) (granted committed : ℕ)
      → Reach p s granted committed
      → committed + size ≤ granted
      → Reach p (commit_write size s) granted (committed + size)
