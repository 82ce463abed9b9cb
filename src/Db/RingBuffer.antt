-- ===== src/Db/RingBuffer.antt =====
-- `RingBuffer` (src/db/ring_buffer.h): writers reserve regions by compare-and-exchange on `head_`.
-- A call is modelled with what the other threads do around it: each round of its loop reads the
-- `tail_` of the moment and meets the `head_` of the moment.
pub mod Overcommit
pub mod Reserve
mod Tests
use Prim.Native.Nat.{bit_and}
use qstorage.Prelude.{
  ℕ, ◌+◌, ◌-◌, Bool, true, false, ◌&&◌, not, List, [], ◌∷◌, ltb, ◌==◌, if◌then◌else◌,
}
use qstorage.Prelude.Words.{add64, sub64}
use qstorage.Db.Constant.{buffer_size_mask}

-- The members; the bytes of `buffer_` by their indexes
pub record RingBuffer : Type 0 where
  pub head : ℕ
  pub tail : ℕ
  pub buffer : ℕ → ℕ

-- A new object: the cursors at 0, and the bytes as the memory has them
abbrev pub new_ring_buffer : (ℕ → ℕ) → RingBuffer
new_ring_buffer memory = record { head = 0; tail = 0; buffer = memory }

-- One round of the `while (true)`: the `tail_` that it loads, the `head_` that the exchange meets,
-- and whether the weak exchange fails although the two values agree.
pub record Round : Type 0 where
  pub tail : ℕ
  pub head : ℕ
  pub spurious : Bool

-- `Slice`, as offsets into `buffer_`
pub record Slice : Type 0 where
  pub start : ℕ
  pub end : ℕ

-- `full` is the slice of null pointers. `granted` comes with the value that the exchange stored in
-- `head_`. `spinning` means that the rounds given are over and the loop has not ended.
pub data Reply : Type 0 where
  full : Reply
  granted : (slice : Slice) → (new_head : ℕ) → Reply
  spinning : Reply

-- What the code computes from its two loads
unfoldable pub free_space : (cur_head cur_tail : ℕ) → ℕ
free_space cur_head cur_tail =
    let used_space = sub64 cur_tail cur_head in sub64 buffer_size_mask used_space

unfoldable pub slice_at : ℕ → ℕ → Slice
slice_at cur_head size = record {
  start = bit_and cur_head buffer_size_mask;
  end = bit_and (add64 cur_head size) buffer_size_mask;
}

-- A failed exchange loads the value that it met into `cur_head`.
unfoldable pub reserve : (size cur_head : ℕ) → List Round → Reply
reserve size cur_head [] = spinning
reserve size cur_head (r ∷ rounds) =
    let again = reserve size r.head rounds in
    if ltb (free_space cur_head r.tail) size
    then full
    else (if (r.head == cur_head) && not r.spurious
        then granted (slice_at cur_head size) (add64 cur_head size)
        else again)

-- `CommitWrite`, on `tail_`
unfoldable pub commit_write : ℕ → ℕ → ℕ
commit_write tail size = add64 tail size
