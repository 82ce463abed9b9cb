-- ===== src/Db/RingBuffer/Overcommit.antt =====
-- `RequestWriteSpace` (src/db/ring_buffer.h) takes its two counters the wrong way round: the more
-- bytes are in use, the more space it finds.
use qstorage.Prelude.{ℕ, ◌+◌, ◌%◌, ◌^◌, ◌≤◌, ◌<◌, ◌≡◌, false, [], ◌∷◌, arith}
use qstorage.Prelude.Bits.{and_mask}
use qstorage.Prelude.Words.{u64_mod, add64, sub64}
use qstorage.Db.Constant.{buffer_size, buffer_size_mask}
use qstorage.Db.RingBuffer.{Round, granted, free_space, slice_at, reserve}

-- What is in use is `head_ - tail_`; the code finds the mask plus that much free.
pub free_space-used :
    (head tail : ℕ)
    → head < u64_mod
    → tail < u64_mod
    → sub64 head tail ≤ 2 ^ 63
    → free_space head tail ≡ buffer_size_mask + sub64 head tail
unfolding free_space
free_space-used head tail h t u = omega arith

-- An undisturbed call with a request of at most `kBufferSizeMask` bytes is granted however many
-- bytes are in use, up to `2 ^ 63`, also where it does not fit, and its bytes are then in use
-- besides the others.
pub reserve_overcommits :
    (head tail size : ℕ)
    → head < u64_mod
    → tail < u64_mod
    → sub64 head tail ≤ 2 ^ 63
    → size ≤ buffer_size_mask
    → let round : Round = record { tail = tail; head = head; spurious = false } in
      (reserve size head (round ∷ []) ≡ granted (slice_at head size) (add64 head size))
      × (sub64 (add64 head size) tail ≡ sub64 head tail + size)
unfolding reserve
reserve_overcommits head tail size h t u s =
    (ground (arith, free_space-used head tail h t u), omega arith)

-- A region of fewer bytes than the buffer ends `size` bytes behind its start, if it stops before
-- the end of the buffer; otherwise its end is the buffer's length below that, and stands before
-- the start.
pub slice_at_lem :
    (head size : ℕ)
    → head < u64_mod
    → size ≤ buffer_size_mask
    → let s = slice_at head size in
      (head % buffer_size + size < buffer_size → s.end ≡ s.start + size)
      × (buffer_size ≤ head % buffer_size + size
          → (s.end + buffer_size ≡ s.start + size) × (s.end < s.start))
unfolding slice_at
slice_at_lem head size h s =
    let start = and_mask 23 head in
    let end = and_mask 23 (add64 head size) in
    (λ p. omega (arith, start, end), λ p. omega (arith, start, end))
