-- ===== src/Db/RingBuffer/Tests.antt =====
-- Two writers at one head, and a full buffer that grants a region.
use qstorage.Prelude.{ℕ, ◌+◌, ◌-◌, ◌%◌, ◌≤◌, ◌<◌, ◌≡◌, refl, true, false, List, [], ◌∷◌, arith}
use qstorage.Prelude.Words.{add64, sub64}
use qstorage.Db.Constant.{buffer_size}
use qstorage.Db.RingBuffer.{Round, granted, free_space, slice_at, reserve}
use qstorage.Db.RingBuffer.Overcommit.{reserve_overcommits, slice_at_lem}

-- Another writer takes 16 bytes first; then the exchange fails once for no reason.
abbrev contended : List Round
contended =
    record { tail = 0; head = 16; spurious = false }
    ∷ record { tail = 0; head = 16; spurious = true }
    ∷ record { tail = 0; head = 16; spurious = false }
    ∷ []

contended_runs : reserve 8 0 contended ≡ granted (record { start = 16; end = 24 }) 24
unfolding reserve free_space slice_at
contended_runs = refl

-- With all but ten bytes in use, a request of a hundred is granted.
reserve_overcommits_example :
    let head : ℕ = buffer_size - 10 in
    let round : Round = record { tail = 0; head = head; spurious = false } in
    (reserve 100 head (round ∷ []) ≡ granted (slice_at head 100) (add64 head 100))
    × (sub64 (add64 head 100) 0 ≡ sub64 head 0 + 100)
reserve_overcommits_example =
    reserve_overcommits (buffer_size - 10) 0 100 (omega arith) (omega arith) (omega arith)
      (omega arith)

slice_at_lem_example :
    let s = slice_at (buffer_size - 10) 100 in
    ((buffer_size - 10) % buffer_size + 100 < buffer_size → s.end ≡ s.start + 100)
    × (buffer_size ≤ (buffer_size - 10) % buffer_size + 100
        → (s.end + buffer_size ≡ s.start + 100) × (s.end < s.start))
slice_at_lem_example = slice_at_lem (buffer_size - 10) 100 (omega arith) (omega arith)
