-- ===== src/Db/RingBuffer/Reserve.antt =====
-- The compare-and-exchange loop of `RequestWriteSpace` (src/db/ring_buffer.h).
use qstorage.Prelude.{
  ℕ, ◌≤◌, ◌≡◌, refl, ap, inl, inr, ◌&&◌, not, List, [], ◌∷◌, ◌++◌, arith, ltb, ◌==◌, Bool-cases,
}
use qstorage.Prelude.Words.{add64}
use qstorage.Db.RingBuffer.{Round, Slice, granted, free_space, slice_at, reserve}

-- If the loop grants a region, some round's exchange met the head at which the region starts, the
-- test passed with that head and that round's tail, and the new head is the start plus the size.
pub reserve-granted :
    (size cur_head : ℕ) (rounds : List Round) (s : Slice) (new_head : ℕ)
    → reserve size cur_head rounds ≡ granted s new_head
    → (before : List Round) × (r : Round) × (after : List Round) × (rounds ≡ before ++ r ∷ after)
      × (size ≤ free_space r.head r.tail)
      × (s ≡ slice_at r.head size)
      × (new_head ≡ add64 r.head size)
unfolding reserve
reserve-granted size cur_head [] s new_head h = absurd (cc)
reserve-granted size cur_head (r ∷ rounds) s new_head h =
    elim (Bool-cases (ltb (free_space cur_head r.tail) size)) [
      | inl over ↦ absurd (ground arith)
      | inr fits ↦ elim (Bool-cases ((r.head == cur_head) && not r.spurious)) [
        | inl won ↦ ([], r, rounds, refl, ground arith, ground arith, ground arith)
        | inr lost ↦
            let h' : reserve size r.head rounds ≡ granted s new_head =
              rw (fits, lost, reserve) at h in
            let (before, r', after, split, fits', at, new) =
              reserve-granted size r.head rounds s new_head h' in
            (r ∷ before, r', after, ap (◌∷◌ r) split, fits', at, new)
      ]
    ]
