-- ===== src/Db/SpRingBuffer.antt =====
-- `SPSCRingBuffer` (src/db/sp_ring_buffer.h): a ring of bytes whose storage is mapped twice, one
-- copy behind the other, so that a region may run over the end.
pub mod Bytes
pub mod Invariant
pub mod Queue
pub mod Mapping
pub mod Threads
mod Tests
use Prim.Native.Nat.{bit_and}
use qstorage.Prelude.{
  ℕ, suc, ◌+◌, ◌-◌, ◌*◌, Option, none, some, List, [], ◌∷◌, ltb, ◌==◌, if◌then◌else◌,
}
use qstorage.Prelude.Words.{add64, sub64}
use qstorage.Db.Constant.{buffer_size, buffer_size_mask}

-- `tail_`, `head_`, and the shared memory behind `buffer_`, by its offset in the memory object
pub record Ring : Type 0 where
  pub tail : ℕ
  pub head : ℕ
  pub mem : ℕ → ℕ

-- The two mappings that the constructor makes: the offset in the memory object of the byte at an
-- offset from `buffer_`, or `none` past the second mapping.
abbrev pub physical : ℕ → Option ℕ
physical off =
    if ltb off buffer_size
    then some off
    else (if ltb off (2 * buffer_size) then some (off - buffer_size) else none)

abbrev pub fresh : (ℕ → ℕ) → Ring
fresh mem = record { tail = 0; head = 0; mem = mem }

-- The region is given by its offset from `buffer_`; `none` is the null pointer.
unfoldable pub request_write_space : Ring → ℕ → Option ℕ × Ring
request_write_space r size =
    let used_space = sub64 r.head r.tail in
    let free_space = sub64 buffer_size used_space in
    if ltb free_space size
    then (none, r)
    else (some (bit_and r.head buffer_size_mask), record r { head = add64 r.head size })

unfoldable pub commit_write : Ring → ℕ → Ring
commit_write r size = record r { tail = add64 r.tail size }

abbrev pub update : (ℕ → ℕ) → ℕ → ℕ → ℕ → ℕ
update mem i b j = if i == j then b else mem j

-- A client copies bytes to an offset from `buffer_`; `none` is a fault outside the mappings.
unfoldable pub store : (ℕ → ℕ) → ℕ → List ℕ → Option (ℕ → ℕ)
store mem off [] = some mem
store mem off (b ∷ bs) = elim (physical off) [
  | none ↦ none
  | some i ↦ store (update mem i b) (suc off) bs
]
