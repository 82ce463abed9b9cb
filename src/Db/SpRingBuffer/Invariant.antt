-- ===== src/Db/SpRingBuffer/Invariant.antt =====
-- The bytes that are in use never exceed the storage, and a region that is granted lies inside the
-- two mappings.
use Prim.Native.Nat.{bit_and}
use qstorage.Prelude.{ℕ, ◌+◌, ◌*◌, ◌%◌, ◌≤◌, ◌<◌, ◌≡◌, ◌↔◌, none, some, arith}
use qstorage.Prelude.Bits.{and_mask}
use qstorage.Prelude.Words.{u64_mod, add64, sub64}
use qstorage.Db.Constant.{buffer_size, buffer_size_mask}
use qstorage.Db.SpRingBuffer.{Ring, fresh, request_write_space, commit_write}

-- The counters wrap; what is in use is their difference.
abbrev pub used : Ring → ℕ
used r = sub64 r.head r.tail

pub record IsValid (r : Ring) : Type 0 where
  pub head_fits : r.head < u64_mod
  pub tail_fits : r.tail < u64_mod
  pub used_le : used r ≤ buffer_size

pub fresh-IsValid : (mem : ℕ → ℕ) → IsValid (fresh mem)
fresh-IsValid mem = omega arith

pub index-mod : (n : ℕ) → bit_and n buffer_size_mask ≡ n % buffer_size
index-mod n = and_mask 23 n

-- A request is refused, and changes nothing, exactly when the bytes in use and the new ones
-- together exceed the storage.
pub request_write_space-none :
    (r : Ring) (size : ℕ)
    → IsValid r
    → ((request_write_space r size).0 ≡ none) ↔ (buffer_size < used r + size)
unfolding request_write_space
request_write_space-none r size v = (λ h. ground arith, λ h. ground arith)

pub request_write_space-refused :
    (r : Ring) (size : ℕ)
    → IsValid r
    → buffer_size < used r + size
    → request_write_space r size ≡ (none, r)
unfolding request_write_space
request_write_space-refused r size v h = ground arith

pub request_write_space-granted :
    (r : Ring) (size : ℕ)
    → IsValid r
    → used r + size ≤ buffer_size
    → request_write_space r size
      ≡ (some (r.head % buffer_size), record r { head = add64 r.head size })
unfolding request_write_space
request_write_space-granted r size v h = ground (arith, index-mod r.head)

pub used-grant :
    (r : Ring) (size : ℕ)
    → IsValid r
    → used r + size ≤ buffer_size
    → used (record r { head = add64 r.head size }) ≡ used r + size
used-grant r size v h = omega arith

-- A request keeps the invariant, whatever its size; a region that it grants starts at the byte
-- behind those in use and ends inside the second mapping.
pub request_write_space-IsValid :
    (r : Ring) (size : ℕ)
    → IsValid r
    → IsValid (request_write_space r size).1
      × ((off : ℕ)
          → (request_write_space r size).0 ≡ some off
          → (off ≡ (r.tail + used r) % buffer_size) × (off + size ≤ 2 * buffer_size))
unfolding request_write_space
request_write_space-IsValid r size v = (ground arith, λ off h. ground (arith, index-mod r.head))

-- A commit of bytes that are in use keeps the invariant and takes exactly those bytes off.
pub commit_write-IsValid :
    (r : Ring) (size : ℕ)
    → IsValid r
    → size ≤ used r
    → IsValid (commit_write r size) × (used (commit_write r size) + size ≡ used r)
unfolding commit_write
commit_write-IsValid r size v h = ground arith
