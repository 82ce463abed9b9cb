-- ===== src/Db/SpRingBuffer/Mapping.antt =====
-- The constructor and the destructor of `SPSCRingBuffer` (src/db/sp_ring_buffer.h). The system
-- calls are a parameter with their documented effects on the open descriptors and on the address
-- space.
pub mod Construct
mod Tests
use qstorage.Prelude.{
  ℕ, ◌+◌, ◌-◌, ◌*◌, ◌≤◌, ◌<◌, ◌≡◌, Bool, true, false, ◌&&◌, Option, none, some, List, ◌∷◌, ltb, leb,
  ◌==◌, if◌then◌else◌,
}
use qstorage.Db.Constant.{block_size, page_size, buffer_size}

-- What an address is mapped to: an offset in the memory object of a descriptor
abbrev pub Place : Type 0
Place = ℕ × ℕ

abbrev pub within : (first size a : ℕ) → Bool
within first size a = leb first a && ltb a (first + size)

-- What a call that gives a descriptor, or -1, does to the open ones
abbrev pub Opens : Option ℕ → (before after : List ℕ) → Type 0
Opens none before after = after ≡ before
Opens (some fd) before after = after ≡ fd ∷ before

-- `W` is the state of the system for this process. `mmap_anywhere` is the first call of `mmap`, and
-- `mmap_fixed` the one with `MAP_FIXED`.
pub record Os (W : Type 0) : Type 0 where
  pub fds : W → List ℕ
  pub mapped : W → ℕ → Option Place
  pub shm_open : (exclusive : Bool) → W → Option ℕ × W
  pub shm_unlink : W → W
  pub ftruncate : (fd size : ℕ) → W → Bool × W
  pub close : (fd : ℕ) → W → W
  pub mmap_anywhere : (size : ℕ) → W → Option ℕ × W
  pub mmap_fixed : (addr size fd : ℕ) → W → Bool × W
  pub munmap : (addr size : ℕ) → W → W
  pub shm_open-Opens :
      (exclusive : Bool) (w : W)
      → Opens (shm_open exclusive w).0 (fds w) (fds (shm_open exclusive w).1)
  pub shm_unlink-fds : (w : W) → fds (shm_unlink w) ≡ fds w
  pub ftruncate-fds : (fd size : ℕ) (w : W) → fds (ftruncate fd size w).1 ≡ fds w
  pub close-fds : (fd : ℕ) (rest : List ℕ) (w : W) → fds w ≡ fd ∷ rest → fds (close fd w) ≡ rest
  pub close-mapped : (fd : ℕ) (w : W) → mapped (close fd w) ≡ mapped w
  pub mmap_anywhere-fds : (size : ℕ) (w : W) → fds (mmap_anywhere size w).1 ≡ fds w
  pub mmap_fixed-fds : (addr size fd : ℕ) (w : W) → fds (mmap_fixed addr size fd w).1 ≡ fds w
  pub mmap_fixed-mapped :
      (addr size fd : ℕ) (w : W) (a : ℕ)
      → (mmap_fixed addr size fd w).0 ≡ true
      → mapped (mmap_fixed addr size fd w).1 a
        ≡ (if within addr size a then some (fd, a - addr) else mapped w a)
  pub munmap-fds : (addr size : ℕ) (w : W) → fds (munmap addr size w) ≡ fds w
  pub munmap-mapped :
      (addr size : ℕ) (w : W) (a : ℕ)
      → mapped (munmap addr size w) a ≡ (if within addr size a then none else mapped w a)

-- The exceptions of the constructor
pub data Failure : Type 0 where
  no_object no_size no_space no_first no_second : Failure

-- The `buffer_` of the object, or the exception
pub data Built : Type 0 where
  built : ℕ → Built
  thrown : Failure → Built

module _ {W : Type 0} (os : Os W) where
  open os use {shm_open, shm_unlink, ftruncate, close, mmap_anywhere, mmap_fixed, munmap}

  -- The constructor, from its last call on upwards; each part takes the result of the call before.
  unfoldable pub after_second : (fd base : ℕ) → Bool × W → Built × W
  after_second fd base (false, w) = (Built.thrown Failure.no_second, w)
  after_second fd base (true, w) = (Built.built base, close fd w)

  unfoldable pub after_first : (fd base : ℕ) → Bool × W → Built × W
  unfolding after_second
  after_first fd base (false, w) = (Built.thrown Failure.no_first, w)
  after_first fd base (true, w) =
      after_second fd base (mmap_fixed (base + buffer_size) buffer_size fd w)

  unfoldable pub after_space : (fd : ℕ) → Option ℕ × W → Built × W
  unfolding after_first
  after_space fd (none, w) = (Built.thrown Failure.no_space, w)
  after_space fd (some raw_space, w) =
      let skipped = block_size - page_size in
      let w' = if ltb 0 skipped then munmap raw_space skipped w else w in
      let base = raw_space + skipped in after_first fd base (mmap_fixed base buffer_size fd w')

  unfoldable pub after_size : (fd : ℕ) → Bool × W → Built × W
  unfolding after_space
  after_size fd (false, w) = (Built.thrown Failure.no_size, close fd w)
  after_size fd (true, w) =
      after_space fd (mmap_anywhere (buffer_size * 2 + block_size - page_size) w)

  unfoldable pub after_open : Option ℕ × W → Built × W
  unfolding after_size
  after_open (none, w) = (Built.thrown Failure.no_object, w)
  after_open (some fd, w) = after_size fd (ftruncate fd buffer_size (shm_unlink w))

  unfoldable pub after_exclusive : Option ℕ × W → Built × W
  unfolding after_open
  after_exclusive (none, w) = after_open (shm_open false w)
  after_exclusive (some fd, w) = after_open (some fd, w)

  unfoldable pub construct : W → Built × W
  unfolding after_exclusive
  construct w = after_exclusive (shm_open true w)

  -- The destructor
  unfoldable pub destroy : (buffer : Option ℕ) → W → W
  destroy none w = w
  destroy (some buffer) w = munmap buffer (buffer_size * 2) w
