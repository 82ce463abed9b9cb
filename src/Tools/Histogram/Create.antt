-- ===== src/Tools/Histogram/Create.antt =====
-- `CreateHistogram` and `FreeHistogram` of src/tools/histogram.h with the allocator of
-- src/tools/allocator.h.
use native.Mathlib.Nat.{mod-eq_of_lt}
use qstorage.Prelude.{
  ℕ, ◌+◌, ◌-◌, ◌*◌, ◌/◌, ◌%◌, ◌^◌, ◌<◌, ◌≡◌, Option, none, some, List, length, drop, take,
  length-take, arith, length-append,
}
use qstorage.Prelude.Words.{u64_mod}
use qstorage.Tools.Allocator.{Allocated, IsAllocator, Gives}
use qstorage.Tools.Histogram.{Histogram, create}
use qstorage.Tools.Histogram.Counters.{length-drop}

-- The fields take 4, 4, 8 and 8 bytes, and one word of `data_` the last 4; the size of the type is
-- the next multiple of 8.
abbrev pub sizeof_fields : ℕ
sizeof_fields = 24

abbrev pub sizeof_histogram : ℕ
sizeof_histogram = 32

abbrev pub create_size : ℕ → ℕ
create_size buckets = (sizeof_histogram + 2 * 4 * buckets) % u64_mod

-- The words of `data_` in a block of some bytes
abbrev pub words_in : ℕ → ℕ
words_in bytes = (bytes - sizeof_fields) / 4

module _ {M : Type 0} (a : IsAllocator M) where
  open a use {allocate_block, deallocate_block, in_use}

  -- The histogram in the block that the allocator gives, whose words of `data_` are `memory`, of
  -- which it uses as many as it has bounds and counters; `none` if the allocator throws.
  abbrev pub placed : (memory buckets : List ℕ) → Allocated × M → Option (ℕ × Histogram) × M
  placed memory buckets (Allocated.pointer p, m) =
      (some (p, create (take (2 * length buckets) memory) buckets), m)
  placed memory buckets (Allocated.bad_alloc, m) = (none, m)

  unfoldable pub create_histogram : (memory buckets : List ℕ) → M → Option (ℕ × Histogram) × M
  create_histogram memory buckets m =
      placed memory buckets (allocate_block (create_size (length buckets)) m)

  unfoldable pub free_histogram : ℕ → M → M
  free_histogram p m = deallocate_block p m

  -- What a caller of `CreateHistogram` gets: a block of the size asked for, in which the bounds and
  -- as many counters fit, or an exception and no new block.
  abbrev pub HasRoom : M → (buckets : List ℕ) → Option (ℕ × Histogram) × M → Type 0
  HasRoom m buckets (some (p, h), m') =
      (in_use m' p ≡ some (create_size (length buckets)))
      × (h.num_buckets ≡ length buckets)
      × (length h.words ≡ 2 * h.num_buckets)
  HasRoom m buckets (none, m') = in_use m' ≡ in_use m

  placed-HasRoom :
      (memory buckets : List ℕ) (m : M) (r : Allocated × M)
      → length memory ≡ words_in (create_size (length buckets))
      → length buckets < 2 ^ 30
      → Gives in_use (create_size (length buckets)) m r
      → HasRoom m buckets (placed memory buckets r)
  unfolding create
  placed-HasRoom memory buckets m (Allocated.pointer p, m') words small gives = (
    gives.1,
    mod-eq_of_lt (omega (arith, small)),
    omega (
      arith,
      small,
      length-append buckets (drop (length buckets) (take (2 * length buckets) memory)),
      length-drop (length buckets) (take (2 * length buckets) memory),
      length-take (2 * length buckets) memory (omega (arith, words, small)),
    ),
  )
  placed-HasRoom memory buckets m (Allocated.bad_alloc, m') words small gives = gives

  -- For fewer than `2 ^ 30` buckets `CreateHistogram` asks for a block in which the bounds and as
  -- many counters fit, whatever the block holds; where the allocator throws no block is new.
  pub create_histogram-HasRoom :
      (memory buckets : List ℕ) (m : M)
      → length memory ≡ words_in (create_size (length buckets))
      → length buckets < 2 ^ 30
      → HasRoom m buckets (create_histogram memory buckets m)
  unfolding create_histogram
  create_histogram-HasRoom memory buckets m words small =
      let n = create_size (length buckets) in
      placed-HasRoom memory buckets m (allocate_block n m) words small
        (a.allocate_block-Gives n m (omega (arith, small)))
