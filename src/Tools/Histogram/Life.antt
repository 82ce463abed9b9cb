-- ===== src/Tools/Histogram/Life.antt =====
-- A histogram of src/tools/histogram.h from `CreateHistogram` on: data are inserted, and it is
-- printed.
use qstorage.Prelude.{
  ℕ, zero, suc, ◌*◌, ◌^◌, ◌<◌, ◌≤◌, ◌≡◌, ◌∙◌, Option, none, some, List, [], ◌∷◌, length, drop, take,
  total, arith, length-take,
}
use qstorage.Prelude.Words.{u64_mod, u32_mod}
use qstorage.Tools.Allocator.{Allocated, IsAllocator, Gives}
use qstorage.Tools.Histogram.{Histogram, create}
use qstorage.Tools.Histogram.Search.{Ascending}
use qstorage.Tools.Histogram.Counters.{sum}
use qstorage.Tools.Histogram.Run.{create-IsValid, insert_all, largest, insert_all_lem}
use qstorage.Tools.Histogram.Create.{create_size, words_in, placed, create_histogram}
use qstorage.Tools.Histogram.Print.{print, counted_in, print-IsValid}

sum-drop : (n : ℕ) (xs : List ℕ) → sum (drop n xs) ≤ sum xs
sum-drop zero xs = omega arith
sum-drop (suc n) [] = omega arith
sum-drop (suc n) (x ∷ xs) = omega (arith, sum-drop n xs)

sum-take : (n : ℕ) (xs : List ℕ) → sum (take n xs) ≤ sum xs
sum-take zero xs = omega arith
sum-take (suc n) [] = omega arith
sum-take (suc n) (x ∷ xs) = omega (arith, sum-take n xs)

-- What a histogram has recorded of the data, and what `Print` says of them
abbrev pub Records : Histogram → (ds : List ℕ) → Type 0
Records h ds =
    (h' : Histogram) × (insert_all h ds ≡ some h')
    × (h'.num ≡ length ds)
    × (h'.total ≡ sum ds)
    × (h'.max ≡ largest 0 ds)
    × (total counted_in (print h') ≡ length ds)

create-Records :
    (memory buckets ds : List ℕ)
    → length memory ≡ 2 * length buckets
    → 0 < length buckets
    → length buckets < 2 ^ 30
    → Ascending buckets (length buckets)
    → sum memory ≡ 0
    → length ds < u32_mod
    → sum ds < u64_mod
    → Records (create memory buckets) ds
unfolding create
create-Records memory buckets ds size some_bucket small asc zeros few fits =
    let v =
      create-IsValid memory buckets size some_bucket small asc
        (omega (arith, zeros, sum-drop (length buckets) memory)) in
    let (h', run, v', n, t, m) =
      insert_all_lem (create memory buckets) ds v (omega (arith, few)) (omega (arith, fits)) in
    (h', run, omega (arith, n), omega (arith, t), m, (print-IsValid h' v').1 ∙ omega (arith, n))

module _ {M : Type 0} (a : IsAllocator M) where
  open a use {in_use}

  -- A histogram in a new block that records the data, or an exception and no new block
  abbrev pub Lives : M → (ds : List ℕ) → Option (ℕ × Histogram) × M → Type 0
  Lives m ds (some (p, h), m') = (in_use m p ≡ none) × Records h ds
  Lives m ds (none, m') = in_use m' ≡ in_use m

  placed-Lives :
      (memory buckets ds : List ℕ) (m : M) (r : Allocated × M)
      → Records (create (take (2 * length buckets) memory) buckets) ds
      → Gives in_use (create_size (length buckets)) m r
      → Lives m ds (placed a memory buckets r)
  placed-Lives memory buckets ds m (Allocated.pointer p, m') records gives = (gives.0, records)
  placed-Lives memory buckets ds m (Allocated.bad_alloc, m') records gives = gives

  -- `CreateHistogram` with at least 1 and fewer than `2 ^ 30` ascending bounds, in a block that
  -- holds zeros, throws and leaves the blocks, or gives a histogram in a new block. Fewer than `2 ^
  -- 32` data with a sum below `2 ^ 64` that are inserted then are all counted: the number, the
  -- total and the maximum are theirs, and the counts that `Print` logs add up to their number.
  pub create_histogram-Lives :
      (memory buckets ds : List ℕ) (m : M)
      → length memory ≡ words_in (create_size (length buckets))
      → 0 < length buckets
      → length buckets < 2 ^ 30
      → Ascending buckets (length buckets)
      → sum memory ≡ 0
      → length ds < u32_mod
      → sum ds < u64_mod
      → Lives m ds (create_histogram a memory buckets m)
  unfolding create_histogram
  create_histogram-Lives memory buckets ds m words some_bucket small asc zeros few fits =
      let used = take (2 * length buckets) memory in
      placed-Lives memory buckets ds m _
        (create-Records used buckets ds
          (length-take (2 * length buckets) memory (omega (arith, words, small))) some_bucket small
          asc (omega (arith, zeros, sum-take (2 * length buckets) memory)) few fits)
        (a.allocate_block-Gives (create_size (length buckets)) m (omega (arith, small)))
