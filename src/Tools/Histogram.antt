-- ===== src/Tools/Histogram.antt =====
-- `Histogram` of src/tools/histogram.h. `data_` (here `words`) has `num_buckets_` bounds and then
-- as many counters. `num_buckets_` is an `int32_t`, kept by its 32 bits: a number from `2 ^ 31` on
-- stands for a negative one. Where an `int32_t` overflows, or an index is outside of the words, the
-- source has no defined behaviour, and the model gives `none`. `hi` may be -1, and is kept as the
-- number `past` behind it, `hi + 1`.
pub mod Search
pub mod Counters
pub mod Run
pub mod Create
pub mod Print
pub mod Life
pub mod Order
mod Tests
use qstorage.Prelude.{
  true, false, ◌&&◌, ◌==◌, ◌%◌, ◌^◌, ℕ, zero, suc, ◌+◌, ◌-◌, ◌*◌, ◌/◌, Bool, Option, none, some,
  List, [], ◌∷◌, ◌++◌, length, get_or, set, drop, ltb, if◌then◌else◌,
}
use qstorage.Prelude.Words.{add64, add32, u32_mod}

pub record Histogram : Type 0 where
  pub num_buckets : ℕ
  pub max : ℕ
  pub num : ℕ
  pub total : ℕ
  pub words : List ℕ

-- The constructor, in memory with these words behind the other fields: only the bounds are written.
unfoldable pub create : (memory buckets : List ℕ) → Histogram
create memory buckets = record {
  num_buckets = length buckets % u32_mod;
  max = 0;
  num = 0;
  total = 0;
  words = buckets ++ drop (length buckets) memory;
}

-- The `while` of `Insert`: where `lo` ends, or `none` if not within the rounds given
unfoldable pub search_loop : ℕ → List ℕ → (datum lo past : ℕ) → Option ℕ
search_loop zero words datum lo past = none
search_loop (suc f) words datum lo past =
    let mid = lo + (past - 1 - lo) / 2 in
    let above = search_loop f words datum (mid + 1) past in
    let below = search_loop f words datum lo mid in
    if ltb (lo + 1) past then (if ltb (get_or words mid 0) datum then above else below) else some lo

-- The interval shrinks in every round. What it gives counts where `num_buckets_` is not negative.
unfoldable pub find_bucket : Histogram → ℕ → Option ℕ
unfolding search_loop
find_bucket h datum = search_loop (suc h.num_buckets) h.words datum 0 h.num_buckets

abbrev pub counted : Histogram → (datum lo : ℕ) → Histogram
counted h datum lo =
    let i = lo + h.num_buckets in
    record {
      num_buckets = h.num_buckets;
      max = if ltb h.max datum then datum else h.max;
      num = add64 h.num 1;
      total = add64 h.total datum;
      words = set h.words i (add32 (get_or h.words i 0) 1);
    }

-- The test that the index of a counter, `lo + num_buckets_`, neither overflows nor leaves the words
abbrev pub is_counter : Histogram → (lo : ℕ) → Bool
is_counter h lo = ltb (lo + h.num_buckets) (2 ^ 31) && ltb (lo + h.num_buckets) (length h.words)

abbrev pub if_counter : Histogram → Option ℕ → Option ℕ
if_counter h none = none
if_counter h (some lo) = if is_counter h lo then some lo else none

-- The bucket that `Insert` counts in
unfoldable pub find_counter : Histogram → ℕ → Option ℕ
find_counter h datum = if_counter h (find_bucket h datum)

unfoldable pub insert : Histogram → ℕ → Option Histogram
insert h datum = elim (find_counter h datum) [ none ↦ none | some lo ↦ some (counted h datum lo) ]

-- The `for` of `Merge`: the words from an index on, in each of the two histograms
abbrev pub add_counters : List ℕ → List ℕ → List ℕ
add_counters xs [] = xs
add_counters [] (y ∷ ys) = []
add_counters (x ∷ xs) (y ∷ ys) = add32 x y ∷ add_counters xs ys

abbrev pub from : ℕ → (List ℕ → List ℕ) → List ℕ → List ℕ
from zero f xs = f xs
from (suc n) f [] = []
from (suc n) f (x ∷ xs) = x ∷ from n f xs

-- The assertions of `Merge`, which the `DEBUG` of src/config/config.h turns on: the bounds are the
-- same.
abbrev pub same_words : ℕ → (xs ys : List ℕ) → Bool
same_words zero xs ys = true
same_words (suc n) [] ys = false
same_words (suc n) (x ∷ xs) [] = false
same_words (suc n) (x ∷ xs) (y ∷ ys) = (x == y) && same_words n xs ys

abbrev pub can_merge : Histogram → Histogram → Bool
can_merge h g = (h.num_buckets == g.num_buckets) && same_words h.num_buckets h.words g.words

-- `Merge` behind its assertions, where `num_buckets_ * 2` does not overflow
abbrev pub merged : Histogram → Histogram → Histogram
merged h g = record {
  num_buckets = h.num_buckets;
  max = if ltb g.max h.max then g.max else h.max;
  num = add64 h.num g.num;
  total = add64 h.total g.total;
  words = from h.num_buckets (λ xs. add_counters xs (drop h.num_buckets g.words)) h.words;
}

-- `none` where an assertion fails or `num_buckets_ * 2` overflows
unfoldable pub merge : Histogram → Histogram → Option Histogram
merge h g = if can_merge h g && ltb (2 * g.num_buckets) (2 ^ 31) then some (merged h g) else none
