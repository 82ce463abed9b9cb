-- ===== src/Tools/Histogram/Run.antt =====
-- `Insert` and `Merge` of src/tools/histogram.h on well-formed histograms.
use native.Mathlib.Nat.{mod-eq_of_lt}
use qstorage.Prelude.{
  zero, true, ◌≤◌, ◌^◌, ◌&&◌, ◌++◌, ltb, if_true, ℕ, suc, ◌+◌, ◌*◌, ◌<◌, ◌≡◌, refl, ap, ◌∙◌, max,
  min, Option, none, some, List, [], ◌∷◌, arith, length, length-set, length-append, get_or, set,
  drop,
}
use qstorage.Prelude.Words.{u64_mod, u32_mod, add32}
use qstorage.Tools.Histogram.{
  Histogram, create, find_bucket, find_counter, is_counter, if_counter, counted, insert,
  add_counters, from, same_words, can_merge, merged, merge,
}
use qstorage.Tools.Histogram.Search.{Ascending, Found, find_bucket-Found}
use qstorage.Tools.Histogram.Counters.{
  sum, length-drop, drop-append, get_or-append, drop-set, get_or-drop, get_or-set, get_or-sum,
  sum-set, length-add_counters, sum-add_counters, drop-from, length-from, get_or-from,
}

abbrev pub counters : Histogram → List ℕ
counters h = drop h.num_buckets h.words

-- A histogram with ascending bounds, fewer than `2 ^ 30`, whose counters together count its
-- insertions
pub record IsValid (h : Histogram) : Type 0 where
  pub size : length h.words ≡ 2 * h.num_buckets
  pub some_bucket : 0 < h.num_buckets
  pub few : h.num_buckets < 2 ^ 30
  pub ascending : Ascending h.words h.num_buckets
  pub count : sum (counters h) ≡ h.num

-- The constructor leaves the counters of a new histogram as the memory has them.
pub counters-create :
    (memory buckets : List ℕ)
    → length buckets < u32_mod
    → counters (create memory buckets) ≡ drop (length buckets) memory
unfolding create
counters-create memory buckets few =
    ap (λ n. drop n (buckets ++ drop (length buckets) memory)) (mod-eq_of_lt few)
    ∙ drop-append buckets (drop (length buckets) memory)

-- A new histogram is well-formed where its bounds ascend and the memory behind them was zero.
pub create-IsValid :
    (memory buckets : List ℕ)
    → length memory ≡ 2 * length buckets
    → 0 < length buckets
    → length buckets < 2 ^ 30
    → Ascending buckets (length buckets)
    → sum (drop (length buckets) memory) ≡ 0
    → IsValid (create memory buckets)
unfolding create
create-IsValid memory buckets size some_bucket few asc zeros = record {
  size = omega (
    arith,
    few,
    length-append buckets (drop (length buckets) memory),
    length-drop (length buckets) memory,
    size,
  );
  some_bucket = omega (arith, some_bucket, few);
  few = omega (arith, few);
  ascending = λ i j less k. omega (
    arith,
    few,
    get_or-append buckets (drop (length buckets) memory) i (omega (arith, k, less, few)),
    get_or-append buckets (drop (length buckets) memory) j (omega (arith, k, few)),
    asc i j less (omega (arith, k, few)),
  );
  count = ap sum (counters-create memory buckets (omega (arith, few))) ∙ zeros;
}

length-counters : (h : Histogram) → IsValid h → length (counters h) ≡ h.num_buckets
length-counters h v = omega (arith, length-drop h.num_buckets h.words, v.size)

counted-counters :
    (h : Histogram) (datum lo : ℕ)
    → IsValid h
    → suc h.num < u32_mod
    → counters (counted h datum lo) ≡ set (counters h) lo (get_or (counters h) lo 0 + 1)
counted-counters h datum lo v small =
    drop-set h.num_buckets lo h.words (add32 (get_or h.words (lo + h.num_buckets) 0) 1)
    ∙ ap (set (counters h) lo) next
  where
    next : add32 (get_or h.words (lo + h.num_buckets) 0) 1 ≡ get_or (counters h) lo 0 + 1
    next = omega (arith, get_or-drop h.num_buckets lo h.words, get_or-sum (counters h) lo, v.count)

counted-IsValid :
    (h : Histogram) (datum lo : ℕ)
    → IsValid h
    → lo < h.num_buckets
    → suc h.num < u32_mod
    → IsValid (counted h datum lo)
counted-IsValid h datum lo v inside small = record {
  size = length-set h.words (lo + h.num_buckets) _ ∙ v.size;
  some_bucket = v.some_bucket;
  few = v.few;
  ascending = λ i j less k.
      let e =
        get_or-set h.words i (lo + h.num_buckets) (add32 (get_or h.words (lo + h.num_buckets) 0) 1)
          (omega arith) in
      let e' =
        get_or-set h.words j (lo + h.num_buckets) (add32 (get_or h.words (lo + h.num_buckets) 0) 1)
          (omega arith) in
      omega (arith, e, e', v.ascending i j less k);
  count = omega (
    arith,
    ap sum (counted-counters h datum lo v small),
    sum-set (counters h) lo (omega (arith, length-counters h v)),
    v.count,
  );
}

-- The counter of a bucket of a well-formed histogram is one of its words.
insert-eq :
    (h : Histogram) (datum lo : ℕ)
    → IsValid h
    → lo < h.num_buckets
    → find_bucket h datum ≡ some lo
    → insert h datum ≡ some (counted h datum lo)
unfolding insert find_counter
insert-eq h datum lo v inside e =
    let there : is_counter h lo ≡ true = ground (arith, v.size, v.few, inside) in
    ap (λ (o : Option ℕ). elim o [ none ↦ none | some i ↦ some (counted h datum i) ])
      (ap (if_counter h) e ∙ if_true _ _ _ there)

-- `Insert` into a well-formed histogram whose number does not wrap ends: it counts the datum in the
-- bucket found, and nowhere else, and leaves a well-formed histogram.
pub insert-IsValid :
    (h : Histogram) (datum : ℕ)
    → IsValid h
    → suc h.num < u32_mod
    → (lo : ℕ) × (h' : Histogram) × (insert h datum ≡ some h')
      × IsValid h'
      × Found h.words h.num_buckets datum lo
      × (counters h' ≡ set (counters h) lo (get_or (counters h) lo 0 + 1))
insert-IsValid h datum v small =
    let (lo, e, found) = find_bucket-Found h datum v.some_bucket v.ascending in
    (
      lo,
      counted h datum lo,
      insert-eq h datum lo v found.inside e,
      counted-IsValid h datum lo v found.inside small,
      found,
      counted-counters h datum lo v small,
    )

abbrev pub insert_all : Histogram → List ℕ → Option Histogram
insert_all h [] = some h
insert_all h (d ∷ ds) = elim (insert h d) [ none ↦ none | some h' ↦ insert_all h' ds ]

abbrev pub largest : ℕ → List ℕ → ℕ
largest m [] = m
largest m (d ∷ ds) = largest (max m d) ds

-- Data inserted one after another into a well-formed histogram, where their number and their sum
-- still fit, are all counted: the counters grow
-- by their number, and the total and the maximum are those of all the data.
pub insert_all_lem :
    (h : Histogram) (ds : List ℕ)
    → IsValid h
    → h.num + length ds < u32_mod
    → h.total + sum ds < u64_mod
    → (h' : Histogram) × (insert_all h ds ≡ some h')
      × IsValid h'
      × (h'.num ≡ h.num + length ds)
      × (h'.total ≡ h.total + sum ds)
      × (h'.max ≡ largest h.max ds)
insert_all_lem h [] v small total = (h, refl, v, omega arith, omega arith, refl)
insert_all_lem h (d ∷ ds) v small total =
    let (lo, e, found) = find_bucket-Found h d v.some_bucket v.ascending in
    let h1 = counted h d lo in
    let (h', run, v', n, t, m) =
      insert_all_lem h1 ds (counted-IsValid h d lo v found.inside (omega arith)) (omega arith)
        (omega arith) in
    let top : h1.max ≡ max h.max d = ground arith in
    (
      h',
      ap (λ (o : Option Histogram). elim o [ none ↦ none | some k ↦ insert_all k ds ])
            (insert-eq h d lo v found.inside e)
          ∙ run,
      v',
      omega (arith, n),
      omega (arith, t),
      m ∙ ap (λ k. largest k ds) top,
    )

-- The same bounds pass the assertions of `Merge`.
same_words-IsSame :
    (n : ℕ) (xs ys : List ℕ)
    → n ≤ length xs
    → n ≤ length ys
    → ((i : ℕ) → i < n → get_or xs i 0 ≡ get_or ys i 0)
    → same_words n xs ys ≡ true
same_words-IsSame zero xs ys l m same = refl
same_words-IsSame (suc n) [] ys l m same = absurd (omega arith)
same_words-IsSame (suc n) (x ∷ xs) [] l m same = absurd (omega arith)
same_words-IsSame (suc n) (x ∷ xs) (y ∷ ys) l m same =
    let rest =
      same_words-IsSame n xs ys (omega arith) (omega arith)
        (λ i h. same (suc i) (omega (arith, h))) in
    ground (arith, same 0 (omega arith), rest)

-- `Merge` of well-formed histograms with the same bounds, where the sums of their numbers and
-- totals fit, passes its assertions and adds the counters, numbers and totals, but it keeps the
-- smaller of the two maxima.
pub merge-IsValid :
    (h g : Histogram)
    → IsValid h
    → IsValid g
    → h.num_buckets ≡ g.num_buckets
    → ((i : ℕ) → i < h.num_buckets → get_or h.words i 0 ≡ get_or g.words i 0)
    → h.num + g.num < u32_mod
    → h.total + g.total < u64_mod
    → (m : Histogram) × (merge h g ≡ some m)
      × IsValid m
      × (m.num ≡ h.num + g.num)
      × (m.total ≡ h.total + g.total)
      × (m.max ≡ min h.max g.max)
      × (counters m ≡ add_counters (counters h) (counters g))
unfolding merge
merge-IsValid h g v w same bounds small total =
    let words_same =
      same_words-IsSame h.num_buckets h.words g.words (omega (arith, v.size))
        (omega (arith, w.size, same)) bounds in
    let passes : (can_merge h g && ltb (2 * g.num_buckets) (2 ^ 31)) ≡ true =
      ground (arith, same, words_same, w.few) in
    let added : List ℕ → List ℕ = λ xs. add_counters xs (drop h.num_buckets g.words) in
    let both : drop h.num_buckets (from h.num_buckets added h.words) ≡ added (counters h) =
      drop-from h.num_buckets added h.words (omega (arith, v.size)) in
    let others : drop h.num_buckets g.words ≡ counters g = ap (λ k. drop k g.words) same in
    let together = both ∙ ap (add_counters (counters h)) others in
    (
      merged h g,
      if_true _ _ _ passes,
      record {
        size =
            length-from h.num_buckets added h.words
              (λ ys. length-add_counters ys (drop h.num_buckets g.words))
            ∙ v.size;
        some_bucket = v.some_bucket;
        few = v.few;
        ascending = λ i j less k. omega (
          arith,
          get_or-from h.num_buckets added h.words i (omega arith),
          get_or-from h.num_buckets added h.words j (omega arith),
          v.ascending i j less k,
        );
        count = omega (
          arith,
          ap sum together,
          sum-add_counters (counters h) (counters g)
              (omega (arith, length-counters h v, length-counters g w))
              (omega (arith, v.count, w.count)),
          v.count,
          w.count,
        );
      },
      omega arith,
      omega arith,
      ground arith,
      together,
    )
