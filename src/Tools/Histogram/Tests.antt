-- ===== src/Tools/Histogram/Tests.antt =====
-- The histogram of src/tools/histogram.h with the bounds 10, 20 and 30.
use qstorage.Prelude.{
  List, Option, none, true, false, ◌<◌, length, ◌==◌, if◌then◌else◌, if_true, if_false, ◌∙◌, ℕ,
  zero, suc, ◌≡◌, refl, ◌⊎◌, some, [], ◌∷◌, arith,
}
use qstorage.Tools.Histogram.{Histogram, create, find_bucket, merge}
use qstorage.Tools.Histogram.Search.{Ascending, find_bucket-middle}
use qstorage.Tools.Allocator.{Allocated, IsAllocator}
use qstorage.Tools.Histogram.Create.{create_histogram}
use qstorage.Tools.Histogram.Life.{Lives, create_histogram-Lives}
use qstorage.Tools.Histogram.Order.{InsertsAll, insert_all_unique}
use qstorage.Tools.Histogram.Run.{
  counters, IsValid, insert_all, insert_all_lem, counters-create, merge-IsValid,
}

abbrev three : Histogram
three = record {
  num_buckets = 3;
  max = 25;
  num = 1;
  total = 25;
  words = 10 ∷ 20 ∷ 30 ∷ 0 ∷ 0 ∷ 1 ∷ [];
}

three-Ascending : Ascending three.words 3
three-Ascending zero zero l k = absurd (omega arith)
three-Ascending zero (suc zero) l k = omega arith
three-Ascending zero (suc (suc zero)) l k = omega arith
three-Ascending zero (suc (suc (suc j))) l k = absurd (omega arith)
three-Ascending (suc i) zero l k = absurd (omega arith)
three-Ascending (suc zero) (suc zero) l k = absurd (omega arith)
three-Ascending (suc zero) (suc (suc zero)) l k = omega arith
three-Ascending (suc zero) (suc (suc (suc j))) l k = absurd (omega arith)
three-Ascending (suc (suc i)) (suc j) l k = absurd (omega arith)

three-IsValid : IsValid three
three-IsValid = record {
  size = refl;
  some_bucket = omega arith;
  few = omega arith;
  ascending = three-Ascending;
  count = refl;
}

find_bucket-middle_example : (find_bucket three 25 ≡ some 0) ⊎ (find_bucket three 25 ≡ some 2)
find_bucket-middle_example = find_bucket-middle 10 20 30 25 (0 ∷ 0 ∷ 1 ∷ []) 25 1 25

insert_all_lem_example :
    (h : Histogram) × (insert_all three (5 ∷ 40 ∷ []) ≡ some h)
    × IsValid h
    × (h.num ≡ 3)
    × (h.total ≡ 70)
    × (h.max ≡ 40)
insert_all_lem_example =
    insert_all_lem three (5 ∷ 40 ∷ []) three-IsValid (omega arith) (omega arith)

merge-IsValid_example :
    (m : Histogram) × (merge three three ≡ some m)
    × IsValid m
    × (m.num ≡ 2)
    × (m.total ≡ 50)
    × (m.max ≡ 25)
    × (counters m ≡ 0 ∷ 0 ∷ 2 ∷ [])
merge-IsValid_example =
    merge-IsValid three three three-IsValid three-IsValid refl (λ i h. refl) (omega arith)
      (omega arith)

-- The bound of the only bucket differs.
other_bounds : merge (create [] (10 ∷ [])) (create [] (20 ∷ [])) ≡ none
unfolding merge create
other_bounds = refl

counters_left : counters (create (7 ∷ 9 ∷ []) (10 ∷ [])) ≡ 9 ∷ []
counters_left = counters-create (7 ∷ 9 ∷ []) (10 ∷ []) (omega arith)

eq_self : (n : ℕ) → (suc n == suc n) ≡ true
eq_self n = ground arith

-- An arena that gives back nothing: the sizes of its blocks, the newest first, whose addresses
-- count up.
abbrev size_in : List ℕ → ℕ → Option ℕ
size_in [] p = none
size_in (n ∷ ns) p = let older = size_in ns p in if p == suc (length ns) then some n else older

size_in-new : (ns : List ℕ) (p : ℕ) → length ns < p → size_in ns p ≡ none
size_in-new [] p h = refl
size_in-new (n ∷ ns) p h =
    let other : (p == suc (length ns)) ≡ false = ground (arith, h) in
    if_false _ _ _ other ∙ size_in-new ns p (omega (arith, h))

abbrev arena : IsAllocator (List ℕ)
arena = record {
  allocate_block = λ n ns. (Allocated.pointer (suc (length ns)), n ∷ ns);
  deallocate_block = λ p ns. ns;
  in_use = size_in;
  allocate_block-Gives = λ n ns h.
      (size_in-new ns (suc (length ns)) (omega arith), if_true _ _ _ (eq_self (length ns)));
}

create_histogram-Lives_example :
    Lives arena [] (5 ∷ 40 ∷ []) (create_histogram arena (0 ∷ 0 ∷ 0 ∷ 0 ∷ []) (10 ∷ []) [])
create_histogram-Lives_example =
    create_histogram-Lives arena (0 ∷ 0 ∷ 0 ∷ 0 ∷ []) (10 ∷ []) (5 ∷ 40 ∷ []) [] refl (omega arith)
      (omega arith) (λ i j less k. absurd (omega arith)) refl (omega arith) (omega arith)

insert_all_unique_example : (c : InsertsAll three) × ((x : InsertsAll three) → x ≡ c)
insert_all_unique_example = insert_all_unique three
