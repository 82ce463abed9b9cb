-- ===== src/Tools/Histogram/Order.antt =====
-- Data that are inserted into a `Histogram` (src/tools/histogram.h) in different orders, and the
-- quotient that forgets the order
use mathlib.Core.Logic.{∥∥₁_elim}
use mathlib.Core.HLevel.{Σ_prop_path}
use mathlib.Core.List.{Perm, Permᴰ}
use mathlib.Core.Quot
use mathlib.Core.Quot.{Quot}
use qstorage.Prelude.{
  ◌&&◌, ◌^◌, length, length-set, ℕ, zero, suc, ◌+◌, ◌-◌, ◌/◌, ◌<◌, ◌≤◌, ◌≡◌, refl, sym, ap, ap₂,
  ◌∙◌, Bool-cases, inl, inr, Option, none, some, List, [], ◌∷◌, arith, get_or, set, ltb,
  if◌then◌else◌,
}
use qstorage.Prelude.Words.{add64, add32}
use qstorage.Tools.Histogram.{
  Histogram, search_loop, find_bucket, find_counter, if_counter, counted, insert,
}
use qstorage.Tools.Histogram.Counters.{get_or-set}
use qstorage.Tools.Histogram.Run.{insert_all}

pub Option-Histogram-set : IsSet (Option Histogram)
Option-Histogram-set = hlevel

-- The search reads no word behind the bounds.
search_loop-same :
    (f : ℕ) (xs ys : List ℕ) (n datum lo past : ℕ)
    → past ≤ n
    → ((i : ℕ) → i < n → get_or xs i 0 ≡ get_or ys i 0)
    → search_loop f xs datum lo past ≡ search_loop f ys datum lo past
unfolding search_loop
search_loop-same zero xs ys n datum lo past p same = refl
search_loop-same (suc f) xs ys n datum lo past p same =
    let mid = lo + (past - 1 - lo) / 2 in
    elim (Bool-cases (ltb (lo + 1) past)) [
      | inl go ↦
          rw
            (
              go,
              same mid (ground arith),
              search_loop-same f xs ys n datum (mid + 1) past p same,
              search_loop-same f xs ys n datum lo mid (ground arith) same,
            )
            refl
      | inr stop ↦ rw (stop) refl
    ]

find_bucket-counted :
    (h : Histogram) (d lo x : ℕ) → find_bucket (counted h d lo) x ≡ find_bucket h x
unfolding find_bucket
find_bucket-counted h d lo x =
    search_loop-same (suc h.num_buckets) _ h.words h.num_buckets x 0 h.num_buckets (omega arith)
      (λ i less. get_or-set h.words i (lo + h.num_buckets) _ (omega arith))

find_counter-counted :
    (h : Histogram) (d lo x : ℕ) → find_counter (counted h d lo) x ≡ find_counter h x
unfolding find_counter
find_counter-counted h d lo x =
    ap (if_counter (counted h d lo)) (find_bucket-counted h d lo x) ∙ same (find_bucket h x)
  where
    kept : length (counted h d lo).words ≡ length h.words
    kept = length-set h.words (lo + h.num_buckets) _

    same : (o : Option ℕ) → if_counter (counted h d lo) o ≡ if_counter h o
    same none = refl
    same (some i) =
        ap
          (λ n.
            if ltb (i + h.num_buckets) (2 ^ 31) && ltb (i + h.num_buckets) n then some i else none)
          kept

-- A counter counts one more.
abbrev bump : List ℕ → ℕ → List ℕ
bump xs i = set xs i (add32 (get_or xs i 0) 1)

bump_comm : (xs : List ℕ) (i j : ℕ) → bump (bump xs i) j ≡ bump (bump xs j) i
bump_comm [] i j = refl
bump_comm (x ∷ xs) zero zero = refl
bump_comm (x ∷ xs) zero (suc j) = refl
bump_comm (x ∷ xs) (suc i) zero = refl
bump_comm (x ∷ xs) (suc i) (suc j) = ap (◌∷◌ x) (bump_comm xs i j)

larger_comm :
    (m a b : ℕ)
    → (let k = if ltb m a then a else m in if ltb k b then b else k)
      ≡ (let k = if ltb m b then b else m in if ltb k a then a else k)
larger_comm m a b = ground arith

add64_comm : (t a b : ℕ) → add64 (add64 t a) b ≡ add64 (add64 t b) a
add64_comm t a b = omega arith

counted_comm :
    (h : Histogram) (a i b j : ℕ) → counted (counted h a i) b j ≡ counted (counted h b j) a i
counted_comm h a i b j = λ k. record {
  num_buckets = h.num_buckets;
  max = larger_comm h.max a b k;
  num = add64 (add64 h.num 1) 1;
  total = add64_comm h.total a b k;
  words = bump_comm h.words (i + h.num_buckets) (j + h.num_buckets) k;
}

abbrev then_insert : Option Histogram → ℕ → Option Histogram
then_insert none d = none
then_insert (some h) d = insert h d

abbrev at_bucket : Histogram → ℕ → Option ℕ → Option Histogram
at_bucket h d none = none
at_bucket h d (some lo) = some (counted h d lo)

insert-at_bucket : (h : Histogram) (d : ℕ) → insert h d ≡ at_bucket h d (find_counter h d)
unfolding insert
insert-at_bucket h d = elim (find_counter h d) [ none ↦ refl | some lo ↦ refl ]

-- Two insertions by the buckets of both data in the histogram before them
abbrev both : Histogram → (a b : ℕ) → Option ℕ → Option ℕ → Option Histogram
both h a b (some i) (some j) = some (counted (counted h a i) b j)
both h a b (some i) none = none
both h a b none (some j) = none
both h a b none none = none

both_comm : (h : Histogram) (a b : ℕ) (fa fb : Option ℕ) → both h a b fa fb ≡ both h b a fb fa
both_comm h a b (some i) (some j) = ap some (counted_comm h a i b j)
both_comm h a b (some i) none = refl
both_comm h a b none (some j) = refl
both_comm h a b none none = refl

at_buckets :
    (h : Histogram) (a b : ℕ) (fa fb : Option ℕ)
    → find_counter h b ≡ fb
    → then_insert (at_bucket h a fa) b ≡ both h a b fa fb
at_buckets h a b none none e = refl
at_buckets h a b none (some j) e = refl
at_buckets h a b (some i) fb e =
    insert-at_bucket (counted h a i) b
    ∙ (ap (at_bucket (counted h a i) b) (find_counter-counted h a i b ∙ e) ∙ second fb)
  where
    second : (fb : Option ℕ) → at_bucket (counted h a i) b fb ≡ both h a b (some i) fb
    second none = refl
    second (some j) = refl

insert_comm : (h : Histogram) (a b : ℕ) → then_insert (insert h a) b ≡ then_insert (insert h b) a
insert_comm h a b =
    two a b ∙ (both_comm h a b (find_counter h a) (find_counter h b) ∙ sym (two b a))
  where
    two : (a b : ℕ) → then_insert (insert h a) b ≡ both h a b (find_counter h a) (find_counter h b)
    two a b =
        ap (λ o. then_insert o b) (insert-at_bucket h a)
        ∙ at_buckets h a b (find_counter h a) (find_counter h b) refl

abbrev then_all : Option Histogram → List ℕ → Option Histogram
then_all none ds = none
then_all (some h) ds = insert_all h ds

insert_all-cons :
    (h : Histogram) (d : ℕ) (ds : List ℕ) → insert_all h (d ∷ ds) ≡ then_all (insert h d) ds
insert_all-cons h d ds = step (insert h d)
  where
    step :
        (o : Option Histogram)
        → (elim o [ none ↦ none | some h' ↦ insert_all h' ds ]) ≡ then_all o ds
    step none = refl
    step (some h') = refl

insert_all-two :
    (o : Option Histogram) (b : ℕ) (ds : List ℕ)
    → then_all o (b ∷ ds) ≡ then_all (then_insert o b) ds
insert_all-two none b ds = refl
insert_all-two (some h) b ds = insert_all-cons h b ds

then_all-same :
    (o : Option Histogram) (xs ys : List ℕ)
    → ((h : Histogram) → insert_all h xs ≡ insert_all h ys)
    → then_all o xs ≡ then_all o ys
then_all-same none xs ys same = refl
then_all-same (some h) xs ys same = same h

insert_all-swap :
    (h : Histogram) (a b : ℕ) (ds : List ℕ) → insert_all h (a ∷ b ∷ ds) ≡ insert_all h (b ∷ a ∷ ds)
insert_all-swap h a b ds =
    start a b ∙ (ap (λ o. then_all o ds) (insert_comm h a b) ∙ sym (start b a))
  where
    start : (a b : ℕ) → insert_all h (a ∷ b ∷ ds) ≡ then_all (then_insert (insert h a) b) ds
    start a b = insert_all-cons h a (b ∷ ds) ∙ insert_all-two (insert h a) b ds

insert_all-Permᴰ :
    {xs ys : List ℕ} → Permᴰ xs ys → (h : Histogram) → insert_all h xs ≡ insert_all h ys
insert_all-Permᴰ Permᴰ.nil h = refl
insert_all-Permᴰ (Permᴰ.cons {a} {b} {l₁} {l₂} e d) h =
    insert_all-cons h a l₁
    ∙ (then_all-same (insert h a) l₁ l₂ (insert_all-Permᴰ d)
        ∙ (sym (insert_all-cons h a l₂) ∙ ap (λ x. insert_all h (x ∷ l₂)) e))
insert_all-Permᴰ (Permᴰ.swap {a} {b} {a'} {b'} {l} e e') h =
    insert_all-swap h a b l ∙ ap₂ (λ x y. insert_all h (x ∷ y ∷ l)) e' e
insert_all-Permᴰ (Permᴰ.trans d d') h = insert_all-Permᴰ d h ∙ insert_all-Permᴰ d' h

pub insert_all-Perm :
    (h : Histogram) (xs ys : List ℕ) → Perm xs ys → insert_all h xs ≡ insert_all h ys
insert_all-Perm h xs ys p = ∥∥₁_elim p (Option-Histogram-set _ _) (λ d. insert_all-Permᴰ d h)

-- Data without their order
abbrev pub Bag : Type 0
Bag = Quot (Perm {A = ℕ})

unfoldable pub insert_bag : Histogram → Bag → Option Histogram
insert_bag h = Quot.lift Option-Histogram-set (insert_all h) (insert_all-Perm h)

-- The functions on data without their order that insert the data in some order
abbrev pub InsertsAll : Histogram → Type 0
InsertsAll h = (f : Bag → Option Histogram) × ((ds : List ℕ) → f (Quot.mk ds) ≡ insert_all h ds)

-- The data that are inserted into a histogram count without their order: there is exactly one
-- function on data without order that agrees with inserting them one after another.
pub insert_all_unique : (h : Histogram) → (c : InsertsAll h) × ((x : InsertsAll h) → x ≡ c)
unfolding insert_bag
insert_all_unique h =
    ((insert_bag h, λ ds. refl), λ x. Σ_prop_path (λ f. prop f) (λ i b. same x b i))
  where
    prop : (f : Bag → Option Histogram) → IsProp ((ds : List ℕ) → f (Quot.mk ds) ≡ insert_all h ds)
    prop f = hlevel Option-Histogram-set

    same : (x : InsertsAll h) (b : Bag) → x.0 b ≡ insert_bag h b
    same x = Quot.ind (λ b. Option-Histogram-set _ _) x.1
