-- ===== src/Tools/Histogram/Print.antt =====
-- `Print` of src/tools/histogram.h: the lines that it logs.
use qstorage.Prelude.{
  ℕ, zero, suc, ◌+◌, ◌-◌, ◌/◌, ◌≡◌, refl, sym, ap, ap₂, ◌∙◌, Bool-cases, inl, inr, List, [], ◌∷◌,
  arith, length, get_or, total, ◌==◌, if◌then◌else◌,
}
use qstorage.Tools.Histogram.{Histogram}
use qstorage.Tools.Histogram.Counters.{sum, length-drop, get_or-drop}
use qstorage.Tools.Histogram.Run.{counters, IsValid}

-- A call of `LOG_INFO` by its format, with its other arguments
pub data Line : Type 0 where
  -- "histogram name:{},max:{},mean:{},count:{}\n", without the name
  summary : (max mean count : ℕ) → Line
  -- "{}~{}:{}\n"
  between : (low high count : ℕ) → Line
  -- "{}~+Inf:{}\n"
  above : (low count : ℕ) → Line

-- What the body of the loop logs
abbrev pub bucket_line : Histogram → ℕ → Line
bucket_line h i =
    let count = get_or h.words (h.num_buckets + i) 0 in
    let low = get_or h.words i 0 in
    if i == h.num_buckets - 1 then above low count else between low (get_or h.words (i + 1) 0) count

-- The loop, from an index on, with that many rounds left
abbrev pub bucket_lines : Histogram → (i rounds : ℕ) → List Line
bucket_lines h i zero = []
bucket_lines h i (suc rounds) = bucket_line h i ∷ bucket_lines h (i + 1) rounds

unfoldable pub print : Histogram → List Line
print h =
    summary h.max (if h.num == 0 then 0 else h.total / h.num) h.num ∷ bucket_lines h 0 h.num_buckets

-- The count that a line of a bucket has
abbrev pub counted_in : Line → ℕ
counted_in (summary max mean count) = 0
counted_in (between low high count) = count
counted_in (above low count) = count

shift : (i j : ℕ) → i + 1 + j ≡ i + suc j
shift i j = omega arith

counted_in-bucket_line :
    (h : Histogram) (i : ℕ) → counted_in (bucket_line h i) ≡ get_or h.words (h.num_buckets + i) 0
counted_in-bucket_line h i = elim (Bool-cases (i == h.num_buckets - 1)) [
  | inl e ↦ rw (e) refl
  | inr e ↦ rw (e) refl
]

bucket_lines-total :
    (h : Histogram) (i : ℕ) (cs : List ℕ)
    → ((j : ℕ) → get_or h.words (h.num_buckets + (i + j)) 0 ≡ get_or cs j 0)
    → (total counted_in (bucket_lines h i (length cs)) ≡ sum cs)
      × (length (bucket_lines h i (length cs)) ≡ length cs)
bucket_lines-total h i [] same = (refl, refl)
bucket_lines-total h i (c ∷ cs) same =
    let (t, l) =
      bucket_lines-total h (i + 1) cs
        (λ j. ap (λ k. get_or h.words (h.num_buckets + k) 0) (shift i j) ∙ same (suc j)) in
    let e : h.num_buckets + i ≡ h.num_buckets + (i + 0) = omega arith in
    (
      ap₂ (λ a b. a + b) (counted_in-bucket_line h i ∙ (ap (λ k. get_or h.words k 0) e ∙ same 0)) t,
      ap suc l,
    )

drop_zero : (a : ℕ) → 0 + a ≡ a
drop_zero a = omega arith

swap : (a b : ℕ) → a + (0 + b) ≡ b + a
swap a b = omega arith

-- `Print` of a well-formed histogram logs a summary and one line for each bucket, and the counts of
-- the lines together are the number of insertions that the summary has.
pub print-IsValid :
    (h : Histogram)
    → IsValid h
    → (length (print h) ≡ suc h.num_buckets) × (total counted_in (print h) ≡ h.num)
unfolding print
print-IsValid h v =
    let n : length (counters h) ≡ h.num_buckets =
      omega (arith, length-drop h.num_buckets h.words, v.size) in
    let (t, l) = bucket_lines-total h 0 (counters h) (λ j.
      ap (λ k. get_or h.words k 0) (swap h.num_buckets j) ∙ get_or-drop h.num_buckets j h.words) in
    (
      ap suc (ap (λ k. length (bucket_lines h 0 k)) (sym n) ∙ (l ∙ n)),
      drop_zero _ ∙ (ap (λ k. total counted_in (bucket_lines h 0 k)) (sym n) ∙ (t ∙ v.count)),
    )
