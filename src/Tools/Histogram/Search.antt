-- ===== src/Tools/Histogram/Search.antt =====
-- The search of `Insert` (src/tools/histogram.h).
use qstorage.Prelude.{
  ℕ, zero, suc, ◌+◌, ◌-◌, ◌/◌, ◌<◌, ◌≤◌, ◌≡◌, ◌⊎◌, inl, inr, Bool-cases, some, List, ◌∷◌, arith,
  get_or, ltb, if_true, if_false, ◌∙◌,
}
use qstorage.Tools.Histogram.{Histogram, search_loop, find_bucket}

-- The bounds below an index ascend.
abbrev pub Ascending : List ℕ → ℕ → Type 0
Ascending words n = (i j : ℕ) → i < j → j < n → get_or words i 0 ≤ get_or words j 0

-- What the search knows: the bounds before `lo` are less than the datum, those from `past` on are
-- not.
abbrev Below : List ℕ → (datum lo : ℕ) → Type 0
Below words datum lo = (j : ℕ) → j < lo → get_or words j 0 < datum

abbrev From : List ℕ → (n datum past : ℕ) → Type 0
From words n datum past = (j : ℕ) → past ≤ j → j < n → datum ≤ get_or words j 0

-- What it finds: every bound before the bucket is less than the datum, and no bound behind it is.
pub record Found (words : List ℕ) (n datum lo : ℕ) : Type 0 where
  pub inside : lo < n
  pub before : (j : ℕ) → j < lo → get_or words j 0 < datum
  pub behind : (j : ℕ) → lo < j → j < n → datum ≤ get_or words j 0

search_loop-Found :
    (f : ℕ) (words : List ℕ) (n datum lo past : ℕ)
    → Ascending words n
    → lo < n
    → lo ≤ past
    → past ≤ n
    → past < f + lo
    → Below words datum lo
    → From words n datum past
    → (i : ℕ) × (search_loop f words datum lo past ≡ some i) × Found words n datum i
unfolding search_loop
search_loop-Found zero words n datum lo past asc l le p fuel below above = absurd (omega arith)
search_loop-Found (suc f) words n datum lo past asc l le p fuel below above =
    let mid = lo + (past - 1 - lo) / 2 in
    elim (Bool-cases (ltb (lo + 1) past)) [
      | inl go ↦ elim (Bool-cases (ltb (get_or words mid 0) datum)) [
        | inl less ↦
            let below' : Below words datum (mid + 1) = λ j h. ground (arith, asc j mid) in
            let (i, e, found) =
              search_loop-Found f words n datum (mid + 1) past asc (ground arith) (ground arith) p
                (ground arith) below' above in
            (i, if_true _ _ _ go ∙ (if_true _ _ _ less ∙ e), found)
        | inr more ↦
            let above' : From words n datum mid = λ j h k. ground (arith, asc mid j) in
            let (i, e, found) =
              search_loop-Found f words n datum lo mid asc l (ground arith) (ground arith)
                (ground arith) below above' in
            (i, if_true _ _ _ go ∙ (if_false _ _ _ more ∙ e), found)
      ]
      | inr stop ↦ (
        lo,
        if_false _ _ _ stop,
        record { inside = l; before = below; behind = λ j h k. above j (ground arith) k },
      )
    ]

-- The search of `Insert` ends. Where the bounds ascend it finds a bucket of the histogram such that
-- each bound before the bucket's own is less than the datum, and each bound behind it is not: the
-- bucket is the first one whose bound is not less, or the one in front of that.
pub find_bucket-Found :
    (h : Histogram) (datum : ℕ)
    → 0 < h.num_buckets
    → Ascending h.words h.num_buckets
    → (lo : ℕ) × (find_bucket h datum ≡ some lo) × Found h.words h.num_buckets datum lo
unfolding find_bucket
find_bucket-Found h datum some_bucket asc =
    search_loop-Found (suc h.num_buckets) h.words h.num_buckets datum 0 h.num_buckets asc
      some_bucket (omega arith) (omega arith) (omega arith) (λ j k. absurd (omega arith))
      (λ j k l. absurd (omega arith))

-- Of three buckets the middle one is never found, whatever its bounds are.
pub find_bucket-middle :
    (a b c datum : ℕ) (counters : List ℕ) (max num total : ℕ)
    → let h : Histogram = record {
      num_buckets = 3;
      max = max;
      num = num;
      total = total;
      words = a ∷ b ∷ c ∷ counters;
    } in
      (find_bucket h datum ≡ some 0) ⊎ (find_bucket h datum ≡ some 2)
unfolding find_bucket
find_bucket-middle a b c datum counters max num total = elim (Bool-cases (ltb b datum)) [
  | inl e ↦ inr (if_true _ _ _ e)
  | inr e ↦ inl (if_false _ _ _ e)
]
