-- ===== src/Infra/SkipList/Links.antt =====
-- The links of `Node` of src/infra/skip_list.h: `next_` is an `AcqRelAtomic` for each level, here a
-- function from levels. A node is given by its address, and an assertion that fails is `none`.
use qstorage.Prelude.{
  ℕ, ◌≡◌, ◌≢◌, refl, Bool, true, false, ◌||◌, [], Option, none, some, ◌==◌, if◌then◌else◌, if_true,
  if_false, arith, ap,
}
use qstorage.Prelude.Words.{ℤ, pos, negsuc}
use qstorage.Infra.Atomic.{Seen, Cell, load, store, load_relaxed, store_relaxed}
use qstorage.Infra.Atomic.Publish.{load-store}

abbrev pub Links : Type 0
Links = ℕ → Cell

abbrev pub put : Links → ℕ → Cell → Links
put links n c m = if n == m then c else links m

-- `Next(n)` by a thread that knows `k`, whose load looks back `i` writes: the address, and what the
-- thread knows then
unfoldable pub next : Seen → Links → ℤ → (i : ℕ) → Option (ℕ × Seen)
next k links (pos n) i = some (load 64 k (links n) i)
next k links (negsuc n) i = none

-- `SetNext(n, x)` by a thread that knows `k`
unfoldable pub set_next : Seen → Links → ℤ → (x : ℕ) → Option Links
set_next k links (pos n) x = some (put links n (store 64 k (links n) x))
set_next k links (negsuc n) x = none

unfoldable pub no_barrier_next : Links → ℤ → (i : ℕ) → Option ℕ
no_barrier_next links (pos n) i = some (load_relaxed 64 (links n) i)
no_barrier_next links (negsuc n) i = none

unfoldable pub no_barrier_set_next : Links → ℤ → (x : ℕ) → Option Links
no_barrier_set_next links (pos n) x = some (put links n (store_relaxed 64 (links n) x))
no_barrier_set_next links (negsuc n) x = none

put-same : (links : Links) (n : ℕ) (c : Cell) → put links n c n ≡ c
put-same links n c = if_true _ _ _ (eq_self n)
  where
    eq_self : (n : ℕ) → (n == n) ≡ true
    eq_self n = ground arith

or_false : (b : Bool) → (b || false) ≡ b
or_false true = refl
or_false false = refl

ne : (n m : ℕ) → n ≢ m → (n == m) ≡ false
ne n m h = ground arith

-- A node that is linked at a level with `SetNext` is what `Next` then reads there, and whoever
-- reads it so knows all that its writer knew, so that it finds the node initialized. With the
-- variants without a barrier the address is the same, but the reader knows no more than before. The
-- other levels stay.
pub set_next-next :
    (k k' : Seen) (links : Links) (n x : ℕ)
    → (l b : Links) × (set_next k links (pos n) x ≡ some l)
      × (no_barrier_set_next links (pos n) x ≡ some b)
      × ((r : ℕ × Seen) × (next k' l (pos n) 0 ≡ some r)
          × (r.0 ≡ x)
          × ((i : ℕ) → k i ≡ true → r.1 i ≡ true))
      × ((r : ℕ × Seen) × (next k' b (pos n) 0 ≡ some r) × (r.0 ≡ x) × ((i : ℕ) → r.1 i ≡ k' i))
      × (no_barrier_next l (pos n) 0 ≡ some x)
      × ((m : ℕ) → n ≢ m → (l m ≡ links m) × (b m ≡ links m))
unfolding next set_next no_barrier_next no_barrier_set_next load store load_relaxed store_relaxed
set_next-next k k' links n x =
    let released = store 64 k (links n) x in
    let relaxed = store_relaxed 64 (links n) x in
    (
      put links n released,
      put links n relaxed,
      refl,
      refl,
      (
        load 64 k' released 0,
        ap (λ c. some (load 64 k' c 0)) (put-same links n released),
        refl,
        λ i h. load-store 64 k k' (links n) x [] i h,
      ),
      (
        load 64 k' relaxed 0,
        ap (λ c. some (load 64 k' c 0)) (put-same links n relaxed),
        refl,
        λ i. or_false (k' i),
      ),
      ap (λ c. some (load_relaxed 64 c 0)) (put-same links n released),
      λ m other. (if_false _ _ _ (ne n m other), if_false _ _ _ (ne n m other)),
    )
