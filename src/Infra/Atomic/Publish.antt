-- ===== src/Infra/Atomic/Publish.antt =====
-- What the orders of src/infra/atomic.h make known: a release, whatever read-modify-writes come
-- after it, and an acquire.
use qstorage.Prelude.{ℕ, ◌≡◌, refl, Bool, true, false, ◌||◌, List, [], ◌∷◌, arith}
use qstorage.Infra.Atomic.{
  Seen, Cell, write, cas_weak_relaxed, cas_strong_relaxed, exchange_relaxed, fetch_add_relaxed,
  fetch_sub_relaxed, fetch_and_relaxed, fetch_or_relaxed, fetch_xor_relaxed, store, load, cas_weak,
  cas_strong, exchange, fetch_add, fetch_sub, fetch_and, fetch_or, fetch_xor,
}

-- A read-modify-write of some thread: of `RelaxedAtomic`, or of `AcqRelAtomic` by one that knows
-- `k`
pub data Rmw : Type 0 where
  weak_relaxed : (fails : Bool) (expected desired : ℕ) → Rmw
  strong_relaxed : (expected desired : ℕ) → Rmw
  swap_relaxed add_relaxed sub_relaxed and_relaxed or_relaxed xor_relaxed : ℕ → Rmw
  weak : (fails : Bool) (k : Seen) (expected desired : ℕ) → Rmw
  strong : (k : Seen) (expected desired : ℕ) → Rmw
  swap add sub and or xor : Seen → ℕ → Rmw

module _ (w : ℕ) where
  unfoldable pub apply : Rmw → Cell → Cell
  unfolding cas_weak_relaxed cas_strong_relaxed exchange_relaxed fetch_add_relaxed fetch_sub_relaxed
      fetch_and_relaxed fetch_or_relaxed fetch_xor_relaxed cas_weak cas_strong exchange fetch_add
      fetch_sub fetch_and fetch_or fetch_xor
  apply (Rmw.weak_relaxed fails e d) c = (cas_weak_relaxed w fails c e d).1
  apply (Rmw.strong_relaxed e d) c = (cas_strong_relaxed w c e d).1
  apply (Rmw.swap_relaxed d) c = (exchange_relaxed w c d).1
  apply (Rmw.add_relaxed n) c = (fetch_add_relaxed w c n).1
  apply (Rmw.sub_relaxed n) c = (fetch_sub_relaxed w c n).1
  apply (Rmw.and_relaxed n) c = (fetch_and_relaxed w c n).1
  apply (Rmw.or_relaxed n) c = (fetch_or_relaxed w c n).1
  apply (Rmw.xor_relaxed n) c = (fetch_xor_relaxed w c n).1
  apply (Rmw.weak fails k e d) c = (cas_weak w fails k c e d).1.1
  apply (Rmw.strong k e d) c = (cas_strong w k c e d).1.1
  apply (Rmw.swap k d) c = (exchange w k c d).1.1
  apply (Rmw.add k n) c = (fetch_add w k c n).1.1
  apply (Rmw.sub k n) c = (fetch_sub w k c n).1.1
  apply (Rmw.and k n) c = (fetch_and w k c n).1.1
  apply (Rmw.or k n) c = (fetch_or w k c n).1.1
  apply (Rmw.xor k n) c = (fetch_xor w k c n).1.1

  abbrev pub apply_all : List Rmw → Cell → Cell
  apply_all [] c = c
  apply_all (r ∷ rs) c = apply_all rs (apply r c)

  or_right : (a b : Bool) → b ≡ true → (a || b) ≡ true
  or_right true b h = refl
  or_right false b h = h

  apply-seen :
      (r : Rmw) (c : Cell) (i : ℕ) → c.latest.seen i ≡ true → (apply r c).latest.seen i ≡ true
  unfolding apply
  apply-seen (Rmw.weak_relaxed fails e d) c i h = ground arith
  apply-seen (Rmw.strong_relaxed e d) c i h = ground arith
  apply-seen (Rmw.swap_relaxed d) c i h = h
  apply-seen (Rmw.add_relaxed n) c i h = h
  apply-seen (Rmw.sub_relaxed n) c i h = h
  apply-seen (Rmw.and_relaxed n) c i h = h
  apply-seen (Rmw.or_relaxed n) c i h = h
  apply-seen (Rmw.xor_relaxed n) c i h = h
  apply-seen (Rmw.weak fails k e d) c i h = ground arith
  apply-seen (Rmw.strong k e d) c i h = ground arith
  apply-seen (Rmw.swap k d) c i h = or_right (k i) _ h
  apply-seen (Rmw.add k n) c i h = or_right (k i) _ h
  apply-seen (Rmw.sub k n) c i h = or_right (k i) _ h
  apply-seen (Rmw.and k n) c i h = or_right (k i) _ h
  apply-seen (Rmw.or k n) c i h = or_right (k i) _ h
  apply-seen (Rmw.xor k n) c i h = or_right (k i) _ h

  apply_all-seen :
      (rs : List Rmw) (c : Cell) (i : ℕ)
      → c.latest.seen i ≡ true
      → (apply_all rs c).latest.seen i ≡ true
  apply_all-seen [] c i h = h
  apply_all-seen (r ∷ rs) c i h = apply_all-seen rs (apply r c) i (apply-seen r c i h)

  -- Whatever a thread knows when it stores with `Store`, a thread that reads the newest value with
  -- `Load` knows as well, after any read-modify-writes of any threads and orders in between.
  pub load-store :
      (k k' : Seen) (c : Cell) (desired : ℕ) (rs : List Rmw) (i : ℕ)
      → k i ≡ true
      → (load w k' (apply_all rs (store w k c desired)) 0).1 i ≡ true
  unfolding load store
  load-store k k' c desired rs i h =
      or_right (k' i) _ (apply_all-seen rs (write c (record { value = desired; seen = k })) i h)
