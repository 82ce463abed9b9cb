-- ===== src/Db/SpRingBuffer/Bytes.antt =====
-- Bytes that are written round the end of the storage, and read back.
use qstorage.Prelude.{
  ℕ, zero, suc, ◌+◌, ◌*◌, ◌%◌, ◌≤◌, ◌<◌, ◌≡◌, refl, ap, ap₂, ◌∙◌, some, List, [], true, ◌∷◌, ◌++◌,
  append-nil, append_assoc, arith, length, drop, ◌==◌,
}
use qstorage.Db.Constant.{buffer_size}
use qstorage.Db.SpRingBuffer.{update, physical, store}

-- The `n` bytes from counter `t` on
unfoldable pub window : (ℕ → ℕ) → ℕ → ℕ → List ℕ
window mem t zero = []
window mem t (suc n) = mem (t % buffer_size) ∷ window mem (suc t) n

pub length-window : (mem : ℕ → ℕ) (t n : ℕ) → length (window mem t n) ≡ n
unfolding window
length-window mem t zero = refl
length-window mem t (suc n) = omega (arith, length-window mem (suc t) n)

window-snoc :
    (mem : ℕ → ℕ) (t n : ℕ)
    → window mem t (suc n) ≡ window mem t n ++ mem ((t + n) % buffer_size) ∷ []
unfolding window
window-snoc mem t zero = let e : t + 0 ≡ t = omega arith in rw e
window-snoc mem t (suc n) =
    let e : t + suc n ≡ suc t + n = omega arith in
    ap (◌∷◌ (mem (t % buffer_size))) (window-snoc mem (suc t) n ∙ rw e)

-- A write just past a window of less than the whole ring leaves the window.
window-update :
    (mem : ℕ → ℕ) (t n i b : ℕ)
    → n < buffer_size
    → i ≡ (t + n) % buffer_size
    → window (update mem i b) t n ≡ window mem t n
unfolding window
window-update mem t zero i b h e = refl
window-update mem t (suc n) i b h e =
    ap₂ ◌∷◌ (ground arith) (window-update mem (suc t) n i b (omega arith) (omega arith))

pub window-drop : (mem : ℕ → ℕ) (t k n : ℕ) → drop k (window mem t (k + n)) ≡ window mem (t + k) n
unfolding window
window-drop mem t zero n =
    let e : t + 0 ≡ t = omega arith in let e' : 0 + n ≡ n = omega arith in rw (e, e')
window-drop mem t (suc k) n =
    let e : suc k + n ≡ suc (k + n) = omega arith in
    let e' : t + suc k ≡ suc t + k = omega arith in rw (e, e', window-drop mem (suc t) k n)

-- Only the remainder of the counter matters.
pub window-mod :
    (mem : ℕ → ℕ) (t t' n : ℕ)
    → t % buffer_size ≡ t' % buffer_size
    → window mem t n ≡ window mem t' n
unfolding window
window-mod mem t t' zero e = refl
window-mod mem t t' (suc n) e = ap₂ ◌∷◌ (ap mem e) (window-mod mem (suc t) (suc t') n (omega arith))

-- The memory after a write of `bs` at counter `h`
fill : (ℕ → ℕ) → ℕ → List ℕ → ℕ → ℕ
fill mem h [] = mem
fill mem h (b ∷ bs) = fill (update mem (h % buffer_size) b) (suc h) bs

fill-mod :
    (mem : ℕ → ℕ) (h h' : ℕ) (bs : List ℕ)
    → h % buffer_size ≡ h' % buffer_size
    → fill mem h bs ≡ fill mem h' bs
unfolding fill
fill-mod mem h h' [] e = refl
fill-mod mem h h' (b ∷ bs) e =
    rw e (fill-mod (update mem (h' % buffer_size) b) (suc h) (suc h') bs (omega arith))

physical-mod : (off : ℕ) → off < 2 * buffer_size → physical off ≡ some (off % buffer_size)
physical-mod off h = ground arith

store-fill :
    (mem : ℕ → ℕ) (off : ℕ) (bs : List ℕ)
    → off + length bs ≤ 2 * buffer_size
    → store mem off bs ≡ some (fill mem off bs)
unfolding store fill
store-fill mem off [] h = refl
store-fill mem off (b ∷ bs) h =
    rw (physical-mod off (omega arith), store)
      (store-fill (update mem (off % buffer_size) b) (suc off) bs (omega arith))

window-fill :
    (mem : ℕ → ℕ) (t n : ℕ) (bs : List ℕ)
    → n + length bs ≤ buffer_size
    → window (fill mem (t + n) bs) t (n + length bs) ≡ window mem t n ++ bs
unfolding fill
window-fill mem t n [] h = let e : n + 0 ≡ n = omega arith in rw (e, append-nil)
window-fill mem t n (b ∷ bs) h =
    let e : n + suc (length bs) ≡ suc n + length bs = omega arith in
    let e' : suc (t + n) ≡ t + suc n = omega arith in
    let here : ((t + n) % buffer_size == (t + n) % buffer_size) ≡ true = ground arith in
    rw (
      e,
      e',
      window-fill (update mem ((t + n) % buffer_size) b) t (suc n) bs (omega arith),
      window-snoc,
      window-update mem t n ((t + n) % buffer_size) b (omega arith) refl,
      here,
      append_assoc,
    )

-- A copy to the offset of counter `t + n`, just past a window, extends the window by the bytes,
-- if they fit the ring.
pub store-window :
    (mem : ℕ → ℕ) (t n off : ℕ) (bs : List ℕ)
    → n + length bs ≤ buffer_size
    → off ≡ (t + n) % buffer_size
    → (mem' : ℕ → ℕ) × (store mem off bs ≡ some mem')
      × (window mem' t (n + length bs) ≡ window mem t n ++ bs)
store-window mem t n off bs h e = (
  fill mem off bs,
  store-fill mem off bs (omega arith),
  ap (λ m. window m t (n + length bs)) (fill-mod mem off (t + n) bs (omega arith))
      ∙ window-fill mem t n bs h,
)
