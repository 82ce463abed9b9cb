-- ===== src/Failpoint/Schedule.antt =====
-- The policies of a point, by the number of the hit (the `switch` of tools/failpoint/failpoint.h).
use qstorage.Prelude.{
  ℕ, zero, suc, ◌+◌, ◌≤◌, ◌<◌, ◌≡◌, refl, ap₂, Bool, true, false, ◌&&◌, List, [], ◌∷◌, ◌++◌, ◌==◌,
  arith, ltb, replicate,
}
use qstorage.Failpoint.{Mode}

-- The policy, by the number of the hit; a random point is not fixed by it.
unfoldable pub fires_at : Mode → ℕ → ℕ → Bool
fires_at Mode.always n h = true
fires_at Mode.once n h = h == 1
fires_at Mode.nth n h = ltb 0 n && (h == n)
fires_at Mode.random n h = false

-- The answers from the hit after `h` on
unfoldable pub schedule : Mode → ℕ → ℕ → ℕ → List Bool
schedule m n h zero = []
schedule m n h (suc k) = fires_at m n (suc h) ∷ schedule m n (suc h) k

pub schedule-once : (n h k : ℕ) → 0 < h → schedule Mode.once n h k ≡ replicate k false
unfolding schedule fires_at
schedule-once n h zero pos = refl
schedule-once n h (suc k) pos = ap₂ ◌∷◌ (ground arith) (schedule-once n (suc h) k (omega arith))

pub schedule_past : (n h k : ℕ) → n ≤ h → schedule Mode.nth n h k ≡ replicate k false
unfolding schedule fires_at
schedule_past n h zero le = refl
schedule_past n h (suc k) le = ap₂ ◌∷◌ (ground arith) (schedule_past n (suc h) k (omega arith))

pub schedule_until :
    (n h j k : ℕ)
    → n ≡ h + suc j
    → schedule Mode.nth n h (j + suc k) ≡ replicate j false ++ true ∷ replicate k false
unfolding schedule fires_at
schedule_until n h zero k e =
    let l : 0 + suc k ≡ suc k = omega arith in
    rw l (ap₂ ◌∷◌ (ground arith) (schedule_past n (suc h) k (omega arith)))
schedule_until n h (suc j) k e =
    let l : suc j + suc k ≡ suc (j + suc k) = omega arith in
    rw l (ap₂ ◌∷◌ (ground arith) (schedule_until n (suc h) j k (omega arith)))
