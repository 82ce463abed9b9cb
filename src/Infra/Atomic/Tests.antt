-- ===== src/Infra/Atomic/Tests.antt =====
-- The wrappers of src/infra/atomic.h on single objects.
use qstorage.Prelude.{ℕ, ◌+◌, ◌%◌, ◌^◌, ◌≡◌, refl, false, List, [], ◌∷◌, arith, ◌==◌}
use qstorage.Infra.Atomic.{
  Seen, nothing, atomic, load_relaxed, store_relaxed, fetch_sub_relaxed, load,
}
use qstorage.Infra.Atomic.Counter.{add_all, add_all_relaxed, operands, running, sum, add_all_lem}

abbrev first_effect : Seen
first_effect i = i == 1

-- A relaxed store makes nothing known.
relaxed_hides : (load 32 nothing (store_relaxed 32 (atomic 0) 7) 0).1 1 ≡ false
unfolding load store_relaxed
relaxed_hides = refl

-- A load may still read the value before the newest.
stale : load_relaxed 32 (store_relaxed 32 (atomic 3) 7) 1 ≡ 3
unfolding load_relaxed store_relaxed
stale = refl

wraps : (fetch_sub_relaxed 8 (atomic 0) 1).1.latest.value ≡ 255
unfolding fetch_sub_relaxed
wraps = refl

abbrev additions : List (Seen × ℕ)
additions = (nothing, 250) ∷ (first_effect, 10) ∷ []

add_all_lem_example :
    ((add_all 8 additions (atomic 1)).0 ≡ (add_all_relaxed 8 (operands 8 additions) (atomic 1)).0)
    × ((add_all 8 additions (atomic 1)).0 ≡ running 8 1 (operands 8 additions))
    × ((add_all 8 additions (atomic 1)).1.latest.value ≡ (1 + sum 8 (operands 8 additions)) % 2 ^ 8)
    × ((add_all_relaxed 8 (operands 8 additions) (atomic 1)).1.latest.value
        ≡ (1 + sum 8 (operands 8 additions)) % 2 ^ 8)
add_all_lem_example = add_all_lem 8 additions (atomic 1) (omega arith)
