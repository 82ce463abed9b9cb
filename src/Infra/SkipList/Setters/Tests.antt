-- ===== src/Infra/SkipList/Setters/Tests.antt =====
-- A call of `SetKeyValue` (src/infra/skip_list.h) on a node of two slots.
use qstorage.Prelude.{ℕ, ◌≡◌, refl, false, [], ◌∷◌, arith, All}
use qstorage.Infra.Atomic.{nothing, write, load_relaxed, cas_weak_relaxed, fetch_add_relaxed}
use qstorage.Infra.SkipList.Setters.{Slots, Setter, Choice, new_slots, advance}
use qstorage.Infra.SkipList.Setters.Steps.{Reach, start, later}
use qstorage.Infra.SkipList.Setters.Sound.{Quiet}
use qstorage.Infra.SkipList.Setters.Unstored.{Reach-unstored}

abbrev newest : Choice
newest = record { back = 0; fails = false }

abbrev fresh : Slots ℕ
fresh = new_slots 2 (0 ∷ 0 ∷ [])

abbrev with_count : ℕ → Slots ℕ → Slots ℕ
with_count v n = record n { count = write n.count (record { value = v; seen = nothing }) }

abbrev marked : Slots ℕ
marked = with_count 9223372036854775809 fresh

abbrev counted : Slots ℕ
counted = with_count 9223372036854775810 marked

loaded : Reach 2 (0 ∷ 0 ∷ []) (7 ∷ []) (Setter.marking 7 1 ∷ []) fresh
unfolding advance load_relaxed
loaded = later newest [] (Setter.called 7) [] fresh (Setter.marking 7 1, fresh) start refl

exchanged : Reach 2 (0 ∷ 0 ∷ []) (7 ∷ []) (Setter.counting 7 ∷ []) marked
unfolding advance cas_weak_relaxed
exchanged = later newest [] (Setter.marking 7 1) [] fresh (Setter.counting 7, marked) loaded refl

refused : Reach 2 (0 ∷ 0 ∷ []) (7 ∷ []) (Setter.returned_false ∷ []) counted
unfolding advance fetch_add_relaxed
refused =
    later newest [] (Setter.counting 7) [] marked (Setter.returned_false, counted) exchanged refl

Reach-unstored_example :
    (counted.stored ≡ 0 ∷ 0 ∷ [])
    × (counted.commit ≡ 1)
    × All (Quiet {A = ℕ}) (Setter.returned_false ∷ [])
Reach-unstored_example =
    Reach-unstored 2 (0 ∷ 0 ∷ []) (7 ∷ []) (Setter.returned_false ∷ []) counted (omega arith)
      (omega arith) refused
