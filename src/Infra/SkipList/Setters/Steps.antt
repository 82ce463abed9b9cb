-- ===== src/Infra/SkipList/Setters/Steps.antt =====
-- Calls of `SetKeyValue` (src/infra/skip_list.h) that interleave in any order.
use mathlib.Core.List.{map}
use qstorage.Prelude.{ℕ, ◌≡◌, some, List, ◌∷◌, ◌++◌}
use qstorage.Infra.SkipList.Setters.{Slots, Setter, Choice, new_slots, advance}

-- What calls with these elements can come to in a node that begins with these slots
pub data Reach {A : Type 0} (capacity : ℕ) (stored xs : List A)
    : List (Setter A) → Slots A → Type 0 where
  start : Reach capacity stored xs (map Setter.called xs) (new_slots capacity stored)
  later :
      (c : Choice) (front : List (Setter A)) (t : Setter A) (back : List (Setter A)) (n : Slots A)
      (r : Setter A × Slots A)
      → Reach capacity stored xs (front ++ t ∷ back) n
      → advance capacity c t n ≡ some r
      → Reach capacity stored xs (front ++ r.0 ∷ back) r.1
