-- ===== src/Infra/SkipList/Tests.antt =====
-- Table prefixes and a node of two slots (src/infra/skip_list.h).
use Prim.Native.Nat.{Ordering}
use qstorage.Prelude.{true, false, ◌≢◌, some, ltb, ℕ, ◌<◌, ◌≡◌, ◌↔◌, ◌⊎◌, arith, [], ◌∷◌}
use qstorage.Infra.SkipList.{
  table_prefix, tenant_id, db_id, table_id, index_id, compare_prefix, Node, first_node,
}
use qstorage.Infra.SkipList.Prefix.{readers_lem, compare_prefix-less}
use qstorage.Infra.Atomic.{Seen, nothing, atomic}
use qstorage.Prelude.Words.{pos}
use qstorage.Infra.SkipList.Links.{
  Links, next, set_next, no_barrier_next, no_barrier_set_next, set_next-next,
}

readers_lem_example :
    (tenant_id (table_prefix 9 5 0x123) ≡ 2)
    × (db_id (table_prefix 9 5 0x123) ≡ 5)
    × (table_id (table_prefix 9 5 0x123) ≡ 0x120)
    × (index_id (table_prefix 9 5 0x123) ≡ 3)
readers_lem_example = readers_lem 9 5 0x123 (omega arith) (omega arith) (omega arith)

abbrev nine : ℕ
nine = 9

abbrev five : ℕ
five = 5

compare_prefix-less_example :
    (compare_prefix (table_prefix 9 5 7) (table_prefix 9 6 1) ≡ Ordering.lt)
    ↔ ((nine < 9) ⊎ ((nine ≡ 9) × ((five < 6) ⊎ ((five ≡ 6) × (7 < 1)))))
compare_prefix-less_example =
    compare_prefix-less 9 5 7 9 6 1 (omega arith) (omega arith) (omega arith) (omega arith)
      (omega arith) (omega arith)

abbrev two_slots : Node ℕ
two_slots = first_node 2 (4 ∷ 0 ∷ [])

abbrev two : ℕ
two = 2

-- The writer knows of the effects that begin the node.
abbrev writer : Seen
writer i = ltb i 3

abbrev unlinked : Links
unlinked n = atomic 0

set_next-next_example :
    (l b : Links) × (set_next writer unlinked (pos two) 77 ≡ some l)
    × (no_barrier_set_next unlinked (pos two) 77 ≡ some b)
    × ((r : ℕ × Seen) × (next nothing l (pos two) 0 ≡ some r)
        × (r.0 ≡ 77)
        × ((i : ℕ) → writer i ≡ true → r.1 i ≡ true))
    × ((r : ℕ × Seen) × (next nothing b (pos two) 0 ≡ some r)
        × (r.0 ≡ 77)
        × ((i : ℕ) → r.1 i ≡ false))
    × (no_barrier_next l (pos two) 0 ≡ some 77)
    × ((m : ℕ) → two ≢ m → (l m ≡ unlinked m) × (b m ≡ unlinked m))
set_next-next_example = set_next-next writer nothing unlinked two 77
