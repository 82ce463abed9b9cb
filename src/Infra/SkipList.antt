-- ===== src/Infra/SkipList.antt =====
-- `TablePrefix`, `TablePrefixComp` and the slots of `Node` of src/infra/skip_list.h.
pub mod Prefix
pub mod Slots
pub mod Links
pub mod Setters
pub mod Types
mod Tests
use Prim.Native.Nat.{bit_and, bit_or, compare, Ordering}
use qstorage.Prelude.{
  ℕ, ◌+◌, ◌%◌, ◌^◌, ◌≡◌, Bool, true, false, Option, none, some, List, [], ◌∷◌, leb, if◌then◌else◌,
  set,
}
use qstorage.Prelude.Bits.{◌<<◌, ◌>>◌}
use qstorage.Prelude.Words.{u64_mod, u32_mod, add64}

pub record TablePrefix : Type 0 where
  pub id : ℕ

-- The constructor
unfoldable pub table_prefix : (tenant_id db_id table_id : ℕ) → TablePrefix
table_prefix tenant_id db_id table_id = record {
  id = bit_or (bit_or ((tenant_id << 30) % u64_mod) ((db_id << 16) % u64_mod)) table_id;
}

unfoldable pub tenant_id : TablePrefix → ℕ
tenant_id p = (p.id >> 32) % u32_mod

unfoldable pub db_id : TablePrefix → ℕ
db_id p = bit_and (p.id >> 16) 0x3fff % u32_mod

unfoldable pub table_id : TablePrefix → ℕ
table_id p = bit_and p.id 0x3ff0 % u32_mod

unfoldable pub index_id : TablePrefix → ℕ
index_id p = bit_and p.id 0xf % u32_mod

-- `TablePrefixComp`
unfoldable pub compare_prefix : TablePrefix → TablePrefix → Ordering
compare_prefix lhs rhs = compare lhs.id rhs.id

-- The `count_`, `commit_` and `data_` of a `Node` of `N` slots; a slot of `data_` is what
-- `SetKeyValue` has written to it.
pub record Node (A : Type 0) : Type 0 where
  pub count : ℕ
  pub commit : ℕ
  pub slots : List A

-- How `SetKeyValue` ends: with false, or past its last line, where the source returns nothing.
pub data Outcome : Type 0 where
  refused no_return : Outcome

module _ {A : Type 0} (capacity : ℕ) where
  -- The `Node` that the constructor makes of a first element: both counters start at 1.
  abbrev pub first_node : List A → Node A
  first_node slots = record { count = 1; commit = 1; slots = slots }

  -- `SetKeyValue` of one thread that is not disturbed: the exchange succeeds, and sets the top bit.
  unfoldable pub set_key_value : Node A → A → Outcome × Node A
  set_key_value n key_value =
      let marked = bit_or n.count (2 ^ 63) in
      let index = marked in
      let counted = add64 marked 1 in
      if leb capacity n.count
      then (Outcome.refused, n)
      else (if leb capacity index then (Outcome.refused, record n { count = counted }) else (
        Outcome.no_return,
        record { count = counted; commit = add64 n.commit 1; slots = set n.slots index key_value },
      ))
