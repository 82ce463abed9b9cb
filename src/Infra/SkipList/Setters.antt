-- ===== src/Infra/SkipList/Setters.antt =====
-- `SetKeyValue` of a `Node` of src/infra/skip_list.h by many threads at once: a call is the point
-- that it has reached, and a step is one access to what the threads share. `count_` is the list of
-- its writes; what the orders of the accesses make known is left out, and `commit_` is its newest
-- value.
pub mod Steps
pub mod Sound
pub mod Unstored
mod Tests
use Prim.Native.Nat.{bit_or}
use qstorage.Prelude.{
  ℕ, ◌+◌, ◌^◌, Bool, true, false, Option, none, some, List, [], ◌∷◌, leb, set, if◌then◌else◌,
}
use qstorage.Prelude.Words.{add64}
use qstorage.Infra.Atomic.{
  Cell, Exchanged, atomic, load_relaxed, cas_weak_relaxed, fetch_add_relaxed,
}

-- `count_`, `commit_` and `data_`
pub record Slots (A : Type 0) : Type 0 where
  pub count : Cell
  pub commit : ℕ
  pub stored : List A

-- Where a call is: before its load, in the loop with the value in `res`, before it adds, before it
-- stores, before it commits, and at its end, which is `return false` or behind the last line
pub data Setter (A : Type 0) : Type 0 where
  called : A → Setter A
  marking : A → (res : ℕ) → Setter A
  counting : A → Setter A
  storing : A → (index : ℕ) → Setter A
  committing : Setter A
  returned_false : Setter A
  ended : Setter A

-- What a step finds: how many writes its load looks back, and whether its weak exchange fails for
-- no reason
pub record Choice : Type 0 where
  pub back : ℕ
  pub fails : Bool

module _ {A : Type 0} (capacity : ℕ) where
  -- A `Node` as its constructor leaves it
  abbrev pub new_slots : List A → Slots A
  new_slots stored = record { count = atomic 1; commit = 1; stored = stored }

  abbrev pub after_load : Bool → A → ℕ → Setter A
  after_load true x res = returned_false
  after_load false x res = marking x res

  abbrev pub after_exchange : A → Exchanged × Cell → Slots A → Setter A × Slots A
  after_exchange x (r, c) n =
      (if r.success then counting x else marking x r.expected, record n { count = c })

  abbrev pub after_add : Bool → A → ℕ → Setter A
  after_add true x index = returned_false
  after_add false x index = storing x index

  -- The next step of a call, `none` after its end
  unfoldable pub advance : Choice → Setter A → Slots A → Option (Setter A × Slots A)
  advance c (called x) n =
      let res = load_relaxed 64 n.count c.back in some (after_load (leb capacity res) x res, n)
  advance c (marking x res) n =
      some (after_exchange x (cas_weak_relaxed 64 c.fails n.count res (bit_or res (2 ^ 63))) n)
  advance c (counting x) n =
      let r = fetch_add_relaxed 64 n.count 1 in
      some (after_add (leb capacity r.0) x r.0, record n { count = r.1 })
  advance c (storing x index) n = some (committing, record n { stored = set n.stored index x })
  advance c committing n = some (ended, record n { commit = add64 n.commit 1 })
  advance c returned_false n = none
  advance c ended n = none
