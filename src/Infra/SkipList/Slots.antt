-- ===== src/Infra/SkipList/Slots.antt =====
-- `Node::SetKeyValue` of src/infra/skip_list.h, called by one thread after another.
use Prim.Native.Nat.{bit_or}
use qstorage.Prelude.{ℕ, ◌+◌, ◌^◌, ◌<◌, ◌≤◌, ◌≡◌, refl, arith, true, Bool-cases, inl, inr, leb}
use qstorage.Prelude.Bits.{◌<<◌, or_shifted, or_comm}
use qstorage.Infra.SkipList.{Node, Outcome, set_key_value}

mark-large : (c : ℕ) → c < 2 ^ 63 → 2 ^ 63 ≤ bit_or c (2 ^ 63)
mark-large c h =
    let e : bit_or (1 << 63) c ≡ (1 << 63) + c = or_shifted 63 1 c h in
    omega (arith, e, or_comm c (1 << 63))

module _ {A : Type 0} (capacity : ℕ) (fits : capacity ≤ 2 ^ 63) where
  -- `SetKeyValue` of a node with at most `2 ^ 63` slots stores nothing: the top bit that it sets
  -- in the counter is part of the index that it then reads, so that it refuses on every branch.
  pub set_key_value-refused :
      (n : Node A) (x : A)
      → ((set_key_value capacity n x).0 ≡ Outcome.refused)
        × ((set_key_value capacity n x).1.slots ≡ n.slots)
        × ((set_key_value capacity n x).1.commit ≡ n.commit)
  unfolding set_key_value
  set_key_value-refused n x = elim (Bool-cases (leb capacity n.count)) [
    | inl e ↦ rw (e, set_key_value) (refl, refl, refl)
    | inr e ↦
        let over : leb capacity (bit_or n.count (2 ^ 63)) ≡ true =
          ground (arith, mark-large n.count (ground arith)) in
        rw (e, over, set_key_value) (refl, refl, refl)
  ]
