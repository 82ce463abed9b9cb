-- ===== src/Infra/CsppTrie.antt =====
-- `kCntTypeSlots` and `ParticaNode` of src/infra/cspptrie.h. A node is a slot of four bytes; the
-- member that is read is a reader of it, on a host that puts the low byte first.
use qstorage.Prelude.{
  ℕ, zero, suc, ◌+◌, ◌-◌, ◌*◌, ◌/◌, ◌%◌, ◌≤◌, ◌≡◌, refl, List, [], ◌∷◌, arith, get_or,
}

pub record ParticaNode : Type 0 where
  pub byte0 : ℕ
  pub byte1 : ℕ
  pub byte2 : ℕ
  pub byte3 : ℕ

-- The members of the union
pub record MetaInfo : Type 0 where
  pub cnt_type : ℕ
  pub has_value : ℕ
  pub zap_len : ℕ
  pub children_label0 : ℕ
  pub children_label1 : ℕ

pub record BigCount : Type 0 where
  pub unused : ℕ
  pub n_children : ℕ

unfoldable pub meta : ParticaNode → MetaInfo
meta n = record {
  cnt_type = n.byte0 % 16;
  has_value = n.byte0 / 16 % 2;
  zap_len = n.byte1;
  children_label0 = n.byte2;
  children_label1 = n.byte3;
}

unfoldable pub big_count : ParticaNode → BigCount
big_count n = record { unused = n.byte0 + 256 * n.byte1; n_children = n.byte2 + 256 * n.byte3 }

unfoldable pub child : ParticaNode → ℕ
child n = n.byte0 + 256 * n.byte1 + 65536 * n.byte2 + 16777216 * n.byte3

unfoldable pub chars : ParticaNode → List ℕ
chars n = n.byte0 ∷ n.byte1 ∷ n.byte2 ∷ n.byte3 ∷ []

abbrev pub k_cnt_type_slots : List ℕ
k_cnt_type_slots = 1 ∷ 1 ∷ 1 ∷ 2 ∷ 2 ∷ 2 ∷ 2 ∷ 3 ∷ 3 ∷ 3 ∷ 3 ∷ 5 ∷ 10 ∷ 0 ∷ 0 ∷ 1 ∷ []

-- The labels that a header of some slots has room for: two in its first slot, four in each other
abbrev pub room : ℕ → ℕ
room slots = 4 * slots - 2

-- For 1 to 10 children `kCntTypeSlots` gives the least header that has room for their labels.
pub k_cnt_type_slots-least :
    (t s' : ℕ)
    → 1 ≤ t
    → t ≤ 10
    → (t ≤ room (get_or k_cnt_type_slots t 0)) × (t ≤ room s' → get_or k_cnt_type_slots t 0 ≤ s')
k_cnt_type_slots-least zero s' low high = absurd (omega arith)
k_cnt_type_slots-least (suc zero) s' low high = (omega arith, λ h. omega arith)
k_cnt_type_slots-least (suc (suc zero)) s' low high = (omega arith, λ h. omega arith)
k_cnt_type_slots-least (suc (suc (suc zero))) s' low high = (omega arith, λ h. omega arith)
k_cnt_type_slots-least (suc (suc (suc (suc zero)))) s' low high = (omega arith, λ h. omega arith)
k_cnt_type_slots-least (suc (suc (suc (suc (suc zero))))) s' low high =
    (omega arith, λ h. omega arith)
k_cnt_type_slots-least (suc (suc (suc (suc (suc (suc zero)))))) s' low high =
    (omega arith, λ h. omega arith)
k_cnt_type_slots-least (suc (suc (suc (suc (suc (suc (suc zero))))))) s' low high =
    (omega arith, λ h. omega arith)
k_cnt_type_slots-least (suc (suc (suc (suc (suc (suc (suc (suc zero)))))))) s' low high =
    (omega arith, λ h. omega arith)
k_cnt_type_slots-least (suc (suc (suc (suc (suc (suc (suc (suc (suc zero))))))))) s' low high =
    (omega arith, λ h. omega arith)
k_cnt_type_slots-least (suc (suc (suc (suc (suc (suc (suc (suc (suc (suc zero)))))))))) s' low
      high =
    (omega arith, λ h. omega arith)
k_cnt_type_slots-least (suc (suc (suc (suc (suc (suc (suc (suc (suc (suc (suc t))))))))))) s' low
      high =
    absurd (omega arith)

-- The number of children stands where the labels of the first slot stand, so that a header of type
-- 11 has room for 16 labels, and one of type 12 for a bit map of 256 bits behind its first two
-- slots.
pub big_count_lem :
    (n : ParticaNode)
    → ((big_count n).n_children ≡ (meta n).children_label0 + 256 * (meta n).children_label1)
      × (child n ≡ (big_count n).unused + 65536 * (big_count n).n_children)
      × (4 * (get_or k_cnt_type_slots 11 0 - 1) ≡ 16)
      × (8 * (4 * (get_or k_cnt_type_slots 12 0 - 2)) ≡ 256)
unfolding big_count meta child
big_count_lem n = (refl, omega arith, refl, refl)
