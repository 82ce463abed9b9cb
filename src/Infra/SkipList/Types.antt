-- ===== src/Infra/SkipList/Types.antt =====
-- The data of src/infra/skip_list.h that its functions do not use yet, of src/infra/block_node.h
-- and of src/infra/skmv_skiplist.h. An array of atomics has a `Cell` for each place.
use qstorage.Prelude.{ℕ, List}
use Prim.Native.Nat.{Ordering}
use qstorage.Infra.SkipList.{TablePrefix, compare_prefix}
use qstorage.Infra.Atomic.{Cell}

-- `Key`: the bytes that the span has
pub record Key : Type 0 where
  pub key : List ℕ

-- `ValueType` of skip_list.h
pub data ValueType : Type 0 where
  k_delete k_delete_contain_suffix_key k_contain_suffix_key k_contain_file_offset : ValueType

abbrev pub value_type_value : ValueType → ℕ
value_type_value k_delete = 1
value_type_value k_delete_contain_suffix_key = 2
value_type_value k_contain_suffix_key = 3
value_type_value k_contain_file_offset = 4

pub record ValueFileOffset : Type 0 where
  pub offset : ℕ
  pub file_num : ℕ

-- `Value` has no members.
pub data Value : Type 0 where
  value : Value

pub record KeyValue1 : Type 0 where
  pub key : Key
  pub value : Value

abbrev pub k_node_n : ℕ
k_node_n = 16

-- What `SkipList` asks of its comparator
pub record KeyComp (K : Type 0) : Type 0 where
  pub compare : K → K → Ordering

abbrev pub table_prefix_comp : KeyComp TablePrefix
table_prefix_comp = record { compare = compare_prefix }

-- `SkipList`, by its comparator, the address of its head and its height
pub record SkipList (K : Type 0) : Type 0 where
  pub compare : KeyComp K
  pub head : ℕ
  pub max_height : Cell

-- block_node.h
abbrev pub max_height : ℕ
max_height = 16

abbrev pub max_keys_per_block : ℕ
max_keys_per_block = 8

-- `BlockNode`; links, offsets and data follow the other members for as long as the node is.
pub record BlockNode : Type 0 where
  pub next : List Cell
  pub count : Cell
  pub commit : Cell
  pub keys_offset : List ℕ
  pub values_offset : List ℕ
  pub bytes : List ℕ

-- `SKMVNode` of block_node.h
pub record SkmvNode : Type 0 where
  pub next : List Cell
  pub extra_value : ℕ
  pub key_value : List ℕ

-- `ValueType` of skmv_skiplist.h
pub data RowValueType : Type 0 where
  k_value_row_id k_value_file_num k_delete_row k_delete_all : RowValueType

abbrev pub row_value_type_value : RowValueType → ℕ
row_value_type_value k_value_row_id = 0
row_value_type_value k_value_file_num = 1
row_value_type_value k_delete_row = 2
row_value_type_value k_delete_all = 3

-- `SKMVNode` of skmv_skiplist.h
pub record RowNode : Type 0 where
  pub next : List Cell
  pub extra_value : ℕ
  pub key_value : List ℕ

pub record CommonValue : Type 0 where
  pub start_ts : ℕ
  pub commit_ts : ℕ
  pub row_id : ℕ
