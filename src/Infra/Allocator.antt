-- ===== src/Infra/Allocator.antt =====
-- `Allocator` of src/infra/allocator.h: an interface for allocators with a state, whose addresses
-- may be null. No class of the source implements it.
use qstorage.Prelude.{ℕ, Option, none}

-- `S` is the state of an implementation, and `L` the class `Logger`, which is passed by pointer.
pub record Allocator (S L : Type 0) : Type 0 where
  pub allocate : (bytes : ℕ) → S → ℕ × S
  pub allocate_aligned : (bytes huge_page_size : ℕ) → (logger : Option L) → S → ℕ × S
  pub block_size : S → ℕ

-- `AllocateAligned` with its default arguments
abbrev pub allocate_aligned_default : {S L : Type 0} → Allocator S L → (bytes : ℕ) → S → ℕ × S
allocate_aligned_default a bytes = a.allocate_aligned bytes 0 none
