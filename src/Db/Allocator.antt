-- ===== src/Db/Allocator.antt =====
-- The states and kinds of pages of src/db/allocator.h, and the data of the reference counting
-- allocator of src/db/rc_allocator.h.
use Prim.Native.String.{String}
use qstorage.Prelude.{
  ℕ, zero, suc, ◌<◌, ◌≤◌, ◌≡◌, refl, none, some, List, [], ◌∷◌, arith, get_elem?, replicate,
}

abbrev pub AllocatorRootId : Type 0
AllocatorRootId = ℕ

abbrev pub invalid_allocator_root_id : AllocatorRootId
invalid_allocator_root_id = 0

pub data RcStatus : Type 0 where
  al_free al_no_refs al_one_ref : RcStatus

abbrev pub rc_status_value : RcStatus → ℕ
rc_status_value al_free = 0
rc_status_value al_no_refs = 1
rc_status_value al_one_ref = 2

-- `PAGE_TYPE_FIRST` is another name for `page_type_trunk`.
pub data PageType : Type 0 where
  page_type_invalid page_type_trunk page_type_branch page_type_memtable page_type_filter : PageType
  page_type_log page_type_blob page_type_superblock page_type_misc num_page_types : PageType

abbrev pub page_type_value : PageType → ℕ
page_type_value page_type_invalid = 0
page_type_value page_type_trunk = 1
page_type_value page_type_branch = 2
page_type_value page_type_memtable = 3
page_type_value page_type_filter = 4
page_type_value page_type_log = 5
page_type_value page_type_blob = 6
page_type_value page_type_superblock = 7
page_type_value page_type_misc = 8
page_type_value num_page_types = 9

abbrev pub page_type_str : List String
page_type_str =
    "invalid" ∷ "trunk" ∷ "branch" ∷ "memtable" ∷ "filter" ∷ "log" ∷ "blob" ∷ "superblock" ∷ "misc"
    ∷ []

abbrev pub rc_allocator_max_root_ids : ℕ
rc_allocator_max_root_ids = 30

pub record RcAllocatorMetaPage : Type 0 where
  pub splinters : List AllocatorRootId
  pub check_sum : ℕ

-- With the default values of its members
abbrev pub fresh_meta_page : RcAllocatorMetaPage
fresh_meta_page = record { splinters = replicate rc_allocator_max_root_ids 0; check_sum = 0 }

-- The counters of extents, the last two by the kind of page
pub record RcAllocatorStats : Type 0 where
  pub curr_allocated : ℕ
  pub max_allocated : ℕ
  pub extent_allocs : List ℕ
  pub extent_deallocs : List ℕ

-- `RcAllocator`, without its mutex
pub record RcAllocator : Type 0 where
  pub meta_page : RcAllocatorMetaPage
  pub ref_count : ℕ
  pub stats : RcAllocatorStats

-- A new allocator, with the counters as the memory has them
abbrev pub new_rc_allocator : RcAllocatorStats → RcAllocator
new_rc_allocator stats = record { meta_page = fresh_meta_page; ref_count = 0; stats = stats }

-- Exactly the kinds of pages below `NUM_PAGE_TYPES` have a name, and so do exactly the indexes of
-- the counters.
pub page_type_str-bound :
    (n : ℕ)
    → (n < page_type_value num_page_types → (s : String) × (get_elem? page_type_str n ≡ some s))
      × (page_type_value num_page_types ≤ n → get_elem? page_type_str n ≡ none)
page_type_str-bound zero = (λ h. (_, refl), λ h. absurd (omega arith))
page_type_str-bound (suc zero) = (λ h. (_, refl), λ h. absurd (omega arith))
page_type_str-bound (suc (suc zero)) = (λ h. (_, refl), λ h. absurd (omega arith))
page_type_str-bound (suc (suc (suc zero))) = (λ h. (_, refl), λ h. absurd (omega arith))
page_type_str-bound (suc (suc (suc (suc zero)))) = (λ h. (_, refl), λ h. absurd (omega arith))
page_type_str-bound (suc (suc (suc (suc (suc zero))))) = (λ h. (_, refl), λ h. absurd (omega arith))
page_type_str-bound (suc (suc (suc (suc (suc (suc zero)))))) =
    (λ h. (_, refl), λ h. absurd (omega arith))
page_type_str-bound (suc (suc (suc (suc (suc (suc (suc zero))))))) =
    (λ h. (_, refl), λ h. absurd (omega arith))
page_type_str-bound (suc (suc (suc (suc (suc (suc (suc (suc zero)))))))) =
    (λ h. (_, refl), λ h. absurd (omega arith))
page_type_str-bound (suc (suc (suc (suc (suc (suc (suc (suc (suc n))))))))) =
    (λ h. absurd (omega arith), λ h. refl)
