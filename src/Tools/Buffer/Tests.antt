-- ===== src/Tools/Buffer/Tests.antt =====
-- `getFreeBlock` of src/tools/buffer.cc with one free block, and with none.
use qstorage.Prelude.{◌≡◌, refl, true, false, [], ◌∷◌, arith}
use qstorage.Infra.Task.Flags.{mutex}
use qstorage.Tools.LinkedList.{null, State}
use qstorage.Tools.LinkedList.Links.{node, IsList}
use qstorage.Tools.Buffer.{Got, Buffer, get_free_block, get_free_block-first}

abbrev single : State
single = record { list = record { count = 1; start = 5; end = 5 }; heap = λ a. node null null }

single-IsList : IsList single (5 ∷ [])
single-IsList = record {
  start = refl;
  end = refl;
  count = refl;
  links = (refl, tt);
  distinct = (refl, tt);
  non_null = (omega arith, tt);
}

abbrev empty : State
empty = record { list = record { count = 0; start = null; end = null }; heap = λ a. node null null }

empty-IsList : IsList empty []
empty-IsList = record {
  start = refl;
  end = refl;
  count = refl;
  links = tt;
  distinct = tt;
  non_null = tt;
}

get_free_block-first_example :
    (b' : Buffer mutex) × (get_free_block mutex (record { lock = false; free = single })
      ≡ (Got.block 5, b'))
    × IsList b'.free []
    × (b'.lock ≡ false)
get_free_block-first_example =
    get_free_block-first mutex (record { lock = false; free = single }) true 5 [] refl single-IsList
      (omega arith)
