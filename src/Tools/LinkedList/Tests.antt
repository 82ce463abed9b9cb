-- ===== src/Tools/LinkedList/Tests.antt =====
-- The linked list of src/tools/list.h on a list of two elements.
use qstorage.Prelude.{◌≡◌, ◌≢◌, refl, arith, some, [], ◌∷◌, ◌==◌, if◌then◌else◌}
use qstorage.Tools.LinkedList.{null, State, insert, remove, validate}
use qstorage.Tools.LinkedList.Links.{node, Links, IsList}
use qstorage.Tools.LinkedList.Removal.{remove-IsList}
use qstorage.Tools.LinkedList.Insert.{insert_loses_end}
use qstorage.Tools.LinkedList.Traversal.{validate_lem}

abbrev pair : State
pair = record {
  list = record { count = 2; start = 5; end = 9 };
  heap = λ a. if a == 5 then node null 9 else node 5 null;
}

pair-IsList : IsList pair (5 ∷ 9 ∷ [])
pair-IsList = record {
  start = refl;
  end = refl;
  count = refl;
  links = (refl, (refl, tt));
  distinct = (refl, (refl, tt));
  non_null = (omega arith, (omega arith, tt));
}

remove-IsList_example :
    (s : State) × (remove pair 5 ≡ some s) × IsList s (9 ∷ []) × (s.heap 5 ≡ node null null)
remove-IsList_example = remove-IsList pair [] 5 (9 ∷ []) pair-IsList (omega arith)

insert_loses_end_example :
    (s : State) × (insert pair 9 7 ≡ some s)
    × Links s.heap null (5 ∷ 9 ∷ 7 ∷ []) null
    × (s.list.start ≡ 5)
    × (s.list.count ≡ 3)
    × (s.list.end ≡ 9)
    × (s.list.end ≢ 7)
insert_loses_end_example = insert_loses_end pair (5 ∷ []) 9 [] 7 pair-IsList refl (omega arith)

validate_lem_example : validate pair ≡ some (5 ∷ 9 ∷ 9 ∷ 5 ∷ [])
validate_lem_example = validate_lem pair (5 ∷ 9 ∷ []) pair-IsList
