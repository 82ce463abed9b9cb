-- ===== src/Tools/Main.antt =====
-- The program of src/tools/main.cc: two blocks that are linked by their list nodes.
use qstorage.Prelude.{ℕ, ◌≡◌, refl, Option, none, some, List, [], ◌∷◌, ◌==◌, if◌then◌else◌}
use qstorage.Tools.LinkedList.{ListNode, null}

pub record BlockHeader : Type 0 where
  pub a : ℕ
  pub b : ℕ
  pub free : ListNode

-- The memory of the program: the blocks by their addresses
abbrev pub Blocks : Type 0
Blocks = ℕ → Option BlockHeader

-- `GetNode<&BlockHeader::free>`
abbrev pub get_node : BlockHeader → ListNode
get_node elem = elem.free

-- What `main` does with the block that the pointer leads to
abbrev printed : Option BlockHeader → Option (List ℕ × ℕ)
printed none = none
printed (some block) = some (block.a ∷ [], 0)

-- What is printed, and the result; `none` where a pointer does not lead to a block
unfoldable pub main : Option (List ℕ × ℕ)
main =
    let unlinked : ListNode = record { prev = null; next = null } in
    let header : BlockHeader = record { a = 1; b = 2; free = record unlinked { prev = 2 } } in
    let other : BlockHeader = record { a = 6; b = 7; free = unlinked } in
    let blocks : Blocks =
      λ p. if p == 1 then some header else if p == 2 then some other else none in
    printed (blocks (get_node header).prev)

main_prints : main ≡ some (6 ∷ [], 0)
unfolding main
main_prints = refl
