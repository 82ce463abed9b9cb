-- ===== src/Tools/LinkedList.antt =====
-- The intrusive doubly linked list of src/tools/list.h. An element is its address, 0 is the null
-- pointer, and the heap gives the `ListNode` member of each element (`GetNode`). A `ListBase` lives
-- outside the heap, so a function that updates one returns the new value beside the new heap.
-- A failed assertion is `none`.
pub mod Links
pub mod Apart
pub mod Insertion
pub mod Removal
pub mod Insert
pub mod Traversal
mod Tests
use mathlib.Core.Option
use qstorage.Prelude.{
  ℕ, zero, suc, ◌+◌, ◌-◌, Bool, true, false, not, Option, none, some, List, [], ◌∷◌, ◌++◌, ltb,
  ◌==◌, if◌then◌else◌,
}
use qstorage.Prelude.Words.{add64, sub64}

-- `ListNode`
pub record ListNode : Type 0 where
  pub prev : ℕ
  pub next : ℕ

-- `ListBase`
pub record ListBase : Type 0 where
  pub count : ℕ
  pub start : ℕ
  pub end : ℕ

abbrev pub Heap : Type 0
Heap = ℕ → ListNode

abbrev pub null : ℕ
null = 0

abbrev pub write : Heap → ℕ → ListNode → Heap
write h a n b = if a == b then n else h b

abbrev pub set_prev : Heap → ℕ → ℕ → Heap
set_prev h a p = write h a (record (h a) { prev = p })

abbrev pub set_next : Heap → ℕ → ℕ → Heap
set_next h a n = write h a (record (h a) { next = n })

pub record State : Type 0 where
  pub list : ListBase
  pub heap : Heap

unfoldable pub prepend : State → ℕ → State
prepend s elem =
    let l = s.list in
    let h = write s.heap elem (record { prev = null; next = l.start }) in
    record {
      list = record {
        count = add64 l.count 1;
        start = elem;
        end = if l.end == null then elem else l.end;
      };
      heap = if l.start == null then h else set_prev h l.start elem;
    }

-- `Append` has an unfinished expression, `list.end - ;`, for the element in front of the new one.
-- Its value is a parameter.
unfoldable pub append : State → (elem unfinished : ℕ) → State
append s elem unfinished =
    let l = s.list in
    let h = write s.heap elem (record { prev = unfinished; next = null }) in
    record {
      list = record {
        count = add64 l.count 1;
        start = if l.start == null then elem else l.start;
        end = elem;
      };
      heap = if l.end == null then h else set_next h l.end elem;
    }

-- `Insert(list, pos, newT)` puts an element behind `pos`.
unfoldable pub insert : State → (pos elem : ℕ) → Option State
insert s pos elem =
    let l = s.list in
    let next = (s.heap pos).next in
    let h = write s.heap elem (record { prev = pos; next = next }) in
    let h' = if next == null then h else set_prev h next elem in
    if pos == elem
    then none
    else some (record {
      list = record {
        count = add64 l.count 1;
        start = l.start;
        end = if l.end == pos then l.end else elem;
      };
      heap = set_next h' pos elem;
    })

unfoldable pub remove : State → ℕ → Option State
remove s elem =
    let l = s.list in
    let n = s.heap elem in
    let h = if n.next == null then s.heap else set_prev s.heap n.next n.prev in
    let h' = if n.prev == null then h else set_next h n.prev n.next in
    if l.count == 0
    then none
    else some (record {
      list = record {
        count = sub64 l.count 1;
        start = if n.prev == null then n.next else l.start;
        end = if n.next == null then n.prev else l.end;
      };
      heap = write h' elem (record { prev = null; next = null });
    })

-- The loops of `Map` and `Validate`: the elements that the function is called on, along `next_`
-- from an element, or along `prev_`. Each is given a number of rounds, and is `none` if it has not
-- ended after them.
unfoldable pub walk : (ListNode → ℕ) → ℕ → Heap → ℕ → Option (List ℕ)
walk step zero h curr = none
walk step (suc f) h curr =
    let rest = walk step f h (step (h curr)) in
    if curr == null then some [] else Option.map (◌∷◌ curr) rest

abbrev pub count_of : List ℕ → ℕ
count_of [] = 0
count_of (x ∷ xs) = suc (count_of xs)

-- `assert(count == list.count_)`
abbrev pub checked : ListBase → List ℕ → Option (List ℕ)
checked l xs = if count_of xs == l.count then some xs else none

infixl 5 ◌>>=◌
abbrev ◌>>=◌ : {A B : Type 0} → Option A → (A → Option B) → Option B
none >>= f = none
some a >>= f = f a

-- `Map`, given one round more than the list claims to have elements
unfoldable pub map_list : State → Option (List ℕ)
unfolding walk
map_list s = do xs ← walk (λ n. n.next) (suc s.list.count) s.heap s.list.start; checked s.list xs

-- `Validate`: the calls of the function on the way forth, and on the way back
unfoldable pub validate : State → Option (List ℕ)
unfolding map_list
validate s = do
  xs ← map_list s
  ys ← walk (λ n. n.prev) (suc s.list.count) s.heap s.list.end
  zs ← checked s.list ys
  some (xs ++ zs)
