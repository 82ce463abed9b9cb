-- ===== src/Tools/LinkedList/Traversal.antt =====
-- `Map` and `Validate` of src/tools/list.h.
use mathlib.Core.Option
use qstorage.Prelude.{
  ℕ, zero, suc, ◌+◌, ◌<◌, ◌≡◌, refl, sym, ap, ◌∙◌, none, some, List, [], ◌∷◌, ◌++◌, append-nil,
  append_assoc, arith, length, length-append, ◌==◌, if_true, if_false,
}
use qstorage.Tools.LinkedList.{
  ListNode, ListBase, Heap, null, State, walk, count_of, checked, ◌>>=◌, map_list, validate,
}
use qstorage.Tools.LinkedList.Links.{ne→test, first, last, Links, NonNull, IsList}

abbrev pub rev : List ℕ → List ℕ
rev [] = []
rev (x ∷ xs) = rev xs ++ x ∷ []

walk-next :
    (f : ℕ) (h : Heap) (p : ℕ) (xs : List ℕ)
    → length xs < f
    → NonNull xs
    → Links h p xs null
    → walk (λ n. n.next) f h (first xs null) ≡ some xs
unfolding walk
walk-next zero h p xs fuel n links = absurd (omega arith)
walk-next (suc f) h p [] fuel n links = refl
walk-next (suc f) h p (x ∷ xs) fuel n links =
    let rest : walk (λ n. n.next) f h (h x).next ≡ some xs =
      ap (λ (m : ListNode). walk (λ n. n.next) f h m.next) links.0
      ∙ walk-next f h x xs (omega arith) n.1 links.1 in
    if_false _ _ _ (ne→test x null n.0) ∙ ap (Option.map (◌∷◌ x)) rest

-- Backwards the elements come in reverse: the walk reaches the chain's predecessor with the rounds
-- that are left.
walk-prev :
    (f : ℕ) (h : Heap) (p : ℕ) (xs : List ℕ) (q : ℕ) (seen : List ℕ)
    → NonNull xs
    → Links h p xs q
    → walk (λ n. n.prev) f h p ≡ some seen
    → walk (λ n. n.prev) (length xs + f) h (last p xs) ≡ some (rev xs ++ seen)
unfolding walk
walk-prev f h p [] q seen n links before = ap (λ k. walk (λ n. n.prev) k h p) (omega arith) ∙ before
walk-prev f h p (x ∷ xs) q seen n links before =
    let back : walk (λ n. n.prev) f h (h x).prev ≡ some seen =
      ap (λ (m : ListNode). walk (λ n. n.prev) f h m.prev) links.0 ∙ before in
    let here : walk (λ n. n.prev) (suc f) h x ≡ some (x ∷ seen) =
      if_false _ _ _ (ne→test x null n.0) ∙ ap (Option.map (◌∷◌ x)) back in
    ap (λ k. walk (λ n. n.prev) k h (last x xs)) (omega arith)
    ∙ (walk-prev (suc f) h x xs q (x ∷ seen) n.1 links.1 here
        ∙ ap some (sym (append_assoc (rev xs) (x ∷ []) seen)))

count_of-length : (xs : List ℕ) → count_of xs ≡ length xs
count_of-length [] = refl
count_of-length (x ∷ xs) = ap suc (count_of-length xs)

checked-eq : (l : ListBase) (xs : List ℕ) → l.count ≡ count_of xs → checked l xs ≡ some xs
checked-eq l xs e = if_true (count_of xs == l.count) (some xs) none (ground arith)

length-rev : (xs : List ℕ) → count_of (rev xs) ≡ length xs
length-rev xs = count_of-length (rev xs) ∙ go xs
  where
    go : (xs : List ℕ) → length (rev xs) ≡ length xs
    go [] = refl
    go (x ∷ xs) = omega (arith, length-append (rev xs) (x ∷ []), go xs)

-- `Map` calls its function on every element of a well-formed list, once each and in order, and its
-- assertion holds.
pub map_list_lem : (s : State) (xs : List ℕ) → IsList s xs → map_list s ≡ some xs
unfolding map_list
map_list_lem s xs is =
    let forth : walk (λ n. n.next) (suc s.list.count) s.heap s.list.start ≡ some xs =
      ap (walk (λ n. n.next) (suc s.list.count) s.heap) is.start
      ∙ walk-next (suc s.list.count) s.heap null xs (omega (arith, is.count)) is.non_null
          is.links in
    ap (λ o. o >>= checked s.list) forth
    ∙ checked-eq s.list xs (omega (arith, is.count, count_of-length xs))

-- On a well-formed list `Validate` meets the elements in order and then in reverse order, and both
-- counts agree with the list's.
pub validate_lem : (s : State) (xs : List ℕ) → IsList s xs → validate s ≡ some (xs ++ rev xs)
unfolding validate
validate_lem s xs is =
    let rounds : suc s.list.count ≡ length xs + 1 = omega (arith, is.count) in
    let back : walk (λ n. n.prev) (suc s.list.count) s.heap s.list.end ≡ some (rev xs) =
      ap (walk (λ n. n.prev) (suc s.list.count) s.heap) is.end
      ∙ (ap (λ k. walk (λ n. n.prev) k s.heap (last null xs)) rounds
          ∙ (walk-prev 1 s.heap null xs null [] is.non_null is.links end_of_walk
              ∙ ap some (append-nil (rev xs)))) in
    rw (
      map_list_lem s xs is,
      back,
      checked-eq s.list (rev xs) (omega (arith, is.count, length-rev xs)),
    )
  where
    end_of_walk : walk (λ n. n.prev) 1 s.heap null ≡ some []
    end_of_walk = refl
