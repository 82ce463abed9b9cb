-- ===== src/Tools/LinkedList/Insert.antt =====
-- `Insert` of src/tools/list.h links the new element in, and then sets the end of the list by an
-- inverted test.
use qstorage.Prelude.{
  ℕ, suc, ◌<◌, ◌≡◌, ◌≢◌, refl, sym, ap, ◌∙◌, some, List, [], ◌∷◌, ◌++◌, arith, length,
  length-append, ◌==◌, if◌then◌else◌, if_true, if_false, Bool-cases, inl, inr,
}
use qstorage.Prelude.Words.{u64_mod, add64}
use qstorage.Tools.LinkedList.{ListNode, Heap, null, write, set_prev, set_next, State, insert}
use qstorage.Tools.LinkedList.Links.{
  ne→test, node, ◌∉◌, first, last, Links, IsList, last-ne, Links-write, has-append, last-append,
  first-append, Links-append,
}
use qstorage.Tools.LinkedList.Apart.{relink_back, Links-relink_back, Links-relink_back_ne}
use qstorage.Tools.LinkedList.Removal.{Parts, IsList-Parts}

-- The heap after the writes of `Insert`, where `q` follows `pos`
abbrev linked : Heap → (pos elem q : ℕ) → Heap
linked h pos elem q = set_next (relink_back (write h elem (node pos q)) q elem) pos elem

relink_back-ne :
    (h : Heap) (a p : ℕ) (back : List ℕ) → a ∉ back → relink_back h (first back null) p a ≡ h a
relink_back-ne h a p [] out = refl
relink_back-ne h a p (y ∷ ys) out = elim (Bool-cases (y == null)) [
  | inl e ↦ ap (λ (g : Heap). g a) (if_true _ h (set_prev h y p) e)
  | inr e ↦
      ap (λ (g : Heap). g a) (if_false _ h (set_prev h y p) e)
      ∙ if_false (y == a) (record (h y) { prev = p }) (h a) (ground arith)
]

Links-linked :
    (h : Heap) (front : List ℕ) (pos elem : ℕ) (back : List ℕ)
    → Parts h front pos back
    → elem ∉ front
    → elem ∉ back
    → elem ≢ pos
    → Links (linked h pos elem (first back null)) null (front ++ pos ∷ elem ∷ back) null
Links-linked h front pos elem back parts out_front out_back ne =
    let q = first back null in
    let h1 = write h elem (node pos q) in
    let h2 = relink_back h1 q elem in
    let n : ListNode = record (h2 pos) { next = elem } in
    let here_pos : h2 pos ≡ node (last null front) q =
      relink_back-ne h1 pos elem back parts.out_back
      ∙ (if_false (elem == pos) (node pos q) (h pos) (ground arith) ∙ parts.here) in
    let relinked : h2 elem ≡ node pos q =
      relink_back-ne h1 elem elem back out_back
      ∙ if_true (elem == elem) (node pos q) (h elem) (ground arith) in
    Links-append (linked h pos elem q) null front (pos ∷ elem ∷ back) null
      (Links-write h2 pos n null front pos parts.out_front (
        Links-relink_back_ne h1 null elem pos front back parts.apart
          (Links-write h elem (node pos q) null front pos out_front parts.before)))
      (
        if_true (pos == pos) n (h2 pos) (ground arith)
            ∙ ap (λ (m : ListNode). node m.prev elem) here_pos,
        (
          if_false (pos == elem) n (h2 elem) (ground arith) ∙ relinked,
          Links-write h2 pos n elem back null parts.out_back (
              Links-relink_back h1 pos elem back parts.back_distinct parts.back_non_null
                (Links-write h elem (node pos q) pos back null out_back parts.behind)),
        ),
      )

-- The end that the test leaves is the old one where it should be the new element, and the other
-- way round.
inserted_end :
    (end elem pos : ℕ) (front back : List ℕ)
    → end ≡ last null (front ++ pos ∷ back)
    → pos ∉ back
    → elem ∉ back
    → elem ≢ pos
    → (if end == pos then end else elem) ≢ last null (front ++ pos ∷ elem ∷ back)
inserted_end end elem pos front [] e out_pos out ne same =
    let e' : end ≡ pos = e ∙ last-append null front (pos ∷ []) in
    ne (
      sym (last-append null front (pos ∷ elem ∷ []))
      ∙ (sym same ∙ (if_true (end == pos) end elem (ground arith) ∙ e')))
inserted_end end elem pos front (b ∷ back) e out_pos out ne same =
    let e' : end ≡ last b back = e ∙ last-append null front (pos ∷ b ∷ back) in
    let moved : end ≢ pos = λ k. last-ne pos b back out_pos (sym e' ∙ k) in
    last-ne elem b back out (
      sym (last-append null front (pos ∷ elem ∷ b ∷ back))
      ∙ (sym same ∙ if_false (end == pos) end elem (ne→test end pos moved)))

-- Where `Insert` leaves the end of a list, by what follows the position
abbrev pub end_after : (pos elem : ℕ) (back : List ℕ) → ℕ
end_after pos elem [] = pos
end_after pos elem (b ∷ back) = elem

end-end_after :
    (end elem pos : ℕ) (front back : List ℕ)
    → end ≡ last null (front ++ pos ∷ back)
    → pos ∉ back
    → (if end == pos then end else elem) ≡ end_after pos elem back
end-end_after end elem pos front [] e out_pos =
    let e' : end ≡ pos = e ∙ last-append null front (pos ∷ []) in
    if_true (end == pos) end elem (ground arith) ∙ e'
end-end_after end elem pos front (b ∷ back) e out_pos =
    let e' : end ≡ last b back = e ∙ last-append null front (pos ∷ b ∷ back) in
    let moved : end ≢ pos = λ k. last-ne pos b back out_pos (sym e' ∙ k) in
    if_false (end == pos) end elem (ne→test end pos moved)

-- `Insert` behind an element of a well-formed list links an element that is not in it in at its
-- place, in both directions, and counts it, where the count does not wrap; but it never leaves the
-- list's end at the last element: behind the last element the end stays, and elsewhere it moves to
-- the new element.
pub insert_loses_end :
    (s : State) (front : List ℕ) (pos : ℕ) (back : List ℕ) (elem : ℕ)
    → IsList s (front ++ pos ∷ back)
    → elem ∉ front ++ pos ∷ back
    → suc (length (front ++ pos ∷ back)) < u64_mod
    → (s' : State) × (insert s pos elem ≡ some s')
      × Links s'.heap null (front ++ pos ∷ elem ∷ back) null
      × (s'.list.start ≡ first (front ++ pos ∷ elem ∷ back) null)
      × (s'.list.count ≡ length (front ++ pos ∷ elem ∷ back))
      × (s'.list.end ≡ end_after pos elem back)
      × (s'.list.end ≢ last null (front ++ pos ∷ elem ∷ back))
unfolding insert
insert_loses_end s front pos back elem is out small =
    let parts = IsList-Parts s front pos back is in
    let q = first back null in
    let apart = has-append elem front (pos ∷ back) in
    let ne : elem ≢ pos = ground (arith) in
    let l = s.list in
    let s' : State = record {
      list = record {
        count = add64 l.count 1;
        start = l.start;
        end = if l.end == pos then l.end else elem;
      };
      heap = linked s.heap pos elem q;
    } in
    (
      s',
      if_false _ _ _ (ne→test pos elem λ e. ne (sym e)) ∙ rw parts.here,
      Links-linked s.heap front pos elem back parts (ground arith) (ground arith) ne,
      is.start
          ∙ (first-append front (pos ∷ back) null
              ∙ sym (first-append front (pos ∷ elem ∷ back) null)),
      omega (
        arith,
        is.count,
        length-append front (pos ∷ back),
        length-append front (pos ∷ elem ∷ back),
      ),
      end-end_after l.end elem pos front back is.end parts.out_back,
      inserted_end l.end elem pos front back is.end parts.out_back (ground arith) ne,
    )
