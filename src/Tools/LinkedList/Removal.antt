-- ===== src/Tools/LinkedList/Removal.antt =====
-- `Remove` of src/tools/list.h.
use qstorage.Prelude.{
  ℕ, suc, ◌+◌, ◌<◌, ◌≡◌, ◌≢◌, refl, sym, ap, ◌∙◌, some, List, [], ◌∷◌, ◌++◌, arith, length,
  length-append, ◌==◌, if◌then◌else◌, All-append, append-nil, if_false,
}
use qstorage.Prelude.Words.{u64_mod, sub64}
use qstorage.Tools.LinkedList.{Heap, null, write, State, remove}
use qstorage.Tools.LinkedList.Links.{
  ne→test, node, ◌∉◌, Distinct, first, last, Links, NonNull, IsList, last-ne-null, Links-write,
  last-append, Links-append, Links-split,
}
use qstorage.Tools.LinkedList.Apart.{
  Apart, Distinct-front, Distinct-back, Distinct-Apart, Distinct-append, NonNull-front,
  NonNull-back, relink_back, relink_front, Links-relink_back, Links-relink_back_ne,
  Links-relink_front, Links-relink_front_ne,
}

-- An element between two chains: what the list says of them
pub record Parts (h : Heap) (front : List ℕ) (elem : ℕ) (back : List ℕ) : Type 0 where
  pub here : h elem ≡ node (last null front) (first back null)
  pub before : Links h null front elem
  pub behind : Links h elem back null
  pub front_distinct : Distinct front
  pub back_distinct : Distinct back
  pub apart : Apart front back
  pub out_front : elem ∉ front
  pub out_back : elem ∉ back
  pub front_non_null : NonNull front
  pub back_non_null : NonNull back
  pub non_null : elem ≢ null

pub IsList-Parts :
    (s : State) (front : List ℕ) (elem : ℕ) (back : List ℕ)
    → IsList s (front ++ elem ∷ back)
    → Parts s.heap front elem back
IsList-Parts s front elem back is =
    let (before, rest) = Links-split s.heap null front (elem ∷ back) null is.links in
    let apart = Distinct-Apart front (elem ∷ back) is.distinct in
    let d = Distinct-back front (elem ∷ back) is.distinct in
    let n = NonNull-back front (elem ∷ back) is.non_null in
    record {
      here = rest.0;
      before = before;
      behind = rest.1;
      front_distinct = Distinct-front front (elem ∷ back) is.distinct;
      back_distinct = d.1;
      apart = λ a i. apart a (ground arith);
      out_front = apart elem (ground arith);
      out_back = d.0;
      front_non_null = NonNull-front front (elem ∷ back) is.non_null;
      back_non_null = n.1;
      non_null = n.0;
    }

-- The heap after the writes of `Remove`
abbrev unlinked : Heap → ℕ → ℕ → ℕ → Heap
unlinked h p elem q = write (relink_front (relink_back h q p) p q) elem (node null null)

Links-unlinked :
    (h : Heap) (front : List ℕ) (elem : ℕ) (back : List ℕ)
    → Parts h front elem back
    → Links (unlinked h (last null front) elem (first back null)) null (front ++ back) null
Links-unlinked h front elem back parts =
    let p = last null front in
    let q = first back null in
    let h1 = relink_back h q p in
    let h2 = relink_front h1 p q in
    Links-append (unlinked h p elem q) null front back null
      (Links-write h2 elem (node null null) null front q out_front (
        Links-relink_front h1 elem q front front_distinct front_non_null
          (Links-relink_back_ne h null p elem front back apart before)))
      (Links-write h2 elem (node null null) p back null out_back (
        Links-relink_front_ne h1 p null q front back apart
          (Links-relink_back h elem p back back_distinct back_non_null behind)))
  where
    open parts use {
      before, behind, front_distinct, back_distinct, apart, out_front, out_back, front_non_null,
      back_non_null,
    }

removed_start :
    (start elem : ℕ) (front back : List ℕ)
    → NonNull front
    → start ≡ first (front ++ elem ∷ back) null
    → (if last null front == null then first back null else start) ≡ first (front ++ back) null
removed_start start elem [] back n e = refl
removed_start start elem (f ∷ front) back n e =
    if_false _ _ _ (ne→test (last f front) null (last-ne-null f front n)) ∙ e

removed_end :
    (end elem : ℕ) (front back : List ℕ)
    → NonNull back
    → end ≡ last null (front ++ elem ∷ back)
    → (if first back null == null then last null front else end) ≡ last null (front ++ back)
removed_end end elem front [] n e = ap (last null) (sym (append-nil front))
removed_end end elem front (b ∷ back) n e =
    if_false _ _ _ (ne→test b null n.0)
    ∙ (e ∙ (last-append null front (elem ∷ b ∷ back) ∙ sym (last-append null front (b ∷ back))))

-- `Remove` takes an element out of a well-formed list, of fewer than `2 ^ 64` elements, wherever it
-- stands: its assertion holds, the other elements keep their order and form a well-formed list, and
-- the links of the element are cleared.
pub remove-IsList :
    (s : State) (front : List ℕ) (elem : ℕ) (back : List ℕ)
    → IsList s (front ++ elem ∷ back)
    → suc (length front + length back) < u64_mod
    → (s' : State) × (remove s elem ≡ some s')
      × IsList s' (front ++ back)
      × (s'.heap elem ≡ node null null)
unfolding remove
remove-IsList s front elem back is small =
    let parts = IsList-Parts s front elem back is in
    let p = last null front in
    let q = first back null in
    let c : s.list.count ≡ suc (length front + length back) =
      omega (arith, is.count, length-append front (elem ∷ back)) in
    let s' : State = record {
      list = record {
        count = sub64 s.list.count 1;
        start = if p == null then q else s.list.start;
        end = if q == null then p else s.list.end;
      };
      heap = unlinked s.heap p elem q;
    } in
    (
      s',
      if_false _ _ _ (ne→test s.list.count 0 (omega arith)) ∙ rw parts.here,
      record {
        start = removed_start s.list.start elem front back parts.front_non_null is.start;
        end = removed_end s.list.end elem front back parts.back_non_null is.end;
        count = omega (arith, length-append front back);
        links = Links-unlinked s.heap front elem back parts;
        distinct = Distinct-append front back parts.front_distinct parts.back_distinct parts.apart;
        non_null = All-append _ front back parts.front_non_null parts.back_non_null;
      },
      ground arith,
    )
