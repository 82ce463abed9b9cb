-- ===== src/Tools/LinkedList/Insertion.antt =====
-- `Prepend`, `Append` and `Insert` of src/tools/list.h.
use mathlib.Core.Path.{subst}
use qstorage.Prelude.{
  ℕ, suc, ◌<◌, ◌≢◌, refl, sym, List, [], ◌∷◌, ◌++◌, arith, length, length-append, All-append,
}
use qstorage.Prelude.Words.{u64_mod}
use qstorage.Tools.LinkedList.{Heap, null, write, set_next, State, prepend, append}
use qstorage.Tools.LinkedList.Links.{
  at, eq-at, ne→test, node, ◌∉◌, Distinct, last, IsList, last-ne, last-ne-null, Links-write,
  Links-set_prev, Links-set_next, has-append, last-append, Links-append,
}

prepend-at :
    (h : Heap) (c elem : ℕ) (xs : List ℕ)
    → IsList (at h c xs) xs
    → elem ≢ null
    → elem ∉ xs
    → suc (length xs) < u64_mod
    → IsList (prepend (at h c xs) elem) (elem ∷ xs)
unfolding prepend
prepend-at h c elem [] is ne out small = record {
  start = refl;
  end = refl;
  count = omega (arith, is.count);
  links = (ground arith, tt);
  distinct = (refl, tt);
  non_null = (ne, tt);
}
prepend-at h c elem (x ∷ xs) is ne out small =
    let links = Links-write h elem (node null x) null (x ∷ xs) null out is.links in
    rw (ne→test x null is.non_null.0, ne→test (last x xs) null (last-ne-null x xs is.non_null))
      (record {
        start = refl;
        end = refl;
        count = omega (arith, is.count);
        links = (
          ground arith,
          Links-set_prev (write h elem (node null x)) null elem x xs null is.distinct.0 links,
        );
        distinct = (out, is.distinct);
        non_null = (ne, is.non_null);
      })

-- `Prepend` puts an element that is not null and not in a well-formed list in front of its
-- elements, whose order stays, and leaves a well-formed list, where the count does not wrap.
pub prepend-IsList :
    (s : State) (elem : ℕ) (xs : List ℕ)
    → IsList s xs
    → elem ≢ null
    → elem ∉ xs
    → suc (length xs) < u64_mod
    → IsList (prepend s elem) (elem ∷ xs)
prepend-IsList s elem xs is ne out small =
    subst (λ t. IsList (prepend t elem) (elem ∷ xs)) (eq-at is)
      (prepend-at s.heap s.list.count elem xs (subst (λ t. IsList t xs) (sym (eq-at is)) is) ne out
        small)

Distinct-snoc : (xs : List ℕ) (e : ℕ) → e ∉ xs → Distinct xs → Distinct (xs ++ e ∷ [])
Distinct-snoc [] e out d = (refl, tt)
Distinct-snoc (x ∷ xs) e out d =
    (ground (arith, has-append x xs (e ∷ [])), Distinct-snoc xs e (ground arith) d.1)

append-at :
    (h : Heap) (c elem : ℕ) (xs : List ℕ)
    → IsList (at h c xs) xs
    → elem ≢ null
    → elem ∉ xs
    → suc (length xs) < u64_mod
    → IsList (append (at h c xs) elem (at h c xs).list.end) (xs ++ elem ∷ [])
unfolding append
append-at h c elem [] is ne out small = record {
  start = refl;
  end = refl;
  count = omega (arith, is.count);
  links = (ground arith, tt);
  distinct = (refl, tt);
  non_null = (ne, tt);
}
append-at h c elem (x ∷ xs) is ne out small =
    let written : Heap = write h elem (node (last x xs) null) in
    let links = Links-write h elem (node (last x xs) null) null (x ∷ xs) null out is.links in
    let not_last = last-ne elem x xs out in
    rw (ne→test x null is.non_null.0, ne→test (last x xs) null (last-ne-null x xs is.non_null))
      (record {
        start = refl;
        end = sym (last-append x xs (elem ∷ []));
        count = omega (arith, is.count, length-append (x ∷ xs) (elem ∷ []));
        links =
            Links-append (set_next written (last x xs) elem) null (x ∷ xs) (elem ∷ []) null
              (Links-set_next written null x xs null elem is.distinct links) (ground arith, tt);
        distinct = Distinct-snoc (x ∷ xs) elem out is.distinct;
        non_null = All-append _ (x ∷ xs) (elem ∷ []) is.non_null (ne, tt);
      })

-- `Append`, if its unfinished expression had the value `list.end_`, puts an element that is not
-- null and not in a well-formed list behind its elements, whose order stays, and leaves a
-- well-formed list, where the count does not wrap.
pub append-IsList :
    (s : State) (elem : ℕ) (xs : List ℕ)
    → IsList s xs
    → elem ≢ null
    → elem ∉ xs
    → suc (length xs) < u64_mod
    → IsList (append s elem s.list.end) (xs ++ elem ∷ [])
append-IsList s elem xs is ne out small =
    subst (λ t. IsList (append t elem t.list.end) (xs ++ elem ∷ [])) (eq-at is)
      (append-at s.heap s.list.count elem xs (subst (λ t. IsList t xs) (sym (eq-at is)) is) ne out
        small)
