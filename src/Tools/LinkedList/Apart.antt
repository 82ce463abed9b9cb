-- ===== src/Tools/LinkedList/Apart.antt =====
-- Chains that share no element, and their concatenation.
use mathlib.Core.Path.{subst}
use qstorage.Prelude.{
  ℕ, ◌≡◌, refl, sym, true, List, [], ◌∷◌, ◌++◌, arith, ◌==◌, if◌then◌else◌, Bool-cases, inl, inr,
  if_true, if_false,
}
use qstorage.Tools.LinkedList.{Heap, null, set_prev, set_next}
use qstorage.Tools.LinkedList.Links.{
  has, ◌∉◌, Distinct, first, last, Links, NonNull, has-append, Links-write, Links-set_prev,
  Links-set_next, ne→test, last-ne-null,
}

abbrev pub Apart : List ℕ → List ℕ → Type 0
Apart xs ys = (a : ℕ) → has a ys ≡ true → a ∉ xs

pub Distinct-front : (xs ys : List ℕ) → Distinct (xs ++ ys) → Distinct xs
Distinct-front [] ys d = tt
Distinct-front (x ∷ xs) ys d = (ground (arith, has-append x xs ys), Distinct-front xs ys d.1)

pub Distinct-back : (xs ys : List ℕ) → Distinct (xs ++ ys) → Distinct ys
Distinct-back [] ys d = d
Distinct-back (x ∷ xs) ys d = Distinct-back xs ys d.1

pub Distinct-Apart : (xs ys : List ℕ) → Distinct (xs ++ ys) → Apart xs ys
Distinct-Apart [] ys d a i = refl
Distinct-Apart (x ∷ xs) ys d a i = ground (arith, has-append x xs ys, Distinct-Apart xs ys d.1 a i)

pub Distinct-append :
    (xs ys : List ℕ) → Distinct xs → Distinct ys → Apart xs ys → Distinct (xs ++ ys)
Distinct-append [] ys dx dy apart = dy
Distinct-append (x ∷ xs) ys dx dy apart = (
  ground (arith, has-append x xs ys, apart x),
  Distinct-append xs ys dx.1 dy λ a i. ground (arith, apart a i),
)

pub NonNull-front : (xs ys : List ℕ) → NonNull (xs ++ ys) → NonNull xs
NonNull-front [] ys n = tt
NonNull-front (x ∷ xs) ys n = (n.0, NonNull-front xs ys n.1)

pub NonNull-back : (xs ys : List ℕ) → NonNull (xs ++ ys) → NonNull ys
NonNull-back [] ys n = n
NonNull-back (x ∷ xs) ys n = NonNull-back xs ys n.1

-- The last element of a chain is not in one that is apart from it.
pub last-out : (x : ℕ) (xs ys : List ℕ) → Apart (x ∷ xs) ys → last x xs ∉ ys
last-out x [] ys apart = ground (arith, apart x)
last-out x (y ∷ xs) ys apart = last-out y xs ys λ a i. ground (arith, apart a i)

-- The first write of `Remove` and of `Insert`: the chain behind gets another predecessor, if
-- there is one.
abbrev pub relink_back : Heap → ℕ → ℕ → Heap
relink_back h q p = if q == null then h else set_prev h q p

abbrev pub relink_front : Heap → ℕ → ℕ → Heap
relink_front h p q = if p == null then h else set_next h p q

pub Links-relink_back :
    (h : Heap) (p p' : ℕ) (ys : List ℕ)
    → Distinct ys
    → NonNull ys
    → Links h p ys null
    → Links (relink_back h (first ys null) p') p' ys null
Links-relink_back h p p' [] d n links = tt
Links-relink_back h p p' (y ∷ ys) d n links =
    subst (λ g. Links g p' (y ∷ ys) null)
      (sym (if_false _ h (set_prev h y p') (ne→test y null n.0)))
      (Links-set_prev h p p' y ys null d.0 links)

-- It leaves a chain that is apart.
pub Links-relink_back_ne :
    (h : Heap) (p p' q : ℕ) (xs ys : List ℕ)
    → Apart xs ys
    → Links h p xs q
    → Links (relink_back h (first ys null) p') p xs q
Links-relink_back_ne h p p' q xs [] apart links = links
Links-relink_back_ne h p p' q xs (y ∷ ys) apart links = elim (Bool-cases (y == null)) [
  | inl e ↦ subst (λ g. Links g p xs q) (sym (if_true _ h (set_prev h y p') e)) links
  | inr e ↦
      subst (λ g. Links g p xs q) (sym (if_false _ h (set_prev h y p') e))
        (Links-write h y (record (h y) { prev = p' }) p xs q (apart y (ground arith)) links)
]

pub Links-relink_front :
    (h : Heap) (q q' : ℕ) (xs : List ℕ)
    → Distinct xs
    → NonNull xs
    → Links h null xs q
    → Links (relink_front h (last null xs) q') null xs q'
Links-relink_front h q q' [] d n links = tt
Links-relink_front h q q' (x ∷ xs) d n links =
    subst (λ g. Links g null (x ∷ xs) q')
      (sym
        (if_false _ h (set_next h (last x xs) q') (ne→test (last x xs) null (last-ne-null x xs n))))
      (Links-set_next h null x xs q q' d links)

pub Links-relink_front_ne :
    (h : Heap) (p q q' : ℕ) (xs ys : List ℕ)
    → Apart xs ys
    → Links h p ys q
    → Links (relink_front h (last null xs) q') p ys q
Links-relink_front_ne h p q q' [] ys apart links = links
Links-relink_front_ne h p q q' (x ∷ xs) ys apart links =
    let z : ℕ = last x xs in
    elim (Bool-cases (z == null)) [
      | inl e ↦ subst (λ g. Links g p ys q) (sym (if_true _ h (set_next h z q') e)) links
      | inr e ↦
          subst (λ g. Links g p ys q) (sym (if_false _ h (set_next h z q') e))
            (Links-write h z (record (h z) { next = q' }) p ys q (last-out x xs ys apart) links)
    ]
