-- ===== src/Tools/LinkedList/Links.antt =====
-- A chain of elements linked both ways, and what writes do to it.
use qstorage.Prelude.{
  ℕ, ◌≡◌, ◌≢◌, refl, sym, ap, ◌∙◌, Bool, false, ◌||◌, List, [], ◌∷◌, ◌++◌, arith, length, ◌==◌, All,
}
use qstorage.Tools.LinkedList.{ListNode, Heap, null, write, set_prev, set_next, State}

abbrev pub node : ℕ → ℕ → ListNode
node p n = record { prev = p; next = n }

abbrev pub has : ℕ → List ℕ → Bool
has a [] = false
has a (x ∷ xs) = (a == x) || has a xs

infix 40 ◌∉◌
abbrev pub ◌∉◌ : ℕ → List ℕ → Type 0
a ∉ xs = has a xs ≡ false

abbrev pub Distinct : List ℕ → Type 0
Distinct [] = Unit
Distinct (x ∷ xs) = (x ∉ xs) × Distinct xs

-- The first element, or what follows an empty chain
abbrev pub first : List ℕ → ℕ → ℕ
first [] q = q
first (x ∷ xs) q = x

-- The last element, or what precedes an empty chain
abbrev pub last : ℕ → List ℕ → ℕ
last p [] = p
last p (x ∷ xs) = last x xs

-- The elements are linked both ways, between `p` before them and `q` behind them.
abbrev pub Links : Heap → ℕ → List ℕ → ℕ → Type 0
Links h p [] q = Unit
Links h p (x ∷ xs) q = (h x ≡ node p (first xs q)) × Links h x xs q

abbrev pub NonNull : List ℕ → Type 0
NonNull = All (λ x. x ≢ null)

-- What `ListBase` and the heap promise of a list with these elements, the first one first
pub record IsList (s : State) (xs : List ℕ) : Type 0 where
  pub start : s.list.start ≡ first xs null
  pub end : s.list.end ≡ last null xs
  pub count : s.list.count ≡ length xs
  pub links : Links s.heap null xs null
  pub distinct : Distinct xs
  pub non_null : NonNull xs

-- A state whose list is well-formed is given by its heap, its count and its elements.
abbrev pub at : Heap → ℕ → List ℕ → State
at h c xs = record {
  list = record { count = c; start = first xs null; end = last null xs };
  heap = h;
}

pub eq-at : {s : State} {xs : List ℕ} → IsList s xs → at s.heap s.list.count xs ≡ s
eq-at {s} is = λ i. record {
  list = record { count = s.list.count; start = (sym is.start) i; end = (sym is.end) i };
  heap = s.heap;
}

pub ne→test : (a b : ℕ) → a ≢ b → (a == b) ≡ false
ne→test a b h = ground arith

-- The last element is one of the chain.
pub last-ne : (a x : ℕ) (xs : List ℕ) → a ∉ x ∷ xs → last x xs ≢ a
last-ne a x [] out = ground arith
last-ne a x (y ∷ xs) out = last-ne a y xs (ground arith)

pub last-ne-null : (x : ℕ) (xs : List ℕ) → NonNull (x ∷ xs) → last x xs ≢ null
last-ne-null x [] n = n.0
last-ne-null x (y ∷ xs) n = last-ne-null y xs n.1

-- A write outside a chain leaves it.
pub Links-write :
    (h : Heap) (a : ℕ) (n : ListNode) (p : ℕ) (xs : List ℕ) (q : ℕ)
    → a ∉ xs
    → Links h p xs q
    → Links (write h a n) p xs q
Links-write h a n p [] q out links = tt
Links-write h a n p (x ∷ xs) q out links =
    (ground arith, Links-write h a n x xs q (ground arith) links.1)

-- The chain behind another predecessor
pub Links-set_prev :
    (h : Heap) (p p' x : ℕ) (xs : List ℕ) (q : ℕ)
    → x ∉ xs
    → Links h p (x ∷ xs) q
    → Links (set_prev h x p') p' (x ∷ xs) q
Links-set_prev h p p' x xs q out links =
    (ground arith, Links-write h x (record (h x) { prev = p' }) x xs q out links.1)

-- The chain before another successor
pub Links-set_next :
    (h : Heap) (p x : ℕ) (xs : List ℕ) (q q' : ℕ)
    → Distinct (x ∷ xs)
    → Links h p (x ∷ xs) q
    → Links (set_next h (last x xs) q') p (x ∷ xs) q'
Links-set_next h p x [] q q' d links = (ground arith, tt)
Links-set_next h p x (y ∷ xs) q q' d links =
    (ground (arith, last-ne x y xs d.0), Links-set_next h x y xs q q' d.1 links.1)

pub has-append : (a : ℕ) (xs ys : List ℕ) → has a (xs ++ ys) ≡ (has a xs || has a ys)
has-append a [] ys = refl
has-append a (x ∷ xs) ys = ground (arith, has-append a xs ys)

pub first-append : (xs ys : List ℕ) (q : ℕ) → first (xs ++ ys) q ≡ first xs (first ys q)
first-append [] ys q = refl
first-append (x ∷ xs) ys q = refl

pub last-append : (p : ℕ) (xs ys : List ℕ) → last p (xs ++ ys) ≡ last (last p xs) ys
last-append p [] ys = refl
last-append p (x ∷ xs) ys = last-append x xs ys

pub Links-append :
    (h : Heap) (p : ℕ) (xs ys : List ℕ) (q : ℕ)
    → Links h p xs (first ys q)
    → Links h (last p xs) ys q
    → Links h p (xs ++ ys) q
Links-append h p [] ys q front back = back
Links-append h p (x ∷ xs) ys q front back =
    (front.0 ∙ ap (node p) (sym (first-append xs ys q)), Links-append h x xs ys q front.1 back)

pub Links-split :
    (h : Heap) (p : ℕ) (xs ys : List ℕ) (q : ℕ)
    → Links h p (xs ++ ys) q
    → Links h p xs (first ys q) × Links h (last p xs) ys q
Links-split h p [] ys q links = (tt, links)
Links-split h p (x ∷ xs) ys q links =
    let (front, back) = Links-split h x xs ys q links.1 in
    ((links.0 ∙ ap (node p) (first-append xs ys q), front), back)
