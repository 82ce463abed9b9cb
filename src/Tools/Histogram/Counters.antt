-- ===== src/Tools/Histogram/Counters.antt =====
-- The counters behind the bounds of a histogram (src/tools/histogram.h), and their sum.
use qstorage.Prelude.{
  ℕ, zero, suc, ◌+◌, ◌-◌, ◌<◌, ◌≤◌, ◌≡◌, refl, ap, ◌∙◌, List, [], ◌∷◌, ◌++◌, arith, length, get_or,
  set, drop,
}
use qstorage.Prelude.Words.{u32_mod}
use qstorage.Tools.Histogram.{add_counters, from}

abbrev pub sum : List ℕ → ℕ
sum [] = 0
sum (x ∷ xs) = x + sum xs

pub length-drop : (n : ℕ) (xs : List ℕ) → length (drop n xs) ≡ length xs - n
length-drop zero xs = omega arith
length-drop (suc n) [] = omega arith
length-drop (suc n) (x ∷ xs) = omega (arith, length-drop n xs)

behind_cons : (lo n : ℕ) → lo + suc n ≡ suc (lo + n)
behind_cons lo n = omega arith

pub drop-set : (n lo : ℕ) (xs : List ℕ) (v : ℕ) → drop n (set xs (lo + n) v) ≡ set (drop n xs) lo v
drop-set zero lo xs v = ap (λ k. set xs k v) (omega arith)
drop-set (suc n) lo [] v = refl
drop-set (suc n) lo (x ∷ xs) v =
    ap (λ k. drop (suc n) (set (x ∷ xs) k v)) (behind_cons lo n) ∙ drop-set n lo xs v

pub get_or-drop : (n lo : ℕ) (xs : List ℕ) → get_or xs (lo + n) 0 ≡ get_or (drop n xs) lo 0
get_or-drop zero lo xs = ap (λ k. get_or xs k 0) (omega arith)
get_or-drop (suc n) lo [] = refl
get_or-drop (suc n) lo (x ∷ xs) =
    ap (λ k. get_or (x ∷ xs) k 0) (behind_cons lo n) ∙ get_or-drop n lo xs

pub get_or-set : (xs : List ℕ) (i k v : ℕ) → i < k → get_or (set xs k v) i 0 ≡ get_or xs i 0
get_or-set [] i k v h = refl
get_or-set (x ∷ xs) i zero v h = absurd (omega arith)
get_or-set (x ∷ xs) zero (suc k) v h = refl
get_or-set (x ∷ xs) (suc i) (suc k) v h = get_or-set xs i k v (omega arith)

pub get_or-sum : (xs : List ℕ) (i : ℕ) → get_or xs i 0 ≤ sum xs
get_or-sum [] i = omega arith
get_or-sum (x ∷ xs) zero = omega arith
get_or-sum (x ∷ xs) (suc i) = omega (arith, get_or-sum xs i)

pub sum-set :
    (xs : List ℕ) (i : ℕ) → i < length xs → sum (set xs i (get_or xs i 0 + 1)) ≡ sum xs + 1
sum-set [] i h = absurd (omega arith)
sum-set (x ∷ xs) zero h = omega arith
sum-set (x ∷ xs) (suc i) h = omega (arith, sum-set xs i (omega arith))

pub length-add_counters : (xs ys : List ℕ) → length (add_counters xs ys) ≡ length xs
length-add_counters [] [] = refl
length-add_counters [] (y ∷ ys) = refl
length-add_counters (x ∷ xs) [] = refl
length-add_counters (x ∷ xs) (y ∷ ys) = ap suc (length-add_counters xs ys)

pub sum-add_counters :
    (xs ys : List ℕ)
    → length xs ≡ length ys
    → sum xs + sum ys < u32_mod
    → sum (add_counters xs ys) ≡ sum xs + sum ys
sum-add_counters [] [] e h = refl
sum-add_counters [] (y ∷ ys) e h = absurd (omega arith)
sum-add_counters (x ∷ xs) [] e h = absurd (omega arith)
sum-add_counters (x ∷ xs) (y ∷ ys) e h =
    omega (arith, sum-add_counters xs ys (omega arith) (omega arith))

pub drop-from :
    (n : ℕ) (f : List ℕ → List ℕ) (xs : List ℕ)
    → n ≤ length xs
    → drop n (from n f xs) ≡ f (drop n xs)
drop-from zero f xs h = refl
drop-from (suc n) f [] h = absurd (omega arith)
drop-from (suc n) f (x ∷ xs) h = drop-from n f xs (omega arith)

pub length-from :
    (n : ℕ) (f : List ℕ → List ℕ) (xs : List ℕ)
    → ((ys : List ℕ) → length (f ys) ≡ length ys)
    → length (from n f xs) ≡ length xs
length-from zero f xs h = h xs
length-from (suc n) f [] h = refl
length-from (suc n) f (x ∷ xs) h = ap suc (length-from n f xs h)

pub get_or-from :
    (n : ℕ) (f : List ℕ → List ℕ) (xs : List ℕ) (i : ℕ)
    → i < n
    → get_or (from n f xs) i 0 ≡ get_or xs i 0
get_or-from zero f xs i h = absurd (omega arith)
get_or-from (suc n) f [] i h = refl
get_or-from (suc n) f (x ∷ xs) zero h = refl
get_or-from (suc n) f (x ∷ xs) (suc i) h = get_or-from n f xs i (omega arith)

pub drop-append : (xs ys : List ℕ) → drop (length xs) (xs ++ ys) ≡ ys
drop-append [] ys = refl
drop-append (x ∷ xs) ys = drop-append xs ys

pub get_or-append : (xs ys : List ℕ) (i : ℕ) → i < length xs → get_or (xs ++ ys) i 0 ≡ get_or xs i 0
get_or-append [] ys i h = absurd (omega arith)
get_or-append (x ∷ xs) ys zero h = refl
get_or-append (x ∷ xs) ys (suc i) h = get_or-append xs ys i (omega arith)
