-- ===== src/Prelude/Bits.antt =====
-- Shifts, masks and disjoint fields of machine words, as arithmetic.
use Prim.Native.Nat.{
  ℕ, zero, suc, ◌+◌, ◌-◌, ◌*◌, ◌/◌, ◌%◌, ◌^◌, ◌≤◌, ◌<◌, min, max, digits, bit_and, bit_or,
  bit_and-bitwise, bit_or-bitwise,
}
use mathlib.Core.Path.{◌≡◌, refl, ap, ap₂, ◌∙◌}
use native.Mathlib.Nat.{pow-suc, one-le-pow, div-div-eq-div-mul}
use native.Mathlib.Omega.{arith}

-- `x << k` before the wrap-around, and `x >> k`
infixl 60 ◌<<◌ ◌>>◌
abbrev pub ◌<<◌ : ℕ → ℕ → ℕ
x << k = x * 2 ^ k

abbrev pub ◌>>◌ : ℕ → ℕ → ℕ
x >> k = x / 2 ^ k

-- The digit recursions that the native operations stand for do not depend on their fuel.
or_fuel : (n m a b : ℕ) → a ≤ n → a ≤ m → digits (λ y. y) max n a b ≡ digits (λ y. y) max m a b
or_fuel zero zero a b p q = refl
or_fuel zero (suc m) zero b p q = refl
or_fuel zero (suc m) (suc a) b p q = absurd (omega arith)
or_fuel (suc n) zero zero b p q = refl
or_fuel (suc n) zero (suc a) b p q = absurd (omega arith)
or_fuel (suc n) (suc m) zero b p q = refl
or_fuel (suc n) (suc m) (suc a) b p q =
    omega (arith, or_fuel n m (suc a / 2) (b / 2) (omega arith) (omega arith))

and_fuel :
    (n m a b : ℕ) → a ≤ n → a ≤ m → digits (λ _. zero) min n a b ≡ digits (λ _. zero) min m a b
and_fuel zero zero a b p q = refl
and_fuel zero (suc m) zero b p q = refl
and_fuel zero (suc m) (suc a) b p q = absurd (omega arith)
and_fuel (suc n) zero zero b p q = refl
and_fuel (suc n) zero (suc a) b p q = absurd (omega arith)
and_fuel (suc n) (suc m) zero b p q = refl
and_fuel (suc n) (suc m) (suc a) b p q =
    omega (arith, and_fuel n m (suc a / 2) (b / 2) (omega arith) (omega arith))

or_lowest : (a b : ℕ) → bit_or a b ≡ bit_or (a / 2) (b / 2) * 2 + max (a % 2) (b % 2)
or_lowest zero b = omega (arith, bit_or-bitwise 0 b, bit_or-bitwise 0 (b / 2))
or_lowest (suc a) b = omega (
  arith,
  bit_or-bitwise (suc a) b,
  bit_or-bitwise (suc a / 2) (b / 2),
  or_fuel a (suc a / 2) (suc a / 2) (b / 2) (omega arith) (omega arith),
)

pub and_lowest : (a b : ℕ) → bit_and a b ≡ bit_and (a / 2) (b / 2) * 2 + min (a % 2) (b % 2)
and_lowest zero b = omega (arith, bit_and-bitwise 0 b, bit_and-bitwise 0 (b / 2))
and_lowest (suc a) b = omega (
  arith,
  bit_and-bitwise (suc a) b,
  bit_and-bitwise (suc a / 2) (b / 2),
  and_fuel a (suc a / 2) (suc a / 2) (b / 2) (omega arith) (omega arith),
)

or_zero_below : (n a : ℕ) → a ≤ n → bit_or a 0 ≡ a
or_zero_below n zero h = refl
or_zero_below zero (suc a) h = absurd (omega arith)
or_zero_below (suc n) (suc a) h =
    omega (arith, or_lowest (suc a) 0, or_zero_below n (suc a / 2) (omega arith))

and_zero_below : (n a : ℕ) → a ≤ n → bit_and a 0 ≡ 0
and_zero_below n zero h = refl
and_zero_below zero (suc a) h = absurd (omega arith)
and_zero_below (suc n) (suc a) h =
    omega (arith, and_lowest (suc a) 0, and_zero_below n (suc a / 2) (omega arith))

double : (q k : ℕ) → q << suc k ≡ 2 * (q << k)
double q k = omega (arith, ap (λ (t : ℕ). q * t) (pow-suc 2 k))

-- Joining a shifted field with one that fits below it is a sum.
pub or_shifted : (k q r : ℕ) → r < 2 ^ k → bit_or (q << k) r ≡ (q << k) + r
or_shifted zero q zero fits = omega (arith, or_zero_below (q * 1) (q * 1) (omega arith))
or_shifted zero q (suc r) fits = absurd (omega arith)
or_shifted (suc k) q r fits = ground (
  arith,
  or_lowest (q << suc k) r,
  double q k,
  pow-suc 2 k,
  or_shifted k q (r / 2) (omega (arith, pow-suc 2 k)),
)

-- Setting a bit that is the topmost one already
pub or_set : (k r : ℕ) → r < 2 ^ k → bit_or (2 ^ k + r) (2 ^ k) ≡ 2 ^ k + r
or_set zero zero fits = refl
or_set zero (suc r) fits = absurd (omega arith)
or_set (suc k) r fits = ground (
  arith,
  or_lowest (2 ^ suc k + r) (2 ^ suc k),
  pow-suc 2 k,
  or_set k (r / 2) (omega (arith, pow-suc 2 k)),
)

and_split : (k q r : ℕ) → r < 2 ^ k → bit_and ((q << k) + r) (2 ^ k - 1) ≡ r
and_split zero q r fits = omega (arith, and_zero_below (q * 1 + r) (q * 1 + r) (omega arith))
and_split (suc k) q r fits = ground (
  arith,
  and_lowest ((q << suc k) + r) (2 ^ suc k - 1),
  double q k,
  pow-suc 2 k,
  one-le-pow k 2,
  and_split k q (r / 2) (omega (arith, pow-suc 2 k)),
)

-- A mask of the `k` low bits is the remainder by `2 ^ k`.
pub and_mask : (k a : ℕ) → bit_and a (2 ^ k - 1) ≡ a % 2 ^ k
and_mask k a = ground (arith, one-le-pow k 2, and_split k (a / 2 ^ k) (a % 2 ^ k))

or_comm_below : (n a b : ℕ) → a ≤ n → b ≤ n → bit_or a b ≡ bit_or b a
or_comm_below zero zero zero p q = refl
or_comm_below zero (suc a) b p q = absurd (omega arith)
or_comm_below zero zero (suc b) p q = absurd (omega arith)
or_comm_below (suc n) a b p q = omega (
  arith,
  or_lowest a b,
  or_lowest b a,
  or_comm_below n (a / 2) (b / 2) (omega arith) (omega arith),
)

pub or_comm : (a b : ℕ) → bit_or a b ≡ bit_or b a
or_comm a b = or_comm_below (a + b) a b (omega arith) (omega arith)

-- A mask of `m` shifted keeps what `m` keeps of the bits above.
pub and_shifted : (k a m : ℕ) → bit_and a (m << k) ≡ bit_and (a >> k) m << k
and_shifted zero a m = omega (arith, ap₂ bit_and (div_one a) (mul_one m))
  where
    div_one : (a : ℕ) → a ≡ a / 1
    div_one a = omega arith

    mul_one : (m : ℕ) → m * 1 ≡ m
    mul_one m = omega arith
and_shifted (suc k) a m =
    let wide : m << suc k ≡ 2 * (m << k) = double m k in
    let half : 2 * (m << k) / 2 ≡ m << k = omega arith in
    let down : (a / 2) >> k ≡ a >> suc k =
      div-div-eq-div-mul a 2 (2 ^ k) ∙ ap (λ (t : ℕ). a / t) (next k) in
    let low = and_lowest a (2 * (m << k)) in
    let upper =
      ap (bit_and (a / 2)) half ∙ (and_shifted k (a / 2) m ∙ ap (λ t. bit_and t m << k) down) in
    ap (bit_and a) wide ∙ omega (arith, low, upper, double (bit_and (a >> suc k) m) k)
  where
    next : (k : ℕ) → 2 * 2 ^ k ≡ 2 ^ suc k
    next k = omega (arith, pow-suc 2 k)
