-- ===== src/Xlog.antt =====
-- The sample library under src/xlog, and the program src/main.cc that calls it. A number of type
-- int is in the range of 32 bits; a sum out of it is undefined behaviour, `none`.
mod Tests
use Prim.Native.String.{String}
use qstorage.Prelude.{
  ℕ, zero, suc, ◌+◌, ◌-◌, ◌%◌, ◌^◌, ◌<◌, ◌≤◌, ◌≡◌, refl, Bool, true, false, Option, none, some,
  List, [], ◌∷◌, leb, ltb, Bool-cases, inl, inr, if◌then◌else◌, arith,
}
use qstorage.Prelude.Words.{ℤ, pos, negsuc, u32_mod}

abbrev pub difference : ℕ → ℕ → ℤ
difference a b = if leb b a then pos (a - b) else negsuc (b - a - 1)

-- src/config/config.h
abbrev pub version : String
version = "0.0.1"

abbrev pub debug_build : Bool
debug_build = true

abbrev pub max_threads : ℕ
max_threads = 5

infixl 20 ◌+ℤ◌
abbrev pub ◌+ℤ◌ : ℤ → ℤ → ℤ
pos a +ℤ pos b = pos (a + b)
pos a +ℤ negsuc b = difference a (b + 1)
negsuc a +ℤ pos b = difference b (a + 1)
negsuc a +ℤ negsuc b = negsuc (a + b + 1)

abbrev pub in_int : ℤ → Bool
in_int (pos n) = ltb n (2 ^ 31)
in_int (negsuc n) = ltb n (2 ^ 31)

-- What `printf` is called with in a debug build, by its format "DEBUG: %d + %d = %d\n"
pub record Printed : Type 0 where
  pub a : ℤ
  pub b : ℤ
  pub sum : ℤ

pub record Added : Type 0 where
  pub result : ℤ
  pub output : List Printed

-- `add` where `DEBUG` is defined, as src/config/config.h has it, and where it is not
unfoldable pub add : (debug : Bool) → ℤ → ℤ → Option Added
add debug a b =
    let sum = a +ℤ b in
    let output = if debug then record { a = a; b = b; sum = sum } ∷ [] else [] in
    if in_int sum then some (record { result = sum; output = output }) else none

-- The program: the output of `add(1, 2)`, and the result 0
abbrev pub after_add : Option Added → Option (List Printed × ℕ)
after_add none = none
after_add (some s) = some (s.output, 0)

unfoldable pub main : Option (List Printed × ℕ)
unfolding add
main = after_add (add debug_build (pos 1) (pos 2))

-- `xlog_API` of src/xlog/include/xlog_export.h, by which of the macros are defined
pub data Api : Type 0 where
  no_attribute dllexport dllimport : Api

abbrev pub xlog_api : (xlog_static windows xlog_exports : Bool) → Api
xlog_api true windows exports = no_attribute
xlog_api false false exports = no_attribute
xlog_api false true true = dllexport
xlog_api false true false = dllimport

-- The word of 32 bits of an int
abbrev pub word : ℤ → ℕ
word (pos n) = n
word (negsuc n) = u32_mod - 1 - n

-- What a call may give
abbrev pub HasSum : (a b : ℤ) → Option Added → Type 0
HasSum a b none = in_int (a +ℤ b) ≡ false
HasSum a b (some s) = (in_int s.result ≡ true) × (word s.result ≡ (word a + word b) % u32_mod)

word-sum :
    (a b : ℤ)
    → in_int a ≡ true
    → in_int b ≡ true
    → in_int (a +ℤ b) ≡ true
    → word (a +ℤ b) ≡ (word a + word b) % u32_mod
word-sum (pos a) (pos b) ha hb h = ground arith
word-sum (pos a) (negsuc b) ha hb h = ground arith
word-sum (negsuc a) (pos b) ha hb h = ground arith
word-sum (negsuc a) (negsuc b) ha hb h = ground arith

-- `add` of two ints gives the int whose 32 bits are the sum of theirs modulo `2 ^ 32`, in both
-- builds, and is undefined exactly where no int is the sum.
pub add_lem :
    (a b : ℤ) (debug : Bool) → in_int a ≡ true → in_int b ≡ true → HasSum a b (add debug a b)
unfolding add
add_lem a b debug ha hb = elim (Bool-cases (in_int (a +ℤ b))) [
  | inl e ↦ rw (e) (e, word-sum a b ha hb e)
  | inr e ↦ rw (e) e
]
