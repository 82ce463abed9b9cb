-- ===== src/Io/Request/DirAndLen.antt =====
-- `IoRequest::IoDirAndLen` (src/io/io_request.h): a length and a direction in one word.
use Prim.Native.Nat.{bit_and, bit_or}
use mathlib.Core.Equiv.{IsEquiv, Iso, iso_to_equiv}
use mathlib.Core.HLevel.{Σ_prop_path}
use native.Mathlib.Bridge.{le_prop}
use native.Mathlib.Nat.{mod-eq_of_lt}
use qstorage.Prelude.{
  ◌∙◌, ap₂, zero, suc, refl, ℕ, ◌+◌, ◌*◌, ◌%◌, ◌^◌, ◌<◌, ◌≡◌, arith, ◌==◌, if◌then◌else◌,
}
use qstorage.Prelude.Bits.{◌<<◌, ◌>>◌, or_shifted, and_mask}
use qstorage.Prelude.Words.{u64_mod}

pub data IoDir : Type 0 where
  write read : IoDir

-- `size_t(dir)`
abbrev pub number : IoDir → ℕ
number IoDir.write = 0
number IoDir.read = 1

-- `static_cast<IoDir>` of one bit
abbrev pub dir_of : ℕ → IoDir
dir_of b = if b == 0 then IoDir.write else IoDir.read

-- `IoDirAndLen(dir, len)`, the word that it keeps
unfoldable pub pack : IoDir → ℕ → ℕ
pack dir len = bit_or ((len << 1) % u64_mod) (number dir)

unfoldable pub len_of : ℕ → ℕ
len_of w = w >> 1

unfoldable pub direction : ℕ → IoDir
direction w = dir_of (bit_and w 1)

pack_sum : (dir : IoDir) (len : ℕ) → pack dir len ≡ 2 * (len % 2 ^ 63) + number dir
unfolding pack
pack_sum dir len =
    let e : (len << 1) % u64_mod ≡ (len % 2 ^ 63) << 1 = omega arith in
    rw (e, or_shifted 1 (len % 2 ^ 63) (number dir) (small dir)) (omega arith)
  where
    small : (d : IoDir) → number d < 2 ^ 1
    small IoDir.write = omega arith
    small IoDir.read = omega arith

-- Every direction comes back, and every length modulo `2 ^ 63`: the shift drops its topmost bit.
pub pack_lem :
    (dir : IoDir) (len : ℕ)
    → (direction (pack dir len) ≡ dir) × (len_of (pack dir len) ≡ len % 2 ^ 63)
unfolding direction len_of
pack_lem IoDir.write len =
    ground (arith, pack_sum IoDir.write len, and_mask 1 (pack IoDir.write len))
pack_lem IoDir.read len = ground (arith, pack_sum IoDir.read len, and_mask 1 (pack IoDir.read len))

-- The lengths that the word has room for, and the words
abbrev pub Length : Type 0
Length = (len : ℕ) × (len < 2 ^ 63)

abbrev pub Word : Type 0
Word = (w : ℕ) × (w < u64_mod)

pub pack-bound : (dir : IoDir) (len : ℕ) → pack dir len < u64_mod
pack-bound IoDir.write len = omega (arith, pack_sum IoDir.write len)
pack-bound IoDir.read len = omega (arith, pack_sum IoDir.read len)

abbrev pub pack_word : IoDir × Length → Word
pack_word (dir, len) = (pack dir len.0, pack-bound dir len.0)

len_of-bound : (w : ℕ) → w < u64_mod → len_of w < 2 ^ 63
unfolding len_of
len_of-bound w fits = omega arith

number-dir_of : (b : ℕ) → b < 2 → number (dir_of b) ≡ b
number-dir_of zero h = refl
number-dir_of (suc zero) h = refl
number-dir_of (suc (suc b)) h = absurd (omega arith)

pack-direction : (w : ℕ) → w < u64_mod → pack (direction w) (len_of w) ≡ w
unfolding direction len_of
pack-direction w fits = omega (
  arith,
  pack_sum (direction w) (len_of w),
  number-dir_of (bit_and w 1) (omega (arith, and_mask 1 w)),
  and_mask 1 w,
)

-- The word of a direction and a length below `2 ^ 63` determines both, and every word of 64 bits is
-- the word of one of each: packing is an equivalence of types.
pub pack_word-IsEquiv : IsEquiv pack_word
pack_word-IsEquiv = (iso_to_equiv packing).1
  where
    packing : Iso (IoDir × Length) Word
    packing = record {
      fun = pack_word;
      inv = λ w. (direction w.0, (len_of w.0, len_of-bound w.0 w.1));
      rinv = λ w. Σ_prop_path (λ n. le_prop) (pack-direction w.0 w.1);
      linv = λ a.
          let (back, len) = pack_lem a.0 a.1.0 in
          let small : a.1.0 % 2 ^ 63 ≡ a.1.0 = mod-eq_of_lt a.1.1 in
          ap₂ (λ d l. (d, l)) back (Σ_prop_path (λ n. le_prop) (len ∙ small));
    }
