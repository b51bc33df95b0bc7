-- ===== src/Utility/Bits/Count.antt =====
-- `bit_count` of utility.cpp and the ones of a word, on every width.
use solidframe.Prelude.{
  ℕ, zero, suc, ◌+◌, ◌*◌, ◌/◌, ◌%◌, ◌^◌, ◌≤◌, ◌<◌, bit_and, ◌≡◌, refl, sym, ap, ◌∙◌, arith,
}
use solidframe.Prelude.Tables.{same_below, agree_below}
use solidframe.Prelude.Words.{bit_and_mask, pow_step, pow_pos, mod_double}
use native.Mathlib.Nat.{div-div-eq-div-mul, div-one, div-eq_of_lt}
use Prim.Native.Nat.add
use solidframe.Utility.Bits.{bit_count_8, bit_count_16, bit_count_32, bit_count_64}

-- The ones among the `k` lowest bits.
unfoldable pub ones : ℕ → ℕ → ℕ
ones zero v = 0
ones (suc k) v = v % 2 + ones k (v / 2)

pub ones-le : (k v : ℕ) → ones k v ≤ k
unfolding ones
ones-le zero v = omega arith
ones-le (suc k) v = omega (arith, ones-le k (v / 2))

pub ones-zero : (k : ℕ) → ones k 0 ≡ 0
unfolding ones
ones-zero zero = refl
ones-zero (suc k) = omega (arith, ones-zero k)

-- `bit_count` of a byte is the number of its ones.
pub bit_count_8_lem : (b : ℕ) → b < 2 ^ 8 → bit_count_8 b ≡ ones 8 b
unfolding same_below bit_count_8 ones
bit_count_8_lem = agree_below bit_count_8 (ones 8) 256 refl

shift_suc : (v m : ℕ) → v / 2 / 2 ^ m ≡ v / 2 ^ suc m
shift_suc v m = div-div-eq-div-mul v 2 (2 ^ m) ∙ rw (pow_step m)

-- The ones of a word are those of its low part and of its high part.
pub ones_split : (m n v : ℕ) → ones (m + n) v ≡ ones m v + ones n (v / 2 ^ m)
unfolding ones
ones_split zero n v = rw (add.zero n) (omega (arith, ap (ones n) (div-one v)))
ones_split (suc m) n v = rw (add.suc m n, ← shift_suc v m) (omega (arith, ones_split m n (v / 2)))

-- They are not changed by a cast to the bits that are counted.
pub ones-mod : (k v : ℕ) → ones k (v % 2 ^ k) ≡ ones k v
unfolding ones
ones-mod zero v = refl
ones-mod (suc k) v =
    let split : v % 2 ^ suc k ≡ v / 2 % 2 ^ k * 2 + v % 2 =
      rw (pow_step k) (mod_double v (2 ^ k) (pow_pos k)) in
    let half : v % 2 ^ suc k / 2 ≡ v / 2 % 2 ^ k = omega (arith, split) in
    rw half (omega (arith, split, ones-mod k (v / 2)))

-- The byte that a mask and a cast take from a word has the ones of the word's low byte.
low_byte : (v : ℕ) → bit_count_8 (bit_and v 0xff % 2 ^ 8) ≡ ones 8 v
low_byte v =
    bit_count_8_lem _ (omega arith)
    ∙ ones-mod 8 (bit_and v 0xff)
    ∙ ap (ones 8) (bit_and_mask 8 v)
    ∙ ones-mod 8 v

cast_byte : (v : ℕ) → bit_count_8 (v % 2 ^ 8) ≡ ones 8 v
cast_byte v = bit_count_8_lem _ (omega arith) ∙ ones-mod 8 v

-- `bit_count` of a 16-bit word is the number of its ones.
pub bit_count_16_lem : (v : ℕ) → bit_count_16 v ≡ ones 16 v
unfolding bit_count_16
bit_count_16_lem v = rw (low_byte v, cast_byte (v / 2 ^ 8)) (sym (ones_split 8 8 v))

-- `bit_count` of a 32-bit word is the number of its ones.
pub bit_count_32_lem : (v : ℕ) → bit_count_32 v ≡ ones 32 v
unfolding bit_count_32
bit_count_32_lem v = omega (
  arith,
  low_byte v,
  low_byte (v / 2 ^ 8),
  low_byte (v / 2 ^ 16),
  low_byte (v / 2 ^ 24),
  ones_split 8 24 v,
  ones_split 8 16 (v / 2 ^ 8),
  ones_split 8 8 (v / 2 ^ 16),
  ap (ones 16) (div-div-eq-div-mul v (2 ^ 8) (2 ^ 8)),
  ap (ones 8) (div-div-eq-div-mul v (2 ^ 16) (2 ^ 8)),
)

low_word : (v : ℕ) → bit_count_32 (bit_and v 0xffff_ffff % 2 ^ 32) ≡ ones 32 v
low_word v =
    bit_count_32_lem _
    ∙ ones-mod 32 (bit_and v 0xffff_ffff)
    ∙ ap (ones 32) (bit_and_mask 32 v)
    ∙ ones-mod 32 v

-- `bit_count` of a 64-bit word is the number of the ones among its 64 lowest bits.
pub bit_count_64_lem : (v : ℕ) → bit_count_64 v ≡ ones 64 v
unfolding bit_count_64
bit_count_64_lem v =
    rw (low_word v, bit_count_32_lem (v / 2 ^ 32 % 2 ^ 32), ones-mod 32 (v / 2 ^ 32))
      (sym (ones_split 32 32 v))

-- A word below `2 ^ k` has at most `k` ones.
pub ones-le_of_lt : (k n v : ℕ) → v < 2 ^ k → ones (k + n) v ≤ k
ones-le_of_lt k n v h =
    omega (arith, ones_split k n v, ones-le k v, ap (ones n) (div-eq_of_lt h), ones-zero n)
