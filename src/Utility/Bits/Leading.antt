-- ===== src/Utility/Bits/Leading.antt =====
-- `leading_zero_count` of common.hpp and the bit length of a word, on every width.
use solidframe.Prelude.{
  ℕ, zero, suc, ◌+◌, ◌-◌, ◌*◌, ◌/◌, ◌%◌, ◌^◌, ◌≤◌, ◌<◌, bit_or, ◌≡◌, refl, sym, ap, ◌∙◌, arith,
}
use solidframe.Prelude.Tables.{same_below, agree_below}
use solidframe.Prelude.Words.{
  pow_step, pow_pos, pow-add, bit_or_high, bit_or-zero, bit_or-lt, le-bit_or,
}
use solidframe.Utility.Bits.{
  smear, complement, bit_count_8, bit_count_16, bit_count_32, bit_count_64, leading_zero_count_8,
  leading_zero_count_16, leading_zero_count_32, leading_zero_count_64,
}
use native.Mathlib.Nat.{
  pow-le-pow_right, le-div_iff_mul-le, div-lt_iff_lt-mul, mul-le-mul_right, div-add-mod', mod-lt,
  div-le_self, div-eq_of_lt, le_refl,
}
use native.Mathlib.Decide.{dec_le, dec_lt}

-- The number needs `n` bits at most, and the `k` highest of them are ones.
abbrev pub TopOnes : ℕ → ℕ → ℕ → Type 0
TopOnes n k x = (x < 2 ^ n) × (2 ^ n ≤ x + 2 ^ (n - k))

-- A quotient is at least what its divisor times it shows.
le-div : (d b p x a : ℕ) → 0 < p → a ≤ b * p → a ≡ d + b → a * p ≤ x + a → d ≤ x / p
le-div d b p x a pos h e g = (le-div_iff_mul-le pos).1 (omega (arith, ap (λ (t : ℕ). t * p) e))

-- With the ones of the `k` highest bits moved down by `k`, `m` bits are left to them.
shifted_part : (m k x : ℕ) → 2 ^ (m + k) ≤ x + 2 ^ m → 2 ^ m ≤ x / 2 ^ k + 2 ^ (m - k)
shifted_part m k x h = elim (dec_le (2 ^ (m - k)) (2 ^ m)) [
  | yes le ↦
      let low : 2 ^ m - 2 ^ (m - k) ≤ x / 2 ^ k =
        le-div _ (2 ^ (m - k)) (2 ^ k) x (2 ^ m) (pow_pos k)
          (rw (← pow-add (m - k) k) (pow-le-pow_right {n = 2} (omega arith) (omega arith)))
          (omega arith) (omega (arith, pow-add m k)) in
      omega (arith, low)
  | no gt ↦ omega arith
]

high_part : (k p x : ℕ) → 0 < p → k * p ≤ x + p → k * p ≤ x / p * p + p
high_part k p x pos h = elim (dec_le k (x / p + 1)) [
  | yes le ↦ omega (arith, mul-le-mul_right p le)
  | no gt ↦
      let two_more : x / p + 2 ≤ k = omega arith in
      absurd (omega (arith, mul-le-mul_right p two_more, div-add-mod' x p, mod-lt x pos))
]

smear_top :
    (m k x : ℕ) → x < 2 ^ (m + k) → 2 ^ (m + k) ≤ x + 2 ^ m → 2 ^ (m + k) ≤ smear k x + 2 ^ (m - k)
unfolding smear
smear_top m k x lt h =
    let y = x / 2 ^ k in
    let y_lt : y < 2 ^ m = (div-lt_iff_lt-mul (pow_pos k)).1 (omega (arith, pow-add m k)) in
    let whole : x ≡ x / 2 ^ m * 2 ^ m + x % 2 ^ m = sym (div-add-mod' x (2 ^ m)) in
    let joined : bit_or x y ≡ x / 2 ^ m * 2 ^ m + bit_or (x % 2 ^ m) y =
      ap (λ (t : ℕ). bit_or t y) whole
      ∙ bit_or_high m (x / 2 ^ m) (x % 2 ^ m) y (mod-lt x (pow_pos m)) y_lt in
    omega (
      arith,
      joined,
      le-bit_or m (x % 2 ^ m) y y_lt,
      shifted_part m k x h,
      high_part (2 ^ k) (2 ^ m) x (pow_pos m) (omega (arith, pow-add m k)),
      pow-add m k,
    )

-- A smear by `k` doubles the run of ones at the top.
smear-TopOnes : (n k x : ℕ) → TopOnes n k x → TopOnes n (k + k) (smear k x)
smear-TopOnes n k x t = elim (dec_le k n) [
  | yes le ↦
      let e : n - k + k ≡ n = omega arith in
      let f : n - k - k ≡ n - (k + k) = omega arith in
      (
        unfold smear in bit_or-lt n x (x / 2 ^ k) t.0 (omega (arith, div-le_self x (2 ^ k), t.0)),
        rw (e, f) at (smear_top (n - k) k x (rw e t.0) (rw e t.1)),
      )
  | no gt ↦
      let far : x < 2 ^ k =
        omega (arith, t.0, pow-le-pow_right {n = 2} (omega arith) {i = n} {j = k} (omega arith)) in
      let still : smear k x ≡ x =
        unfold smear in ap (bit_or x) (div-eq_of_lt far) ∙ bit_or-zero x x (le_refl x) in
      let e : n - (k + k) ≡ n - k = omega arith in rw (still, e) t
]

-- `n` is the number of bits that `x` needs.
abbrev pub IsBitLength : ℕ → ℕ → Type 0
IsBitLength n x = (x < 2 ^ n) × (2 ^ n ≤ 2 * x + 1)

bit_length : (w x : ℕ) → x < 2 ^ w → (n : ℕ) × (n ≤ w) × IsBitLength n x
bit_length zero x h = (0, omega arith, (h, omega arith))
bit_length (suc w) x h = elim (dec_lt x (2 ^ w)) [
  | yes lt ↦ let (n, le, b) = bit_length w x lt in (n, omega arith, b)
  | no ge ↦ (suc w, omega arith, (h, omega (arith, pow_step w)))
]

bit_length_top : (n x : ℕ) → IsBitLength n x → TopOnes n 1 x
bit_length_top zero x b = (b.0, omega arith)
bit_length_top (suc n) x b =
    let e : suc n - 1 ≡ n = omega arith in (b.0, rw e (omega (arith, pow_step n)))

-- A run of ones that is as long as the number.
full_run : (n k x : ℕ) → n ≤ k → TopOnes n k x → x + 1 ≡ 2 ^ n
full_run n k x le t = let e : n - k ≡ 0 = omega arith in omega (arith, t.0, rw e at t.1)

-- The complement of a run of `n` ones has `w - n` ones, in each of the four word sizes.
runs_8 : (n : ℕ) → n < 9 → bit_count_8 (2 ^ 8 - 2 ^ n) ≡ 8 - n
unfolding same_below bit_count_8
runs_8 = agree_below _ _ 9 refl

runs_16 : (n : ℕ) → n < 17 → bit_count_16 (2 ^ 16 - 2 ^ n) ≡ 16 - n
unfolding same_below bit_count_16 bit_count_8
runs_16 = agree_below _ _ 17 refl

runs_32 : (n : ℕ) → n < 33 → bit_count_32 (2 ^ 32 - 2 ^ n) ≡ 32 - n
unfolding same_below bit_count_32 bit_count_8
runs_32 = agree_below _ _ 33 refl

runs_64 : (n : ℕ) → n < 65 → bit_count_64 (2 ^ 64 - 2 ^ n) ≡ 64 - n
unfolding same_below bit_count_64 bit_count_32 bit_count_8
runs_64 = agree_below _ _ 65 refl

-- Every word has a bit length, and `leading_zero_count` is what is left of the width above it.
pub leading_zero_count_8_lem :
    (x : ℕ) → x < 2 ^ 8 → (n : ℕ) × (n ≤ 8) × IsBitLength n x × (leading_zero_count_8 x ≡ 8 - n)
unfolding leading_zero_count_8
leading_zero_count_8_lem x h =
    let (n, le, b) = bit_length 8 x h in
    let s1 = smear-TopOnes n 1 x (bit_length_top n x b) in
    let s2 = smear-TopOnes n 2 _ s1 in
    let s4 = smear-TopOnes n 4 _ s2 in
    let e : complement 8 (smear 4 (smear 2 (smear 1 x))) ≡ 2 ^ 8 - 2 ^ n =
      omega (arith, full_run n 8 _ (omega arith) s4) in
    (n, le, b, ap bit_count_8 e ∙ runs_8 n (omega arith))

pub leading_zero_count_16_lem :
    (x : ℕ) → x < 2 ^ 16 → (n : ℕ) × (n ≤ 16) × IsBitLength n x × (leading_zero_count_16 x ≡ 16 - n)
unfolding leading_zero_count_16
leading_zero_count_16_lem x h =
    let (n, le, b) = bit_length 16 x h in
    let s1 = smear-TopOnes n 1 x (bit_length_top n x b) in
    let s2 = smear-TopOnes n 2 _ s1 in
    let s4 = smear-TopOnes n 4 _ s2 in
    let s8 = smear-TopOnes n 8 _ s4 in
    let e : complement 16 (smear 8 (smear 4 (smear 2 (smear 1 x)))) ≡ 2 ^ 16 - 2 ^ n =
      omega (arith, full_run n 16 _ (omega arith) s8) in
    (n, le, b, ap bit_count_16 e ∙ runs_16 n (omega arith))

pub leading_zero_count_32_lem :
    (x : ℕ) → x < 2 ^ 32 → (n : ℕ) × (n ≤ 32) × IsBitLength n x × (leading_zero_count_32 x ≡ 32 - n)
unfolding leading_zero_count_32
leading_zero_count_32_lem x h =
    let (n, le, b) = bit_length 32 x h in
    let s1 = smear-TopOnes n 1 x (bit_length_top n x b) in
    let s2 = smear-TopOnes n 2 _ s1 in
    let s4 = smear-TopOnes n 4 _ s2 in
    let s8 = smear-TopOnes n 8 _ s4 in
    let s16 = smear-TopOnes n 16 _ s8 in
    let e : complement 32 (smear 16 (smear 8 (smear 4 (smear 2 (smear 1 x))))) ≡ 2 ^ 32 - 2 ^ n =
      omega (arith, full_run n 32 _ (omega arith) s16) in
    (n, le, b, ap bit_count_32 e ∙ runs_32 n (omega arith))

-- For a word below 2^64, `leading_zero_count` is 64 minus the word's bit length `n`, the least number
-- of bits that hold it, which is at most 64.
pub leading_zero_count_64_lem :
    (x : ℕ) → x < 2 ^ 64 → (n : ℕ) × (n ≤ 64) × IsBitLength n x × (leading_zero_count_64 x ≡ 64 - n)
unfolding leading_zero_count_64
leading_zero_count_64_lem x h =
    let (n, le, b) = bit_length 64 x h in
    let s1 = smear-TopOnes n 1 x (bit_length_top n x b) in
    let s2 = smear-TopOnes n 2 _ s1 in
    let s4 = smear-TopOnes n 4 _ s2 in
    let s8 = smear-TopOnes n 8 _ s4 in
    let s16 = smear-TopOnes n 16 _ s8 in
    let s32 = smear-TopOnes n 32 _ s16 in
    let e : complement 64 (smear 32 (smear 16 (smear 8 (smear 4 (smear 2 (smear 1 x))))))
        ≡ 2 ^ 64 - 2 ^ n =
      omega (arith, full_run n 64 _ (omega arith) s32) in
    (n, le, b, ap bit_count_64 e ∙ runs_64 n (omega arith))
