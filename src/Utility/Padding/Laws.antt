-- ===== src/Utility/Padding/Laws.antt =====
-- The sizes of solid/utility/common.hpp and the byte counts of solid/utility/algorithm.hpp.
use solidframe.Prelude.{ℕ, suc, ◌+◌, ◌-◌, ◌*◌, ◌/◌, ◌%◌, ◌^◌, ◌≤◌, ◌<◌, ◌≡◌, refl, arith}
use solidframe.Prelude.Tables.{same_below, agree_below}
use solidframe.Prelude.Words.{pow_step, bit_and_mask}
use solidframe.Utility.Bits.Leading.{
  IsBitLength, leading_zero_count_8_lem, leading_zero_count_16_lem, leading_zero_count_32_lem,
  leading_zero_count_64_lem,
}
use solidframe.Utility.Bits.{
  leading_zero_count_8, leading_zero_count_16, leading_zero_count_32, leading_zero_count_64,
}
use solidframe.Utility.Padding.{
  padded_size, fast_padded_size, max_bit_count_8, max_padded_byte_cout_8, max_bit_count_16,
  max_padded_byte_cout_16, max_bit_count_32, max_padded_byte_cout_32, max_bit_count_64,
  max_padded_byte_cout_64, max_padded_bit_cout_8, max_padded_bit_cout_16, max_padded_bit_cout_32,
  max_padded_bit_cout_64,
}
use native.Mathlib.Nat.{pow-le-pow_right}
use native.Mathlib.Decide.{dec_le}

-- `fast_padded_size` with a number of bits computes what `padded_size` computes with that power of
-- two.
pub fast_padded_size-eq-padded_size :
    (sz bitpad : ℕ) → fast_padded_size sz bitpad ≡ padded_size sz (2 ^ bitpad)
unfolding fast_padded_size padded_size
fast_padded_size-eq-padded_size sz k =
    rw (bit_and_mask k sz, bit_and_mask k (2 ^ k - sz % 2 ^ k)) refl

-- `s` is the least number of bytes that hold `v`.
abbrev pub IsByteCount : ℕ → ℕ → Type 0
IsByteCount s v = (v < 2 ^ (8 * s)) × ((k : ℕ) → v < 2 ^ (8 * k) → s ≤ k)

padded_bytes : (n : ℕ) → n < 65 → fast_padded_size n 3 / 2 ^ 3 ≡ (n + 7) / 8
unfolding same_below fast_padded_size
padded_bytes = agree_below _ _ 65 refl

bytes_of_bits : (n v : ℕ) → IsBitLength n v → IsByteCount ((n + 7) / 8) v
bytes_of_bits n v (lt, top) = (enough, λ k. least k)
  where
    enough : v < 2 ^ (8 * ((n + 7) / 8))
    enough = omega (
      arith,
      lt,
      pow-le-pow_right {n = 2} (omega arith) {i = n} {j = 8 * ((n + 7) / 8)} (omega arith),
    )

    least : (k : ℕ) → v < 2 ^ (8 * k) → (n + 7) / 8 ≤ k
    least k h = elim (dec_le n (8 * k)) [
      | yes le ↦ omega arith
      | no gt ↦ absurd (
          omega (
            arith,
            pow_step (8 * k),
            pow-le-pow_right {n = 2} (omega arith) {i = suc (8 * k)} {j = n} (omega arith),
          ))
    ]

-- `max_padded_byte_cout` of a 8-bit word is the least number of bytes that hold it, 1 at most.
pub max_padded_byte_cout_8_lem :
    (v : ℕ) → v < 2 ^ 8 → (max_padded_byte_cout_8 v ≤ 1) × IsByteCount (max_padded_byte_cout_8 v) v
unfolding max_padded_byte_cout_8 max_padded_bit_cout_8 max_bit_count_8
max_padded_byte_cout_8_lem v h =
    let (n, le, b, e) = leading_zero_count_8_lem v h in
    let bits : 8 - leading_zero_count_8 v ≡ n = omega arith in
    rw (bits, padded_bytes n (omega arith)) (omega arith, bytes_of_bits n v b)

-- `max_padded_byte_cout` of a 16-bit word is the least number of bytes that hold it, 2 at most.
pub max_padded_byte_cout_16_lem :
    (v : ℕ)
    → v < 2 ^ 16
    → (max_padded_byte_cout_16 v ≤ 2) × IsByteCount (max_padded_byte_cout_16 v) v
unfolding max_padded_byte_cout_16 max_padded_bit_cout_16 max_bit_count_16
max_padded_byte_cout_16_lem v h =
    let (n, le, b, e) = leading_zero_count_16_lem v h in
    let bits : 16 - leading_zero_count_16 v ≡ n = omega arith in
    rw (bits, padded_bytes n (omega arith)) (omega arith, bytes_of_bits n v b)

-- `max_padded_byte_cout` of a 32-bit word is the least number of bytes that hold it, 4 at most.
pub max_padded_byte_cout_32_lem :
    (v : ℕ)
    → v < 2 ^ 32
    → (max_padded_byte_cout_32 v ≤ 4) × IsByteCount (max_padded_byte_cout_32 v) v
unfolding max_padded_byte_cout_32 max_padded_bit_cout_32 max_bit_count_32
max_padded_byte_cout_32_lem v h =
    let (n, le, b, e) = leading_zero_count_32_lem v h in
    let bits : 32 - leading_zero_count_32 v ≡ n = omega arith in
    rw (bits, padded_bytes n (omega arith)) (omega arith, bytes_of_bits n v b)

-- For a word below 2^64, `max_padded_byte_cout` is the least number of bytes that hold it, and 8 at
-- most.
pub max_padded_byte_cout_64_lem :
    (v : ℕ)
    → v < 2 ^ 64
    → (max_padded_byte_cout_64 v ≤ 8) × IsByteCount (max_padded_byte_cout_64 v) v
unfolding max_padded_byte_cout_64 max_padded_bit_cout_64 max_bit_count_64
max_padded_byte_cout_64_lem v h =
    let (n, le, b, e) = leading_zero_count_64_lem v h in
    let bits : 64 - leading_zero_count_64 v ≡ n = omega arith in
    rw (bits, padded_bytes n (omega arith)) (omega arith, bytes_of_bits n v b)
