-- ===== src/Utility/Crc/Laws.antt =====
-- `check_value_with_crc` against `compute_value_with_crc` of algorithm.hpp, on every width.
use solidframe.Prelude.{
  ℕ, ◌+◌, ◌-◌, ◌*◌, ◌/◌, ◌%◌, ◌^◌, ◌<◌, bit_and, bit_or, ◌≡◌, ◌∙◌, ◌↔◌, none, some, arith,
}
use solidframe.Prelude.Words.{bit_or-shifted, bit_and_mask}
use solidframe.Utility.Bits.{bit_count_8, bit_count_16, bit_count_32, bit_count_64}
use solidframe.Utility.Bits.Count.{
  ones-le_of_lt, bit_count_8_lem, bit_count_16_lem, bit_count_32_lem, bit_count_64_lem,
}
use solidframe.Utility.Crc.{
  compute_value_with_crc_8, check_value_with_crc_8, max_value_without_crc_8,
  compute_value_with_crc_16, check_value_with_crc_16, max_value_without_crc_16,
  compute_value_with_crc_32, check_value_with_crc_32, max_value_without_crc_32,
  compute_value_with_crc_64, check_value_with_crc_64, max_value_without_crc_64,
}

count_8 : (v : ℕ) → v < 2 ^ 5 → bit_count_8 v < 2 ^ 3
count_8 v h = rw (bit_count_8_lem v (omega arith)) (omega (arith, ones-le_of_lt 5 3 v h))

packed_8 :
    (v : ℕ) → v < 2 ^ 5 → bit_or (bit_count_8 v) (v * 2 ^ 3) % 2 ^ 8 ≡ bit_count_8 v + v * 2 ^ 3
packed_8 v h = rw (bit_or-shifted 3 (bit_count_8 v) v (count_8 v h)) (omega (arith, count_8 v h))

check-compute_8 :
    (v w : ℕ) → w < 2 ^ 8 → check_value_with_crc_8 w ≡ some v → compute_value_with_crc_8 v ≡ some w
unfolding compute_value_with_crc_8 check_value_with_crc_8
check-compute_8 v w h e = ground (arith, packed_8 v, bit_and_mask 3 w)

computed_8 :
    (v w : ℕ) → compute_value_with_crc_8 v ≡ some w → (v < 2 ^ 5) × (w ≡ bit_count_8 v + v * 2 ^ 3)
unfolding compute_value_with_crc_8
computed_8 v w e = ground (arith, packed_8 v)

pub compute-check_8 :
    (v w : ℕ) → compute_value_with_crc_8 v ≡ some w → check_value_with_crc_8 w ≡ some v
unfolding check_value_with_crc_8
compute-check_8 v w e =
    let (lt, sum) = computed_8 v w e in
    let high : w / 2 ^ 3 ≡ v = omega (arith, sum, count_8 v lt) in
    let low : bit_and w (2 ^ 3 - 1) ≡ bit_count_8 v =
      bit_and_mask 3 w ∙ omega (arith, sum, count_8 v lt) in
    rw (high, low) (ground arith)

-- A word below 2^8 passes `check_value_with_crc` with the value `v` exactly when
-- `compute_value_with_crc` gives that word for `v`.
pub check_value_with_crc_8_iff :
    (v w : ℕ)
    → w < 2 ^ 8
    → (check_value_with_crc_8 w ≡ some v) ↔ (compute_value_with_crc_8 v ≡ some w)
check_value_with_crc_8_iff v w h = (check-compute_8 v w h, compute-check_8 v w)

-- The computation is refused exactly above `max_value_without_crc`.
pub compute_value_with_crc_8-none :
    (v : ℕ) → (compute_value_with_crc_8 v ≡ none) ↔ (max_value_without_crc_8 < v)
unfolding compute_value_with_crc_8
compute_value_with_crc_8-none v = ground arith

count_16 : (v : ℕ) → v < 2 ^ 12 → bit_count_16 v < 2 ^ 4
count_16 v h = rw (bit_count_16_lem v) (omega (arith, ones-le_of_lt 12 4 v h))

packed_16 :
    (v : ℕ) → v < 2 ^ 12 → bit_or (bit_count_16 v) (v * 2 ^ 4) % 2 ^ 16 ≡ bit_count_16 v + v * 2 ^ 4
packed_16 v h =
    rw (bit_or-shifted 4 (bit_count_16 v) v (count_16 v h)) (omega (arith, count_16 v h))

check-compute_16 :
    (v w : ℕ)
    → w < 2 ^ 16
    → check_value_with_crc_16 w ≡ some v
    → compute_value_with_crc_16 v ≡ some w
unfolding compute_value_with_crc_16 check_value_with_crc_16
check-compute_16 v w h e = ground (arith, packed_16 v, bit_and_mask 4 w)

computed_16 :
    (v w : ℕ)
    → compute_value_with_crc_16 v ≡ some w
    → (v < 2 ^ 12) × (w ≡ bit_count_16 v + v * 2 ^ 4)
unfolding compute_value_with_crc_16
computed_16 v w e = ground (arith, packed_16 v)

compute-check_16 :
    (v w : ℕ) → compute_value_with_crc_16 v ≡ some w → check_value_with_crc_16 w ≡ some v
unfolding check_value_with_crc_16
compute-check_16 v w e =
    let (lt, sum) = computed_16 v w e in
    let high : w / 2 ^ 4 ≡ v = omega (arith, sum, count_16 v lt) in
    let low : bit_and w (2 ^ 4 - 1) ≡ bit_count_16 v =
      bit_and_mask 4 w ∙ omega (arith, sum, count_16 v lt) in
    rw (high, low) (ground arith)

-- A 16-bit word passes the check with the value `v` exactly when it is computed for `v`.
pub check_value_with_crc_16_iff :
    (v w : ℕ)
    → w < 2 ^ 16
    → (check_value_with_crc_16 w ≡ some v) ↔ (compute_value_with_crc_16 v ≡ some w)
check_value_with_crc_16_iff v w h = (check-compute_16 v w h, compute-check_16 v w)

-- The computation is refused exactly above `max_value_without_crc`.
pub compute_value_with_crc_16-none :
    (v : ℕ) → (compute_value_with_crc_16 v ≡ none) ↔ (max_value_without_crc_16 < v)
unfolding compute_value_with_crc_16
compute_value_with_crc_16-none v = ground arith

count_32 : (v : ℕ) → v < 2 ^ 27 → bit_count_32 v < 2 ^ 5
count_32 v h = rw (bit_count_32_lem v) (omega (arith, ones-le_of_lt 27 5 v h))

packed_32 :
    (v : ℕ) → v < 2 ^ 27 → bit_or (bit_count_32 v) (v * 2 ^ 5) % 2 ^ 32 ≡ bit_count_32 v + v * 2 ^ 5
packed_32 v h =
    rw (bit_or-shifted 5 (bit_count_32 v) v (count_32 v h)) (omega (arith, count_32 v h))

check-compute_32 :
    (v w : ℕ)
    → w < 2 ^ 32
    → check_value_with_crc_32 w ≡ some v
    → compute_value_with_crc_32 v ≡ some w
unfolding compute_value_with_crc_32 check_value_with_crc_32
check-compute_32 v w h e = ground (arith, packed_32 v, bit_and_mask 5 w)

computed_32 :
    (v w : ℕ)
    → compute_value_with_crc_32 v ≡ some w
    → (v < 2 ^ 27) × (w ≡ bit_count_32 v + v * 2 ^ 5)
unfolding compute_value_with_crc_32
computed_32 v w e = ground (arith, packed_32 v)

compute-check_32 :
    (v w : ℕ) → compute_value_with_crc_32 v ≡ some w → check_value_with_crc_32 w ≡ some v
unfolding check_value_with_crc_32
compute-check_32 v w e =
    let (lt, sum) = computed_32 v w e in
    let high : w / 2 ^ 5 ≡ v = omega (arith, sum, count_32 v lt) in
    let low : bit_and w (2 ^ 5 - 1) ≡ bit_count_32 v =
      bit_and_mask 5 w ∙ omega (arith, sum, count_32 v lt) in
    rw (high, low) (ground arith)

-- A 32-bit word passes the check with the value `v` exactly when it is computed for `v`.
pub check_value_with_crc_32_iff :
    (v w : ℕ)
    → w < 2 ^ 32
    → (check_value_with_crc_32 w ≡ some v) ↔ (compute_value_with_crc_32 v ≡ some w)
check_value_with_crc_32_iff v w h = (check-compute_32 v w h, compute-check_32 v w)

-- The computation is refused exactly above `max_value_without_crc`.
pub compute_value_with_crc_32-none :
    (v : ℕ) → (compute_value_with_crc_32 v ≡ none) ↔ (max_value_without_crc_32 < v)
unfolding compute_value_with_crc_32
compute_value_with_crc_32-none v = ground arith

count_64 : (v : ℕ) → v < 2 ^ 58 → bit_count_64 v < 2 ^ 6
count_64 v h = rw (bit_count_64_lem v) (omega (arith, ones-le_of_lt 58 6 v h))

packed_64 :
    (v : ℕ) → v < 2 ^ 58 → bit_or (bit_count_64 v) (v * 2 ^ 6) % 2 ^ 64 ≡ bit_count_64 v + v * 2 ^ 6
packed_64 v h =
    rw (bit_or-shifted 6 (bit_count_64 v) v (count_64 v h)) (omega (arith, count_64 v h))

check-compute_64 :
    (v w : ℕ)
    → w < 2 ^ 64
    → check_value_with_crc_64 w ≡ some v
    → compute_value_with_crc_64 v ≡ some w
unfolding compute_value_with_crc_64 check_value_with_crc_64
check-compute_64 v w h e = ground (arith, packed_64 v, bit_and_mask 6 w)

computed_64 :
    (v w : ℕ)
    → compute_value_with_crc_64 v ≡ some w
    → (v < 2 ^ 58) × (w ≡ bit_count_64 v + v * 2 ^ 6)
unfolding compute_value_with_crc_64
computed_64 v w e = ground (arith, packed_64 v)

compute-check_64 :
    (v w : ℕ) → compute_value_with_crc_64 v ≡ some w → check_value_with_crc_64 w ≡ some v
unfolding check_value_with_crc_64
compute-check_64 v w e =
    let (lt, sum) = computed_64 v w e in
    let high : w / 2 ^ 6 ≡ v = omega (arith, sum, count_64 v lt) in
    let low : bit_and w (2 ^ 6 - 1) ≡ bit_count_64 v =
      bit_and_mask 6 w ∙ omega (arith, sum, count_64 v lt) in
    rw (high, low) (ground arith)

-- A word below 2^64 passes `check_value_with_crc` with the value `v` exactly when
-- `compute_value_with_crc` gives that word for `v`.
pub check_value_with_crc_64_iff :
    (v w : ℕ)
    → w < 2 ^ 64
    → (check_value_with_crc_64 w ≡ some v) ↔ (compute_value_with_crc_64 v ≡ some w)
check_value_with_crc_64_iff v w h = (check-compute_64 v w h, compute-check_64 v w)

-- The computation is refused exactly above `max_value_without_crc`.
pub compute_value_with_crc_64-none :
    (v : ℕ) → (compute_value_with_crc_64 v ≡ none) ↔ (max_value_without_crc_64 < v)
unfolding compute_value_with_crc_64
compute_value_with_crc_64-none v = ground arith
