-- ===== src/Utility/Circular.antt =====
-- Comparison of counters that wrap around, of solid/utility/common.hpp.
use solidframe.Prelude.{
  ℕ, ◌+◌, ◌-◌, ◌/◌, ◌%◌, ◌^◌, ◌<◌, ◌≡◌, Bool, true, false, ltb, leb, if◌then◌else◌, ◌∙◌, arith,
}
use native.Mathlib.Nat.{mod-eq_of_lt, add-mod_right}
use native.Mathlib.Decide.{dec_le}

-- `0xffffffff/2` for 32 bits, `((uint64_t)-1)/2` for 64.
unfoldable pub overflow_safe_less_32 : ℕ → ℕ → Bool
overflow_safe_less_32 u1 u2 =
    if ltb u1 u2 then leb (u2 - u1) (0xffff_ffff / 2) else ltb (0xffff_ffff / 2) (u1 - u2)

unfoldable pub overflow_safe_less_64 : ℕ → ℕ → Bool
overflow_safe_less_64 u1 u2 =
    if ltb u1 u2 then leb (u2 - u1) ((2 ^ 64 - 1) / 2) else ltb ((2 ^ 64 - 1) / 2) (u1 - u2)

unfoldable pub overflow_safe_max_32 : ℕ → ℕ → ℕ
unfolding overflow_safe_less_32
overflow_safe_max_32 u1 u2 = if overflow_safe_less_32 u1 u2 then u2 else u1

unfoldable pub overflow_safe_max_64 : ℕ → ℕ → ℕ
unfolding overflow_safe_less_64
overflow_safe_max_64 u1 u2 = if overflow_safe_less_64 u1 u2 then u2 else u1

-- At the width of a `size_t`, for a pivot up to the maximum.
unfoldable pub circular_distance : ℕ → ℕ → ℕ → ℕ
circular_distance v piv max = if leb piv v then v - piv else (max - piv + v) % 2 ^ 64

-- A 32-bit counter that is `d` steps ahead, also across the wrap-around, with `d` positive and less than half of
-- the range, compares as the greater one, and not the other way round; it is the maximum of the two.
pub overflow_safe_less_32_ahead :
    (u d : ℕ)
    → u < 2 ^ 32
    → 0 < d
    → d < 2 ^ 31
    → (overflow_safe_less_32 u ((u + d) % 2 ^ 32) ≡ true)
      × (overflow_safe_less_32 ((u + d) % 2 ^ 32) u ≡ false)
      × (overflow_safe_max_32 u ((u + d) % 2 ^ 32) ≡ (u + d) % 2 ^ 32)
unfolding overflow_safe_less_32 overflow_safe_max_32
overflow_safe_less_32_ahead u d h p q = (ground arith, ground arith, ground arith)

-- A 64-bit counter that is `d` steps ahead, also across the wrap-around, with `d` positive and less than half of
-- the range, compares as the greater one, and not the other way round; it is the maximum of the two.
pub overflow_safe_less_64_ahead :
    (u d : ℕ)
    → u < 2 ^ 64
    → 0 < d
    → d < 2 ^ 63
    → (overflow_safe_less_64 u ((u + d) % 2 ^ 64) ≡ true)
      × (overflow_safe_less_64 ((u + d) % 2 ^ 64) u ≡ false)
      × (overflow_safe_max_64 u ((u + d) % 2 ^ 64) ≡ (u + d) % 2 ^ 64)
unfolding overflow_safe_less_64 overflow_safe_max_64
overflow_safe_less_64_ahead u d h p q = (ground arith, ground arith, ground arith)

-- For a pivot and a value below a maximum of 64 bits, `circular_distance` is the number of steps below the
-- maximum that lead from the pivot to the value, on the circle of the numbers below the maximum.
pub circular_distance_lem :
    (v piv max : ℕ)
    → v < max
    → piv < max
    → max < 2 ^ 64
    → (circular_distance v piv max < max) × ((piv + circular_distance v piv max) % max ≡ v)
unfolding circular_distance
circular_distance_lem v piv max h k lt = elim (dec_le piv v) [
  | yes le ↦
      let test : leb piv v ≡ true = ground arith in
      let sum : piv + (v - piv) ≡ v = omega arith in rw test (omega arith, rw sum (mod-eq_of_lt h))
  | no gt ↦
      let test : leb piv v ≡ false = ground arith in
      let whole : (max - piv + v) % 2 ^ 64 ≡ max - piv + v = mod-eq_of_lt (omega arith) in
      let sum : piv + (max - piv + v) ≡ v + max = omega arith in
      rw (test, whole) (omega arith, rw sum (add-mod_right v max ∙ mod-eq_of_lt h))
]
