-- ===== src/Prelude/Words.antt =====
-- Laws of `bit_or` and `bit_and` at variables, from the digits that the native operations stand for.
use Prim.Native.Nat.{
  ℕ, zero, suc, ◌+◌, ◌-◌, ◌*◌, ◌/◌, ◌%◌, ◌^◌, ◌≤◌, ◌<◌, min, max, bit_and, bit_or, digits,
  bit_and-bitwise, bit_or-bitwise,
}
use mathlib.Core.Path.{◌≡◌, refl, sym, ap, ◌∙◌}
use native.Mathlib.Omega.{arith}
use native.Mathlib.Decide.{dec_lt}
use native.Mathlib.Nat.{
  pow-succ', add-zero, add-suc, add-mul-mod_self_right, mod-eq_of_lt, mod-lt, div-add-mod', le_refl,
}

module _ (base : ℕ → ℕ) (join : ℕ → ℕ → ℕ) where
  no_digits : (fuel b : ℕ) → digits base join fuel 0 b ≡ base b
  no_digits zero b = refl
  no_digits (suc fuel) b = refl

  -- Fuel beyond the number itself does not matter.
  spare_fuel :
      (more fuel x b : ℕ)
      → x ≤ fuel
      → digits base join (more + fuel) x b ≡ digits base join fuel x b
  spare_fuel more fuel zero b le = no_digits (more + fuel) b ∙ sym (no_digits fuel b)
  spare_fuel more zero (suc x) b le = absurd (omega arith)
  spare_fuel more (suc fuel) (suc x) b le =
      rw (add-suc more fuel) (omega (arith, spare_fuel more fuel (suc x / 2) (b / 2) (omega arith)))

  own_fuel : (fuel x b : ℕ) → x ≤ fuel → digits base join fuel x b ≡ digits base join x x b
  own_fuel fuel x b le =
      let parts : fuel ≡ (fuel - x) + x = omega arith in
      ap (λ t. digits base join t x b) parts ∙ spare_fuel (fuel - x) x x b (le_refl _)

pub zero-bit_or : (b : ℕ) → bit_or 0 b ≡ b
zero-bit_or b = bit_or-bitwise 0 b

pub bit_or_step : (a b : ℕ) → bit_or a b ≡ bit_or (a / 2) (b / 2) * 2 + max (a % 2) (b % 2)
bit_or_step zero b = omega (arith, zero-bit_or b, zero-bit_or (b / 2))
bit_or_step (suc a) b = omega (
  arith,
  bit_or-bitwise (suc a) b,
  bit_or-bitwise (suc a / 2) (b / 2),
  own_fuel (λ t. t) max a (suc a / 2) (b / 2) (omega arith),
)

pub bit_and_step : (a b : ℕ) → bit_and a b ≡ bit_and (a / 2) (b / 2) * 2 + min (a % 2) (b % 2)
bit_and_step zero b = omega (arith, bit_and-bitwise 0 b, bit_and-bitwise 0 (b / 2))
bit_and_step (suc a) b = omega (
  arith,
  bit_and-bitwise (suc a) b,
  bit_and-bitwise (suc a / 2) (b / 2),
  own_fuel (λ t. 0) min a (suc a / 2) (b / 2) (omega arith),
)

pub pow_step : (k : ℕ) → 2 ^ suc k ≡ 2 * 2 ^ k
pow_step k = pow-succ' 2 k

double_half : (n : ℕ) → 2 * n / 2 ≡ n
double_half n = omega arith

shift_double : (b k : ℕ) → b * 2 ^ suc k ≡ 2 * (b * 2 ^ k)
shift_double b k = omega (arith, ap (λ (t : ℕ). b * t) (pow_step k))

-- Numbers with no common bit position are joined by addition.
pub bit_or-shifted : (k a b : ℕ) → a < 2 ^ k → bit_or a (b * 2 ^ k) ≡ a + b * 2 ^ k
bit_or-shifted zero zero b h = omega (arith, zero-bit_or (b * 2 ^ 0))
bit_or-shifted zero (suc a) b h = absurd (omega arith)
bit_or-shifted (suc k) a b h =
    rw (shift_double b k, bit_or_step a (2 * (b * 2 ^ k)), double_half (b * 2 ^ k))
      (omega (arith, bit_or-shifted k (a / 2) b (omega (arith, pow_step k))))

bit_and-zero : (n a : ℕ) → a ≤ n → bit_and a 0 ≡ 0
bit_and-zero zero zero h = refl
bit_and-zero zero (suc a) h = absurd (omega arith)
bit_and-zero (suc n) a h = elim (dec_lt 0 a) [
  | yes p ↦ omega (arith, bit_and_step a 0, bit_and-zero n (a / 2) (omega arith))
  | no p ↦ let e : a ≡ 0 = omega arith in rw e
]

pub mod_unique : (a q m r : ℕ) → a ≡ r + q * m → r < m → a % m ≡ r
mod_unique a q m r e h = rw e (add-mul-mod_self_right r q m ∙ mod-eq_of_lt h)

pub pow_pos : (k : ℕ) → 0 < 2 ^ k
pow_pos zero = omega arith
pow_pos (suc k) = omega (arith, pow_step k, pow_pos k)

pub mod_double : (a p : ℕ) → 0 < p → a % (2 * p) ≡ a / 2 % p * 2 + a % 2
mod_double a p h =
    mod_unique a (a / 2 / p) (2 * p) _ (omega (arith, div-add-mod' (a / 2) p))
      (omega (arith, mod-lt (a / 2) h))

pub bit_or-zero : (a n : ℕ) → a ≤ n → bit_or a 0 ≡ a
bit_or-zero zero n h = zero-bit_or 0
bit_or-zero (suc a) zero h = absurd (omega arith)
bit_or-zero (suc a) (suc n) h =
    omega (arith, bit_or_step (suc a) 0, bit_or-zero (suc a / 2) n (omega arith))

mask_half : (k : ℕ) → (2 ^ suc k - 1) / 2 ≡ 2 ^ k - 1
mask_half k = omega (arith, pow_step k)

-- A mask of `k` ones keeps the remainder by `2 ^ k`.
pub bit_and_mask : (k a : ℕ) → bit_and a (2 ^ k - 1) ≡ a % 2 ^ k
bit_and_mask zero a = omega (arith, bit_and-zero a a (omega arith))
bit_and_mask (suc k) a =
    rw (bit_and_step a (2 ^ suc k - 1), mask_half k, bit_and_mask k (a / 2))
      (rw (pow_step k, mod_double a (2 ^ k) (pow_pos k)) (omega (arith, pow_pos k)))

-- The low bits of the first operand are joined alone where the second is below them.
pub bit_or_high :
    (m h r y : ℕ) → r < 2 ^ m → y < 2 ^ m → bit_or (h * 2 ^ m + r) y ≡ h * 2 ^ m + bit_or r y
bit_or_high zero h zero zero p q = omega (arith, bit_or-zero (h * 1 + 0) _ (le_refl _))
bit_or_high zero h _ _ p q = absurd (omega arith)
bit_or_high (suc m) h r y p q =
    let split : (h * 2 ^ suc m + r) / 2 ≡ h * 2 ^ m + r / 2 = omega (arith, shift_double h m) in
    let parity : (h * 2 ^ suc m + r) % 2 ≡ r % 2 = omega (arith, shift_double h m) in
    rw (bit_or_step (h * 2 ^ suc m + r) y, bit_or_step r y, split, parity)
      (omega (
        arith,
        shift_double h m,
        bit_or_high m h (r / 2) (y / 2) (omega (arith, pow_step m)) (omega (arith, pow_step m)),
      ))

pub bit_or-lt : (n x y : ℕ) → x < 2 ^ n → y < 2 ^ n → bit_or x y < 2 ^ n
bit_or-lt zero zero zero p q = omega (arith, zero-bit_or 0)
bit_or-lt zero _ _ p q = absurd (omega arith)
bit_or-lt (suc n) x y p q = omega (
  arith,
  pow_step n,
  bit_or_step x y,
  bit_or-lt n (x / 2) (y / 2) (omega (arith, pow_step n)) (omega (arith, pow_step n)),
)

pub le-bit_or : (n x y : ℕ) → y < 2 ^ n → y ≤ bit_or x y
le-bit_or zero x y q = omega arith
le-bit_or (suc n) x y q =
    omega (arith, bit_or_step x y, le-bit_or n (x / 2) (y / 2) (omega (arith, pow_step n)))

pub pow-add : (m k : ℕ) → 2 ^ (m + k) ≡ 2 ^ m * 2 ^ k
pow-add m zero = rw add-zero (omega arith)
pow-add m (suc k) = rw (add-suc m k, pow_step (m + k), pow_step k, pow-add m k) (omega arith)
