-- ===== src/Serialization/BinaryBasic/Fixed.antt =====
-- `store` and `load` of binarybasic.hpp, the integers of fixed size.
use solidframe.Prelude.{
  ℕ, ◌+◌, ◌*◌, ◌/◌, ◌%◌, ◌^◌, ◌<◌, bit_and, bit_or, ◌≡◌, sym, ap, ◌∙◌, List, ◌∷◌, ◌++◌,
  append_assoc, arith,
}
use solidframe.Prelude.Words.{bit_and_mask, bit_or_high, zero-bit_or, pow_pos}
use solidframe.Serialization.BinaryBasic.{
  loaded, store_16, store_32, store_64, load_8, load_16, load_32, load_64,
}

-- A word is put together from its high part, shifted, and its low part.
join_parts : (k hi lo : ℕ) → lo < 2 ^ k → bit_or (hi * 2 ^ k) lo ≡ hi * 2 ^ k + lo
join_parts k hi lo h =
    let e : hi * 2 ^ k + 0 ≡ hi * 2 ^ k = omega arith in
    ap (λ (t : ℕ). bit_or t lo) (sym e)
    ∙ bit_or_high k hi 0 lo (pow_pos k) h
    ∙ ap (◌+◌ (hi * 2 ^ k)) (zero-bit_or lo)

-- A byte pair, highest first.
load_pair :
    (hi lo : ℕ) (rest : List ℕ)
    → hi < 2 ^ 8
    → lo < 2 ^ 8
    → load_16 (hi ∷ lo ∷ rest) ≡ loaded (hi * 2 ^ 8 + lo) rest
unfolding load_16 load_8
load_pair hi lo rest p q =
    let small : hi * 2 ^ 8 % 2 ^ 16 ≡ hi * 2 ^ 8 = omega arith in rw (small, join_parts 8 hi lo q)

pub load_16-store_16 :
    (v : ℕ) (rest : List ℕ) → v < 2 ^ 16 → load_16 (store_16 v ++ rest) ≡ loaded v rest
unfolding store_16
load_16-store_16 v rest h =
    rw (bit_and_mask 8 (v / 2 ^ 8), bit_and_mask 8 v)
      (load_pair _ _ rest (omega arith) (omega arith) ∙ ap (λ t. loaded t rest) (omega arith))

pub load_32-store_32 :
    (v : ℕ) (rest : List ℕ) → v < 2 ^ 32 → load_32 (store_32 v ++ rest) ≡ loaded v rest
unfolding load_32 store_32
load_32-store_32 v rest h =
    let hi = v / 2 ^ 16 % 2 ^ 16 in
    let lo = bit_and v 0xffff % 2 ^ 16 in
    let lo_eq : lo ≡ v % 2 ^ 16 = omega (arith, bit_and_mask 16 v) in
    let small : hi * 2 ^ 16 % 2 ^ 32 ≡ hi * 2 ^ 16 = omega arith in
    rw
      (
        append_assoc (store_16 hi) (store_16 lo) rest,
        load_16-store_16 hi (store_16 lo ++ rest) (omega arith),
        load_16-store_16 lo rest (omega arith),
        small,
        join_parts 16 hi lo (omega arith),
      )
      (ap (λ t. loaded t rest) (omega (arith, lo_eq)))

-- A word below 2^64 that `store` wrote is read back by `load` as it was, whatever bytes follow.
pub load_64-store_64 :
    (v : ℕ) (rest : List ℕ) → v < 2 ^ 64 → load_64 (store_64 v ++ rest) ≡ loaded v rest
unfolding load_64 store_64
load_64-store_64 v rest h =
    let hi = v / 2 ^ 32 % 2 ^ 32 in
    let lo = bit_and v 0xffff_ffff % 2 ^ 32 in
    let lo_eq : lo ≡ v % 2 ^ 32 = omega (arith, bit_and_mask 32 v) in
    let small : hi * 2 ^ 32 % 2 ^ 64 ≡ hi * 2 ^ 32 = omega arith in
    rw
      (
        append_assoc (store_32 hi) (store_32 lo) rest,
        load_32-store_32 hi (store_32 lo ++ rest) (omega arith),
        load_32-store_32 lo rest (omega arith),
        small,
        join_parts 32 hi lo (omega arith),
      )
      (ap (λ t. loaded t rest) (omega (arith, lo_eq)))
