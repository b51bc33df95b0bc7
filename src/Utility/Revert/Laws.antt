-- ===== src/Utility/Revert/Laws.antt =====
-- `bit_revert`, `pack` and `unpack` of common.hpp, each against its inverse.
use solidframe.Prelude.{ℕ, ◌+◌, ◌*◌, ◌/◌, ◌%◌, ◌^◌, ◌<◌, ◌≡◌, refl, ◌∙◌, bit_or, arith}
use solidframe.Prelude.Words.{bit_and_mask, bit_or_high, zero-bit_or, pow_pos}
use solidframe.Prelude.Tables.{same_below, agree_below}
use solidframe.Utility.Revert.{reverted, bit_revert_32, pack, unpack}

reverted_twice : (b : ℕ) → b < 256 → reverted (reverted b) ≡ b
unfolding same_below reverted
reverted_twice = agree_below (λ b. reverted (reverted b)) (λ b. b) 256 refl

reverted-lt : (b : ℕ) → b < 256 → reverted b < 256
unfolding same_below reverted
reverted-lt b h =
    let e : reverted b / 256 ≡ 0 = agree_below (λ t. reverted t / 256) (λ _. 0) 256 refl b h in
    omega arith

-- Parts that lie below one another are joined by addition.
join_below : (k hi lo : ℕ) → lo < 2 ^ k → bit_or (hi * 2 ^ k) lo ≡ hi * 2 ^ k + lo
join_below k hi lo h =
    let plus : hi * 2 ^ k ≡ hi * 2 ^ k + 0 = omega arith in
    rw (plus, bit_or_high k hi 0 lo (pow_pos k) h, zero-bit_or lo) (omega arith)

abbrev word_32 : (a b c d : ℕ) → ℕ
word_32 a b c d = a * 2 ^ 24 + b * 2 ^ 16 + c * 2 ^ 8 + d

join_bytes :
    (a b c d : ℕ)
    → b < 256
    → c < 256
    → d < 256
    → bit_or (bit_or (bit_or (a * 2 ^ 24) (b * 2 ^ 16)) (c * 2 ^ 8)) d ≡ word_32 a b c d
join_bytes a b c d hb hc hd =
    let two : a * 2 ^ 24 + b * 2 ^ 16 ≡ (a * 2 ^ 8 + b) * 2 ^ 16 = omega arith in
    let three : (a * 2 ^ 8 + b) * 2 ^ 16 + c * 2 ^ 8 ≡ ((a * 2 ^ 8 + b) * 2 ^ 8 + c) * 2 ^ 8 =
      omega arith in
    rw
      (
        join_below 24 a (b * 2 ^ 16) (omega arith),
        two,
        join_below 16 (a * 2 ^ 8 + b) (c * 2 ^ 8) (omega arith),
        three,
        join_below 8 ((a * 2 ^ 8 + b) * 2 ^ 8 + c) d hd,
      )
      (omega arith)

bit_revert_32_lem :
    (v : ℕ)
    → bit_revert_32 v
      ≡ word_32
          (reverted (v % 2 ^ 8))
          (reverted (v / 2 ^ 8 % 2 ^ 8))
          (reverted (v / 2 ^ 16 % 2 ^ 8))
          (reverted (v / 2 ^ 24 % 2 ^ 8))
unfolding bit_revert_32
bit_revert_32_lem v =
    rw
      (
        bit_and_mask 8 v,
        bit_and_mask 8 (v / 2 ^ 8),
        bit_and_mask 8 (v / 2 ^ 16),
        bit_and_mask 8 (v / 2 ^ 24),
      )
      (join_bytes _ _ _ _ (reverted-lt _ (omega arith)) (reverted-lt _ (omega arith))
        (reverted-lt _ (omega arith)))

revert_word :
    (a b c d : ℕ)
    → a < 256
    → b < 256
    → c < 256
    → d < 256
    → bit_revert_32 (word_32 a b c d) ≡ word_32 (reverted d) (reverted c) (reverted b) (reverted a)
revert_word a b c d ha hb hc hd =
    let w = word_32 a b c d in
    let e0 : w % 2 ^ 8 ≡ d = omega arith in
    let e1 : w / 2 ^ 8 % 2 ^ 8 ≡ c = omega arith in
    let e2 : w / 2 ^ 16 % 2 ^ 8 ≡ b = omega arith in
    let e3 : w / 2 ^ 24 % 2 ^ 8 ≡ a = omega arith in rw bit_revert_32_lem (rw (e0, e1, e2, e3) refl)

-- Reverting the bits of a word below 2^32 twice gives the word back.
pub bit_revert_32_twice : (v : ℕ) → v < 2 ^ 32 → bit_revert_32 (bit_revert_32 v) ≡ v
bit_revert_32_twice v h =
    let small = λ (k : ℕ). reverted-lt (v / 2 ^ k % 2 ^ 8) (omega arith) in
    let twice = λ (k : ℕ). reverted_twice (v / 2 ^ k % 2 ^ 8) (omega arith) in
    rw (bit_revert_32_lem v) (
      revert_word _ _ _ _ (reverted-lt _ (omega arith)) (small 8) (small 16) (small 24)
      ∙ omega (arith, reverted_twice (v % 2 ^ 8) (omega arith), twice 8, twice 16, twice 24))

pack_lem : (v1 v2 : ℕ) → v1 < 2 ^ 16 → v2 < 2 ^ 16 → pack v1 v2 ≡ v2 * 2 ^ 16 + v1
unfolding pack
pack_lem v1 v2 h1 h2 =
    let small : v2 * 2 ^ 16 % 2 ^ 32 ≡ v2 * 2 ^ 16 = omega arith in
    rw small (join_below 16 v2 v1 h1)

unpack_lem : (w : ℕ) → w < 2 ^ 32 → unpack w ≡ (w % 2 ^ 16, w / 2 ^ 16)
unfolding unpack
unpack_lem w h =
    let high : w / 2 ^ 16 % 2 ^ 16 ≡ w / 2 ^ 16 = omega arith in
    rw (bit_and_mask 16 w, bit_and_mask 16 (w / 2 ^ 16), high) refl

-- Two numbers below 2^16 that are packed into one word are unpacked from it in the same order; and a word below
-- 2^32 is what its two unpacked halves are packed to.
pub unpack-pack :
    (v1 v2 w : ℕ)
    → v1 < 2 ^ 16
    → v2 < 2 ^ 16
    → w < 2 ^ 32
    → (unpack (pack v1 v2) ≡ (v1, v2)) × (pack (unpack w).0 (unpack w).1 ≡ w)
unpack-pack v1 v2 w h1 h2 hw =
    let low : (v2 * 2 ^ 16 + v1) % 2 ^ 16 ≡ v1 = omega arith in
    let high : (v2 * 2 ^ 16 + v1) / 2 ^ 16 ≡ v2 = omega arith in
    (
      rw (pack_lem v1 v2 h1 h2, unpack_lem (v2 * 2 ^ 16 + v1) (omega arith), low, high) refl,
      rw (unpack_lem w hw, pack_lem (w % 2 ^ 16) (w / 2 ^ 16) (omega arith) (omega arith))
          (omega arith),
    )
