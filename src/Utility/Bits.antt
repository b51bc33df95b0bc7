-- ===== src/Utility/Bits.antt =====
-- The bit functions of solid/utility/common.hpp and solid/utility/src/utility.cpp. A machine word is a
-- number below `2 ^ w`; a cast to a narrower word is `% 2 ^ w`, a shift right a division.
pub mod Count
pub mod Leading
use solidframe.Prelude.{ℕ, ◌+◌, ◌-◌, ◌*◌, ◌/◌, ◌%◌, ◌^◌, bit_and, bit_or, List, [], ◌∷◌}
use solidframe.Prelude.Lists.{get_or}

-- The table inside `bit_count(uint8_t)`.
abbrev pub cnts : List ℕ
cnts =
    0 ∷ 1 ∷ 1 ∷ 2 ∷ 1 ∷ 2 ∷ 2 ∷ 3 ∷ 1 ∷ 2 ∷ 2 ∷ 3 ∷ 2 ∷ 3 ∷ 3 ∷ 4 ∷ 1 ∷ 2 ∷ 2 ∷ 3 ∷ 2 ∷ 3 ∷ 3 ∷ 4
    ∷ 2 ∷ 3 ∷ 3 ∷ 4 ∷ 3 ∷ 4 ∷ 4 ∷ 5 ∷ 1 ∷ 2 ∷ 2 ∷ 3 ∷ 2 ∷ 3 ∷ 3 ∷ 4 ∷ 2 ∷ 3 ∷ 3 ∷ 4 ∷ 3 ∷ 4 ∷ 4 ∷ 5
    ∷ 2 ∷ 3 ∷ 3 ∷ 4 ∷ 3 ∷ 4 ∷ 4 ∷ 5 ∷ 3 ∷ 4 ∷ 4 ∷ 5 ∷ 4 ∷ 5 ∷ 5 ∷ 6 ∷ 1 ∷ 2 ∷ 2 ∷ 3 ∷ 2 ∷ 3 ∷ 3 ∷ 4
    ∷ 2 ∷ 3 ∷ 3 ∷ 4 ∷ 3 ∷ 4 ∷ 4 ∷ 5 ∷ 2 ∷ 3 ∷ 3 ∷ 4 ∷ 3 ∷ 4 ∷ 4 ∷ 5 ∷ 3 ∷ 4 ∷ 4 ∷ 5 ∷ 4 ∷ 5 ∷ 5 ∷ 6
    ∷ 2 ∷ 3 ∷ 3 ∷ 4 ∷ 3 ∷ 4 ∷ 4 ∷ 5 ∷ 3 ∷ 4 ∷ 4 ∷ 5 ∷ 4 ∷ 5 ∷ 5 ∷ 6 ∷ 3 ∷ 4 ∷ 4 ∷ 5 ∷ 4 ∷ 5 ∷ 5 ∷ 6
    ∷ 4 ∷ 5 ∷ 5 ∷ 6 ∷ 5 ∷ 6 ∷ 6 ∷ 7 ∷ 1 ∷ 2 ∷ 2 ∷ 3 ∷ 2 ∷ 3 ∷ 3 ∷ 4 ∷ 2 ∷ 3 ∷ 3 ∷ 4 ∷ 3 ∷ 4 ∷ 4 ∷ 5
    ∷ 2 ∷ 3 ∷ 3 ∷ 4 ∷ 3 ∷ 4 ∷ 4 ∷ 5 ∷ 3 ∷ 4 ∷ 4 ∷ 5 ∷ 4 ∷ 5 ∷ 5 ∷ 6 ∷ 2 ∷ 3 ∷ 3 ∷ 4 ∷ 3 ∷ 4 ∷ 4 ∷ 5
    ∷ 3 ∷ 4 ∷ 4 ∷ 5 ∷ 4 ∷ 5 ∷ 5 ∷ 6 ∷ 3 ∷ 4 ∷ 4 ∷ 5 ∷ 4 ∷ 5 ∷ 5 ∷ 6 ∷ 4 ∷ 5 ∷ 5 ∷ 6 ∷ 5 ∷ 6 ∷ 6 ∷ 7
    ∷ 2 ∷ 3 ∷ 3 ∷ 4 ∷ 3 ∷ 4 ∷ 4 ∷ 5 ∷ 3 ∷ 4 ∷ 4 ∷ 5 ∷ 4 ∷ 5 ∷ 5 ∷ 6 ∷ 3 ∷ 4 ∷ 4 ∷ 5 ∷ 4 ∷ 5 ∷ 5 ∷ 6
    ∷ 4 ∷ 5 ∷ 5 ∷ 6 ∷ 5 ∷ 6 ∷ 6 ∷ 7 ∷ 3 ∷ 4 ∷ 4 ∷ 5 ∷ 4 ∷ 5 ∷ 5 ∷ 6 ∷ 4 ∷ 5 ∷ 5 ∷ 6 ∷ 5 ∷ 6 ∷ 6 ∷ 7
    ∷ 4 ∷ 5 ∷ 5 ∷ 6 ∷ 5 ∷ 6 ∷ 6 ∷ 7 ∷ 5 ∷ 6 ∷ 6 ∷ 7 ∷ 6 ∷ 7 ∷ 7 ∷ 8 ∷ []

unfoldable pub bit_count_8 : ℕ → ℕ
bit_count_8 v = get_or cnts v 0

unfoldable pub bit_count_16 : ℕ → ℕ
bit_count_16 v = bit_count_8 (bit_and v 0xff % 2 ^ 8) + bit_count_8 (v / 2 ^ 8 % 2 ^ 8)

unfoldable pub bit_count_32 : ℕ → ℕ
bit_count_32 v =
    bit_count_8 (bit_and v 0xff % 2 ^ 8)
    + bit_count_8 (bit_and (v / 2 ^ 8) 0xff % 2 ^ 8)
    + bit_count_8 (bit_and (v / 2 ^ 16) 0xff % 2 ^ 8)
    + bit_count_8 (bit_and (v / 2 ^ 24) 0xff % 2 ^ 8)

unfoldable pub bit_count_64 : ℕ → ℕ
bit_count_64 v = bit_count_32 (bit_and v 0xffff_ffff % 2 ^ 32) + bit_count_32 (v / 2 ^ 32 % 2 ^ 32)

-- `x = x | (x >> k)`.
unfoldable pub smear : ℕ → ℕ → ℕ
smear k x = bit_or x (x / 2 ^ k)

-- `~x` on a word of `w` bits.
abbrev pub complement : ℕ → ℕ → ℕ
complement w x = 2 ^ w - 1 - x

unfoldable pub leading_zero_count_64 : ℕ → ℕ
leading_zero_count_64 x =
    bit_count_64 (complement 64 (smear 32 (smear 16 (smear 8 (smear 4 (smear 2 (smear 1 x)))))))

unfoldable pub leading_zero_count_32 : ℕ → ℕ
leading_zero_count_32 x =
    bit_count_32 (complement 32 (smear 16 (smear 8 (smear 4 (smear 2 (smear 1 x))))))

unfoldable pub leading_zero_count_16 : ℕ → ℕ
leading_zero_count_16 x = bit_count_16 (complement 16 (smear 8 (smear 4 (smear 2 (smear 1 x)))))

unfoldable pub leading_zero_count_8 : ℕ → ℕ
leading_zero_count_8 x = bit_count_8 (complement 8 (smear 4 (smear 2 (smear 1 x))))
