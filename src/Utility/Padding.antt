-- ===== src/Utility/Padding.antt =====
-- Padded sizes and the byte count of a word: `padded_size` and `fast_padded_size` of
-- solid/utility/common.hpp, `max_bit_count` and the functions after it of solid/utility/algorithm.hpp.
-- `size_t` has 64 bits. The source spells `cout` for count.
pub mod Laws
use solidframe.Prelude.{ℕ, ◌+◌, ◌-◌, ◌/◌, ◌%◌, ◌^◌, bit_and}
use solidframe.Utility.Bits.{
  leading_zero_count_8, leading_zero_count_16, leading_zero_count_32, leading_zero_count_64,
}

unfoldable pub padded_size : ℕ → ℕ → ℕ
padded_size sz pad = (sz + (pad - sz % pad) % pad) % 2 ^ 64

-- `padv` is `1 << bitpad`, which the source computes on `int`, so `bitpad` is below 31.
unfoldable pub fast_padded_size : ℕ → ℕ → ℕ
fast_padded_size sz bitpad =
    let padv = 2 ^ bitpad in
    let padmsk = padv - 1 in
    let pad = bit_and (padv - bit_and sz padmsk) padmsk in (sz + pad) % 2 ^ 64

unfoldable pub max_bit_count_8 : ℕ → ℕ
max_bit_count_8 v = 8 - leading_zero_count_8 v

unfoldable pub max_padded_bit_cout_8 : ℕ → ℕ
max_padded_bit_cout_8 v = fast_padded_size (max_bit_count_8 v) 3

unfoldable pub max_padded_byte_cout_8 : ℕ → ℕ
max_padded_byte_cout_8 v = max_padded_bit_cout_8 v / 2 ^ 3

unfoldable pub max_bit_count_16 : ℕ → ℕ
max_bit_count_16 v = 16 - leading_zero_count_16 v

unfoldable pub max_padded_bit_cout_16 : ℕ → ℕ
max_padded_bit_cout_16 v = fast_padded_size (max_bit_count_16 v) 3

unfoldable pub max_padded_byte_cout_16 : ℕ → ℕ
max_padded_byte_cout_16 v = max_padded_bit_cout_16 v / 2 ^ 3

unfoldable pub max_bit_count_32 : ℕ → ℕ
max_bit_count_32 v = 32 - leading_zero_count_32 v

unfoldable pub max_padded_bit_cout_32 : ℕ → ℕ
max_padded_bit_cout_32 v = fast_padded_size (max_bit_count_32 v) 3

unfoldable pub max_padded_byte_cout_32 : ℕ → ℕ
max_padded_byte_cout_32 v = max_padded_bit_cout_32 v / 2 ^ 3

unfoldable pub max_bit_count_64 : ℕ → ℕ
max_bit_count_64 v = 64 - leading_zero_count_64 v

unfoldable pub max_padded_bit_cout_64 : ℕ → ℕ
max_padded_bit_cout_64 v = fast_padded_size (max_bit_count_64 v) 3

unfoldable pub max_padded_byte_cout_64 : ℕ → ℕ
max_padded_byte_cout_64 v = max_padded_bit_cout_64 v / 2 ^ 3
