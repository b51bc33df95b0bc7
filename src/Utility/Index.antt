-- ===== src/Utility/Index.antt =====
-- `InvalidIndex` and `InvalidSize` of solid/utility/common.hpp, for unsigned types of `w` bits.
use solidframe.Prelude.{ℕ, ◌-◌, ◌^◌, ◌<◌, ◌≡◌, ◌↔◌, Bool, true, not, ◌==◌, arith}
use solidframe.Prelude.Words.{pow_pos}

abbrev pub invalid_of_width : ℕ → ℕ
invalid_of_width w = 2 ^ w - 1

unfoldable pub is_invalid_index : ℕ → ℕ → Bool
is_invalid_index w i = i == invalid_of_width w

unfoldable pub is_valid_index : ℕ → ℕ → Bool
is_valid_index w i = not (i == invalid_of_width w)

unfoldable pub is_invalid_size : ℕ → ℕ → Bool
is_invalid_size w n = n == invalid_of_width w

unfoldable pub is_valid_size : ℕ → ℕ → Bool
is_valid_size w n = not (n == invalid_of_width w)

-- Of the numbers of the width, all but the greatest are valid.
pub is_valid_index_lem :
    (w i : ℕ) → i < 2 ^ w → (is_valid_index w i ≡ true) ↔ (i < invalid_of_width w)
unfolding is_valid_index
is_valid_index_lem w i h = ground (arith, pow_pos w)
