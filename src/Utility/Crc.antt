-- ===== src/Utility/Crc.antt =====
-- Values that carry the count of their ones: `compute_value_with_crc` and `check_value_with_crc` of
-- solid/utility/algorithm.hpp. The functions return a flag and write through a reference: `Option` is
-- the flag with the value written. A failing `check_value_with_crc` writes too, which no caller reads.
pub mod Laws
use solidframe.Prelude.{
  ℕ, ◌+◌, ◌-◌, ◌*◌, ◌/◌, ◌%◌, ◌^◌, bit_and, bit_or, Option, none, some, ltb, ◌==◌, if◌then◌else◌,
}
use solidframe.Utility.Bits.{bit_count_8, bit_count_16, bit_count_32, bit_count_64}

unfoldable pub compute_value_with_crc_64 : ℕ → Option ℕ
compute_value_with_crc_64 from =
    if ltb from (2 ^ 58) then some (bit_or (bit_count_64 from) (from * 2 ^ 6) % 2 ^ 64) else none

unfoldable pub check_value_with_crc_64 : ℕ → Option ℕ
check_value_with_crc_64 v =
    let to = v / 2 ^ 6 in if bit_count_64 to == bit_and v (2 ^ 6 - 1) then some to else none

abbrev pub max_value_without_crc_64 : ℕ
max_value_without_crc_64 = 2 ^ 58 - 1

unfoldable pub compute_value_with_crc_32 : ℕ → Option ℕ
compute_value_with_crc_32 from =
    if ltb from (2 ^ 27) then some (bit_or (bit_count_32 from) (from * 2 ^ 5) % 2 ^ 32) else none

unfoldable pub check_value_with_crc_32 : ℕ → Option ℕ
check_value_with_crc_32 v =
    let to = v / 2 ^ 5 in if bit_count_32 to == bit_and v (2 ^ 5 - 1) then some to else none

abbrev pub max_value_without_crc_32 : ℕ
max_value_without_crc_32 = 2 ^ 27 - 1

unfoldable pub compute_value_with_crc_16 : ℕ → Option ℕ
compute_value_with_crc_16 from =
    if ltb from (2 ^ 12) then some (bit_or (bit_count_16 from) (from * 2 ^ 4) % 2 ^ 16) else none

unfoldable pub check_value_with_crc_16 : ℕ → Option ℕ
check_value_with_crc_16 v =
    let to = v / 2 ^ 4 in if bit_count_16 to == bit_and v (2 ^ 4 - 1) then some to else none

abbrev pub max_value_without_crc_16 : ℕ
max_value_without_crc_16 = 2 ^ 12 - 1

unfoldable pub compute_value_with_crc_8 : ℕ → Option ℕ
compute_value_with_crc_8 from =
    if ltb from (2 ^ 5) then some (bit_or (bit_count_8 from) (from * 2 ^ 3) % 2 ^ 8) else none

unfoldable pub check_value_with_crc_8 : ℕ → Option ℕ
check_value_with_crc_8 v =
    let to = v / 2 ^ 3 in if bit_count_8 to == bit_and v (2 ^ 3 - 1) then some to else none

abbrev pub max_value_without_crc_8 : ℕ
max_value_without_crc_8 = 2 ^ 5 - 1
