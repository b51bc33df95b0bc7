-- ===== src/Serialization/Tests.antt =====
-- Runs of the formats of solid/serialization, and their theorems at concrete inputs.
use solidframe.Prelude.{◌≡◌, refl, some, [], ◌∷◌, arith}
use solidframe.Utility.Bits.{
  bit_count_8, bit_count_16, bit_count_32, bit_count_64, smear, leading_zero_count_16,
  leading_zero_count_64,
}
use solidframe.Utility.Padding.{
  fast_padded_size, max_bit_count_16, max_padded_bit_cout_16, max_padded_byte_cout_16,
  max_bit_count_64, max_padded_bit_cout_64, max_padded_byte_cout_64,
}
use solidframe.Utility.Crc.{compute_value_with_crc_8}
use solidframe.Serialization.BinaryBasic.{
  cross_store_sized, store_low_bytes, loaded, null, cross_store_16, cross_store_64, cross_size_64,
  cross_load_8, cross_load_16, cross_load_32, cross_load_64,
}
use solidframe.Serialization.BinaryBasic.Cross.RoundTrip.{
  RoundTrips, cross_64-RoundTrips, cross_load_narrower,
}

cross_64-RoundTrips_example : RoundTrips 300 (cross_store_64 300) (cross_size_64 300) cross_load_64
cross_64-RoundTrips_example = cross_64-RoundTrips 300 (omega arith)

-- 300 takes two bytes, lowest first, behind a byte that counts them and the ones of that count.
stored_300 : cross_store_64 300 ≡ some (0x11 ∷ 0x2c ∷ 0x01 ∷ [])
unfolding cross_store_64 cross_store_sized store_low_bytes compute_value_with_crc_8
    max_padded_byte_cout_64 max_padded_bit_cout_64 max_bit_count_64 fast_padded_size
    leading_zero_count_64 smear bit_count_64 bit_count_32 bit_count_8
stored_300 = refl

stored_300_from_16 : cross_store_16 300 ≡ some (0x11 ∷ 0x2c ∷ 0x01 ∷ [])
unfolding cross_store_16 cross_store_sized store_low_bytes compute_value_with_crc_8
    max_padded_byte_cout_16 max_padded_bit_cout_16 max_bit_count_16 fast_padded_size
    leading_zero_count_16 smear bit_count_16 bit_count_8
stored_300_from_16 = refl

cross_load_narrower_example :
    (cross_load_8 (0x11 ∷ 0x2c ∷ 0x01 ∷ 7 ∷ []) ≡ null)
    × (cross_load_16 (0x11 ∷ 0x2c ∷ 0x01 ∷ 7 ∷ []) ≡ loaded 300 (7 ∷ []))
    × (cross_load_32 (0x11 ∷ 0x2c ∷ 0x01 ∷ 7 ∷ []) ≡ loaded 300 (7 ∷ []))
cross_load_narrower_example =
    cross_load_narrower 300 (0x11 ∷ 0x2c ∷ 0x01 ∷ []) (7 ∷ []) (omega arith) stored_300
