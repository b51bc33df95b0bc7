-- ===== src/Serialization/BinaryBasic.antt =====
-- The integer formats of solid/serialization/binarybasic.hpp and src/binarybasic.cpp. A store yields the
-- bytes that it writes, from the pointer that it is given up to the one that it returns. A load reads
-- the bytes that are there, and yields the value with the bytes behind the returned pointer.
pub mod Fixed
pub mod Cross
use solidframe.Prelude.{
  ℕ, zero, suc, ◌+◌, ◌-◌, ◌*◌, ◌/◌, ◌%◌, ◌^◌, bit_and, bit_or, Option, none, some, List, [], ◌∷◌,
  ◌++◌, ltb, ◌==◌, if◌then◌else◌,
}
use solidframe.Utility.Crc.{compute_value_with_crc_8, check_value_with_crc_8}
use solidframe.Utility.Padding.{
  max_padded_byte_cout_8, max_padded_byte_cout_16, max_padded_byte_cout_32, max_padded_byte_cout_64,
}

-- `null` is the null pointer that a load returns on data that it refuses; `overrun` means that the
-- code reads behind the bytes that are there.
pub data Loaded : Type 0 where
  loaded : ℕ → List ℕ → Loaded
  null : Loaded
  overrun : Loaded

unfoldable pub store_8 : ℕ → List ℕ
store_8 val = val ∷ []

unfoldable pub store_16 : ℕ → List ℕ
store_16 val = bit_and (val / 2 ^ 8) 0xff ∷ bit_and val 0xff ∷ []

unfoldable pub store_32 : ℕ → List ℕ
store_32 val = store_16 (val / 2 ^ 16 % 2 ^ 16) ++ store_16 (bit_and val 0xffff % 2 ^ 16)

unfoldable pub store_64 : ℕ → List ℕ
store_64 val = store_32 (val / 2 ^ 32 % 2 ^ 32) ++ store_32 (bit_and val 0xffff_ffff % 2 ^ 32)

-- What a load does with the value and the rest that an earlier load left.
abbrev pub then_load : Loaded → (ℕ → List ℕ → Loaded) → Loaded
then_load (loaded v rest) f = f v rest
then_load null f = null
then_load overrun f = overrun

unfoldable pub load_8 : List ℕ → Loaded
load_8 [] = overrun
load_8 (b ∷ rest) = loaded b rest

-- `val <<= 8; val |= b` on a 16-bit word.
unfoldable pub load_16 : List ℕ → Loaded
load_16 ps =
    then_load (load_8 ps)
      λ hi more. then_load (load_8 more) λ lo rest. loaded (bit_or (hi * 2 ^ 8 % 2 ^ 16) lo) rest

unfoldable pub load_32 : List ℕ → Loaded
load_32 ps = then_load (load_16 ps) λ upper more.
    then_load (load_16 more) λ lower rest. loaded (bit_or (upper * 2 ^ 16 % 2 ^ 32) lower) rest

unfoldable pub load_64 : List ℕ → Loaded
load_64 ps = then_load (load_32 ps) λ upper more.
    then_load (load_32 more) λ lower rest. loaded (bit_or (upper * 2 ^ 32 % 2 ^ 64) lower) rest

-- `crossSize(const char*)`: the size of the stored form that begins with the byte `b`; `-1` as a
-- `size_t` if the byte fails its check.
unfoldable pub cross_size_stored : ℕ → ℕ
cross_size_stored b = elim (check_value_with_crc_8 b) [ none ↦ 2 ^ 64 - 1 | some v ↦ v + 1 ]

unfoldable pub cross_size_8 : ℕ → ℕ
cross_size_8 v = max_padded_byte_cout_8 v + 1

unfoldable pub cross_size_16 : ℕ → ℕ
cross_size_16 v = max_padded_byte_cout_16 v + 1

unfoldable pub cross_size_32 : ℕ → ℕ
cross_size_32 v = max_padded_byte_cout_32 v + 1

unfoldable pub cross_size_64 : ℕ → ℕ
cross_size_64 v = max_padded_byte_cout_64 v + 1

-- The cases of the `switch` over the byte count: `*pd = (v & 0xff); v >>= 8;` for each byte.
unfoldable pub store_low_bytes : ℕ → ℕ → List ℕ
store_low_bytes zero v = []
store_low_bytes (suc n) v = bit_and v 0xff ∷ store_low_bytes n (v / 2 ^ 8)

-- A store of `sz` bytes where the `switch` has a case for `limit` bytes at most.
unfoldable pub cross_store_sized : ℕ → ℕ → ℕ → Option (List ℕ)
cross_store_sized limit sz v = elim (compute_value_with_crc_8 (sz % 2 ^ 8)) [
  | none ↦ none
  | some head ↦ if ltb limit sz then none else some (head ∷ store_low_bytes sz v)
]

-- The byte has no `switch`: it is written as it is, if its count is not 0.
unfoldable pub cross_store_8 : ℕ → Option (List ℕ)
cross_store_8 v =
    let sz = max_padded_byte_cout_8 v in
    elim (compute_value_with_crc_8 (sz % 2 ^ 8)) [
      | none ↦ none
      | some head ↦ some (head ∷ (if sz == 0 then [] else v ∷ []))
    ]

unfoldable pub cross_store_16 : ℕ → Option (List ℕ)
cross_store_16 v = cross_store_sized 2 (max_padded_byte_cout_16 v) v

unfoldable pub cross_store_32 : ℕ → Option (List ℕ)
cross_store_32 v = cross_store_sized 4 (max_padded_byte_cout_32 v) v

unfoldable pub cross_store_64 : ℕ → Option (List ℕ)
cross_store_64 v = cross_store_sized 8 (max_padded_byte_cout_64 v) v

-- `_val |= static_cast<uintW_t>(*ps) << shift` for each of `n` more bytes, on a word of `w` bits.
unfoldable pub or_bytes : ℕ → ℕ → ℕ → ℕ → List ℕ → Loaded
or_bytes w zero shift acc ps = loaded acc ps
or_bytes w (suc n) shift acc [] = overrun
or_bytes w (suc n) shift acc (b ∷ ps) =
    or_bytes w n (shift + 8) (bit_or acc (b * 2 ^ shift % 2 ^ w)) ps

-- The cases of the `switch`: nothing for 0, the first byte for 1, and the others joined to it.
unfoldable pub load_low_bytes : ℕ → ℕ → List ℕ → Loaded
load_low_bytes w zero ps = loaded 0 ps
load_low_bytes w (suc n) [] = overrun
load_low_bytes w (suc n) (b ∷ ps) = or_bytes w n 8 b ps

-- `crossLoad` for a word of `w` bits, where the `switch` has a case for `limit` bytes at most.
unfoldable pub cross_load_sized : ℕ → ℕ → List ℕ → Loaded
cross_load_sized w limit [] = overrun
cross_load_sized w limit (b ∷ ps) = elim (check_value_with_crc_8 b) [
  | none ↦ null
  | some sz ↦ if ltb limit sz then null else load_low_bytes w sz ps
]

unfoldable pub cross_load_8 : List ℕ → Loaded
cross_load_8 ps = cross_load_sized 8 1 ps

unfoldable pub cross_load_16 : List ℕ → Loaded
cross_load_16 ps = cross_load_sized 16 2 ps

unfoldable pub cross_load_32 : List ℕ → Loaded
cross_load_32 ps = cross_load_sized 32 4 ps

unfoldable pub cross_load_64 : List ℕ → Loaded
cross_load_64 ps = cross_load_sized 64 8 ps
