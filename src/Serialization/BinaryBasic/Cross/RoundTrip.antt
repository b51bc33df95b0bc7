-- ===== src/Serialization/BinaryBasic/Cross/RoundTrip.antt =====
-- The cross format at each width: what a store writes, and what each load makes of it.
use solidframe.Prelude.{
  ℕ, ◌*◌, ◌^◌, ◌≤◌, ◌<◌, ◌≡◌, ◌∙◌, true, false, lt→ltb, not_lt→ltb, Option, some, List, ◌∷◌, ◌++◌,
  ltb, if◌then◌else◌, arith,
}
use solidframe.Prelude.Lists.{length}
use solidframe.Utility.Padding.Laws.{
  IsByteCount, max_padded_byte_cout_8_lem, max_padded_byte_cout_16_lem, max_padded_byte_cout_32_lem,
  max_padded_byte_cout_64_lem,
}
use solidframe.Utility.Padding.{
  max_padded_byte_cout_8, max_padded_byte_cout_16, max_padded_byte_cout_32, max_padded_byte_cout_64,
}
use solidframe.Serialization.BinaryBasic.{
  Loaded, loaded, null, cross_size_stored, cross_store_8, cross_store_16, cross_store_32,
  cross_store_64, cross_load_8, cross_load_16, cross_load_32, cross_load_64, cross_size_8,
  cross_size_16, cross_size_32, cross_size_64,
}
use solidframe.Serialization.BinaryBasic.Cross.{
  cross_store_8-Stored, cross_store_16-Stored, cross_store_32-Stored, cross_store_64-Stored,
}
use native.Mathlib.Nat.{pow-le-pow_right}
use native.Mathlib.Decide.{dec_lt}

-- A stored form: it is as long as the code says, before and after the store, and `load` reads the
-- value back and stops behind it.
abbrev pub RoundTrips : ℕ → Option (List ℕ) → ℕ → (List ℕ → Loaded) → Type 0
RoundTrips v stored size load =
    (head : ℕ) × (bytes : List ℕ) × (stored ≡ some (head ∷ bytes))
    × (length (head ∷ bytes) ≡ size)
    × (cross_size_stored head ≡ size)
    × ((rest : List ℕ) → load (head ∷ (bytes ++ rest)) ≡ loaded v rest)

-- Every word below 2^64 is stored by `crossStore`, on as many bytes as `crossSize` says of the word
-- and of the stored bytes, and `crossLoad` reads it back as it was, whatever bytes follow.
pub cross_64-RoundTrips :
    (v : ℕ) → v < 2 ^ 64 → RoundTrips v (cross_store_64 v) (cross_size_64 v) cross_load_64
unfolding cross_size_64 cross_load_64
cross_64-RoundTrips v h =
    let (head, bytes, e, len, size, loads) = cross_store_64-Stored v h in
    let le = (max_padded_byte_cout_64_lem v h).0 in
    let fits : ltb 8 (max_padded_byte_cout_64 v) ≡ false = ground arith in
    (head, bytes, e, omega (arith, len), size, λ rest. loads 64 8 rest (omega arith) ∙ rw fits)

-- Every 32-bit word is stored, on as many bytes as `crossSize` says of the word and of the bytes, and
-- read back as it was, whatever follows it.
pub cross_32-RoundTrips :
    (v : ℕ) → v < 2 ^ 32 → RoundTrips v (cross_store_32 v) (cross_size_32 v) cross_load_32
unfolding cross_size_32 cross_load_32
cross_32-RoundTrips v h =
    let (head, bytes, e, len, size, loads) = cross_store_32-Stored v h in
    let le = (max_padded_byte_cout_32_lem v h).0 in
    let fits : ltb 4 (max_padded_byte_cout_32 v) ≡ false = ground arith in
    (head, bytes, e, omega (arith, len), size, λ rest. loads 32 4 rest (omega arith) ∙ rw fits)

-- Every 16-bit word is stored, on as many bytes as `crossSize` says of the word and of the bytes, and
-- read back as it was, whatever follows it.
pub cross_16-RoundTrips :
    (v : ℕ) → v < 2 ^ 16 → RoundTrips v (cross_store_16 v) (cross_size_16 v) cross_load_16
unfolding cross_size_16 cross_load_16
cross_16-RoundTrips v h =
    let (head, bytes, e, len, size, loads) = cross_store_16-Stored v h in
    let le = (max_padded_byte_cout_16_lem v h).0 in
    let fits : ltb 2 (max_padded_byte_cout_16 v) ≡ false = ground arith in
    (head, bytes, e, omega (arith, len), size, λ rest. loads 16 2 rest (omega arith) ∙ rw fits)

-- Every 8-bit word is stored, on as many bytes as `crossSize` says of the word and of the bytes, and
-- read back as it was, whatever follows it.
pub cross_8-RoundTrips :
    (v : ℕ) → v < 2 ^ 8 → RoundTrips v (cross_store_8 v) (cross_size_8 v) cross_load_8
unfolding cross_size_8 cross_load_8
cross_8-RoundTrips v h =
    let (head, bytes, e, len, size, loads) = cross_store_8-Stored v h in
    let le = (max_padded_byte_cout_8_lem v h).0 in
    let fits : ltb 1 (max_padded_byte_cout_8 v) ≡ false = ground arith in
    (head, bytes, e, omega (arith, len), size, λ rest. loads 8 1 rest (omega arith) ∙ rw fits)

-- Fewer bytes than `v` needs are too few for it.
count_lt :
    (limit sz v : ℕ)
    → IsByteCount sz v
    → ltb limit sz ≡ (if ltb v (2 ^ (8 * limit)) then false else true)
count_lt limit sz v (enough, least) = elim (dec_lt v (2 ^ (8 * limit))) [
  | yes lt ↦
      let few : sz ≤ limit = least limit lt in rw (lt→ltb v (2 ^ (8 * limit)) lt) (ground arith)
  | no ge ↦
      let more : limit < sz = too_few (dec_lt limit sz) ge in
      let big : ltb v (2 ^ (8 * limit)) ≡ false = not_lt→ltb v (2 ^ (8 * limit)) ge in
      rw (big, lt→ltb limit sz more)
]
  where
    too_few : Dec (limit < sz) → ¬ (v < 2 ^ (8 * limit)) → limit < sz
    too_few (yes lt) ge = lt
    too_few (no le) ge = absurd (
        ge (
          omega (
            arith,
            enough,
            pow-le-pow_right {n = 2} (omega arith) {i = 8 * sz} {j = 8 * limit} (omega arith),
          )))

-- What `crossStore` gives for a word below 2^64 is read into 8, 16 or 32 bits as that word if it fits
-- there, and is refused with a null pointer otherwise, whatever bytes follow.
pub cross_load_narrower :
    (v : ℕ) (bytes rest : List ℕ)
    → v < 2 ^ 64
    → cross_store_64 v ≡ some bytes
    → (cross_load_8 (bytes ++ rest) ≡ (if ltb v (2 ^ 8) then loaded v rest else null))
      × (cross_load_16 (bytes ++ rest) ≡ (if ltb v (2 ^ 16) then loaded v rest else null))
      × (cross_load_32 (bytes ++ rest) ≡ (if ltb v (2 ^ 32) then loaded v rest else null))
unfolding cross_load_8 cross_load_16 cross_load_32
cross_load_narrower v bytes rest h e =
    let (head, more, e', len, size, loads) = cross_store_64-Stored v h in
    let count = (max_padded_byte_cout_64_lem v h).1 in
    let same : bytes ≡ head ∷ more = cc (e, e') in
    rw same (
      loads 8 1 rest (omega arith) ∙ rw (count_lt 1 _ v count) (ground arith),
      loads 16 2 rest (omega arith) ∙ rw (count_lt 2 _ v count) (ground arith),
      loads 32 4 rest (omega arith) ∙ rw (count_lt 4 _ v count) (ground arith),
    )

-- What `crossStore` gives for a word below 2^16 is read into 32 and into 64 bits as that word,
-- whatever bytes follow.
pub cross_load_wider :
    (v : ℕ) (bytes rest : List ℕ)
    → v < 2 ^ 16
    → cross_store_16 v ≡ some bytes
    → (cross_load_32 (bytes ++ rest) ≡ loaded v rest)
      × (cross_load_64 (bytes ++ rest) ≡ loaded v rest)
unfolding cross_load_32 cross_load_64
cross_load_wider v bytes rest h e =
    let (head, more, e', len, size, loads) = cross_store_16-Stored v h in
    let le = (max_padded_byte_cout_16_lem v h).0 in
    let same : bytes ≡ head ∷ more = cc (e, e') in
    let fits_32 : ltb 4 (max_padded_byte_cout_16 v) ≡ false = ground arith in
    let fits_64 : ltb 8 (max_padded_byte_cout_16 v) ≡ false = ground arith in
    rw same (loads 32 4 rest (omega arith) ∙ rw fits_32, loads 64 8 rest (omega arith) ∙ rw fits_64)
