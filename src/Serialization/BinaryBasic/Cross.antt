-- ===== src/Serialization/BinaryBasic/Cross.antt =====
-- The cross format of binarybasic.cpp: a checked byte that counts the bytes behind it, lowest first.
pub mod RoundTrip
use solidframe.Prelude.{
  ℕ, zero, suc, ◌+◌, ◌-◌, ◌*◌, ◌/◌, ◌%◌, ◌^◌, ◌≤◌, ◌<◌, bit_and, bit_or, ◌≡◌, refl, sym, ap, ◌∙◌,
  inl, inr, Option, none, some, List, [], ◌∷◌, ◌++◌, ltb, ◌==◌, if◌then◌else◌, Option-cases, lt→ltb,
  Bool, true, false, arith,
}
use solidframe.Prelude.Lists.{length}
use solidframe.Prelude.Words.{bit_and_mask, bit_or-shifted, pow_pos, pow-add}
use solidframe.Utility.Crc.{compute_value_with_crc_8, check_value_with_crc_8}
use solidframe.Utility.Crc.Laws.{compute-check_8, compute_value_with_crc_8-none}
use solidframe.Utility.Padding.Laws.{
  IsByteCount, max_padded_byte_cout_8_lem, max_padded_byte_cout_16_lem, max_padded_byte_cout_32_lem,
  max_padded_byte_cout_64_lem,
}
use solidframe.Serialization.BinaryBasic.{
  Loaded, loaded, null, store_low_bytes, or_bytes, load_low_bytes, cross_store_sized,
  cross_load_sized, cross_size_stored, cross_store_8, cross_store_16, cross_store_32,
  cross_store_64,
}
use solidframe.Utility.Padding.{
  max_padded_byte_cout_8, max_padded_byte_cout_16, max_padded_byte_cout_32, max_padded_byte_cout_64,
}
use native.Mathlib.Decide.{dec_lt}
use native.Mathlib.Nat.{pow-le-pow_right, mod-eq_of_lt, mul-le-mul_right}

length-store_low_bytes : (n v : ℕ) → length (store_low_bytes n v) ≡ n
unfolding store_low_bytes
length-store_low_bytes zero v = refl
length-store_low_bytes (suc n) v = ap suc (length-store_low_bytes n (v / 2 ^ 8))

-- One byte more, at the place `shift`.
or_byte :
    (w b shift acc : ℕ)
    → b < 2 ^ 8
    → acc < 2 ^ shift
    → shift + 8 ≤ w
    → (bit_or acc (b * 2 ^ shift % 2 ^ w) ≡ acc + b * 2 ^ shift)
      × (acc + b * 2 ^ shift < 2 ^ (shift + 8))
or_byte w b shift acc hb ha hw =
    let fits : b * 2 ^ shift + 2 ^ shift ≤ 2 ^ (shift + 8) =
      rw (pow-add shift 8) (omega (arith, mul-le-mul_right (2 ^ shift) hb)) in
    let below : b * 2 ^ shift < 2 ^ w = omega (
      arith,
      fits,
      pow_pos shift,
      pow-le-pow_right {n = 2} (omega arith) {i = shift + 8} {j = w} hw,
    ) in
    (rw (mod-eq_of_lt below) (bit_or-shifted shift acc b ha), omega (arith, fits))

bytes_left : (n u : ℕ) → u < 2 ^ (8 * suc n) → u / 2 ^ 8 < 2 ^ (8 * n)
bytes_left n u h =
    let e : 8 * suc n ≡ 8 * n + 8 = omega arith in
    let all : u < 2 ^ (8 * n) * 2 ^ 8 = rw (← pow-add (8 * n) 8, ← e) h in omega (arith, all)

-- A word is its low byte and the others, each in its place.
low_and_rest : (u b p acc : ℕ) → b ≡ u % 2 ^ 8 → acc + b * p + u / 2 ^ 8 * (p * 2 ^ 8) ≡ acc + u * p
low_and_rest u b p acc e =
    let split : u ≡ u / 2 ^ 8 * 2 ^ 8 + b = omega arith in
    omega (arith, ap (λ (t : ℕ). t * p) split)

or_bytes-store_low_bytes :
    (w n shift acc u : ℕ) (rest : List ℕ)
    → u < 2 ^ (8 * n)
    → acc < 2 ^ shift
    → shift + 8 * n ≤ w
    → or_bytes w n shift acc (store_low_bytes n u ++ rest) ≡ loaded (acc + u * 2 ^ shift) rest
unfolding or_bytes store_low_bytes
or_bytes-store_low_bytes w zero shift acc u rest hu ha hw =
    let e : u ≡ 0 = omega arith in
    ap (λ t. loaded t rest) (omega (arith, ap (λ (t : ℕ). t * 2 ^ shift) e))
or_bytes-store_low_bytes w (suc n) shift acc u rest hu ha hw =
    let b = bit_and u 0xff in
    let low : b ≡ u % 2 ^ 8 = bit_and_mask 8 u in
    let (joined, below) = or_byte w b shift acc (omega (arith, low)) ha (omega arith) in
    rw joined (
      or_bytes-store_low_bytes w n (shift + 8) _ (u / 2 ^ 8) rest (bytes_left n u hu) below
        (omega arith)
      ∙ ap (λ t. loaded t rest) (rw (pow-add shift 8) (low_and_rest u b (2 ^ shift) acc low)))

load_low_bytes-store_low_bytes :
    (w n u : ℕ) (rest : List ℕ)
    → u < 2 ^ (8 * n)
    → 8 * n ≤ w
    → load_low_bytes w n (store_low_bytes n u ++ rest) ≡ loaded u rest
unfolding load_low_bytes store_low_bytes
load_low_bytes-store_low_bytes w zero u rest hu hw = ap (λ t. loaded t rest) (omega arith)
load_low_bytes-store_low_bytes w (suc n) u rest hu hw =
    let b = bit_and u 0xff in
    let low : b ≡ u % 2 ^ 8 = bit_and_mask 8 u in
    or_bytes-store_low_bytes w n 8 b (u / 2 ^ 8) rest (bytes_left n u hu) (omega (arith, low))
      (omega arith)
    ∙ ap (λ t. loaded t rest) (omega (arith, low))

-- Stored on `sz` bytes, a word is read back into any word with room for as many bytes, and refused by
-- any with less.
abbrev pub Stored : ℕ → ℕ → Option (List ℕ) → Type 0
Stored sz v stored =
    (head : ℕ) × (bytes : List ℕ) × (stored ≡ some (head ∷ bytes))
    × (length bytes ≡ sz)
    × (cross_size_stored head ≡ sz + 1)
    × ((w limit : ℕ) (rest : List ℕ)
        → 8 * limit ≤ w
        → cross_load_sized w limit (head ∷ (bytes ++ rest))
          ≡ (if ltb limit sz then null else loaded v rest))

-- The first byte tells the size.
cross_size_stored_lem :
    (head sz : ℕ) → check_value_with_crc_8 head ≡ some sz → cross_size_stored head ≡ sz + 1
unfolding cross_size_stored
cross_size_stored_lem head sz e = rw (e, cross_size_stored)

load_stored :
    (head sz v w limit : ℕ) (rest : List ℕ)
    → check_value_with_crc_8 head ≡ some sz
    → v < 2 ^ (8 * sz)
    → 8 * limit ≤ w
    → cross_load_sized w limit (head ∷ (store_low_bytes sz v ++ rest))
      ≡ (if ltb limit sz then null else loaded v rest)
load_stored head sz v w limit rest e hv hw = elim (dec_lt limit sz) [
  | yes lt ↦ unfold cross_load_sized in rw (e, cross_load_sized) (rw (lt→ltb limit sz lt))
  | no ge ↦
      let fits : ltb limit sz ≡ false = ground arith in
      unfold cross_load_sized in
      rw (e, cross_load_sized)
        (rw fits (load_low_bytes-store_low_bytes w sz v rest hv (omega arith)))
]

cross_store_sized-Stored :
    (limit sz v : ℕ)
    → sz ≤ limit
    → limit ≤ 8
    → v < 2 ^ (8 * sz)
    → Stored sz v (cross_store_sized limit sz v)
unfolding cross_store_sized
cross_store_sized-Stored limit sz v h l hv =
    let fits : ltb limit sz ≡ false = ground arith in
    elim (Option-cases (compute_value_with_crc_8 (sz % 2 ^ 8))) [
      | inl refused ↦
          let large = (compute_value_with_crc_8-none (sz % 2 ^ 8)).0 refused in
          absurd (omega (arith, large))
      | inr (head, e) ↦
          let same : sz % 2 ^ 8 ≡ sz = omega arith in
          let check : check_value_with_crc_8 head ≡ some sz =
            compute-check_8 _ head e ∙ ap some same in
          (
            head,
            store_low_bytes sz v,
            rw (e, cross_store_sized) (rw fits),
            length-store_low_bytes sz v,
            cross_size_stored_lem head sz check,
            λ w limit' rest. load_stored head sz v w limit' rest check hv,
          )
    ]

pub cross_store_16-Stored :
    (v : ℕ) → v < 2 ^ 16 → Stored (max_padded_byte_cout_16 v) v (cross_store_16 v)
unfolding cross_store_16
cross_store_16-Stored v h =
    let (le, count) = max_padded_byte_cout_16_lem v h in
    cross_store_sized-Stored 2 (max_padded_byte_cout_16 v) v le (omega arith) count.0

pub cross_store_32-Stored :
    (v : ℕ) → v < 2 ^ 32 → Stored (max_padded_byte_cout_32 v) v (cross_store_32 v)
unfolding cross_store_32
cross_store_32-Stored v h =
    let (le, count) = max_padded_byte_cout_32_lem v h in
    cross_store_sized-Stored 4 (max_padded_byte_cout_32 v) v le (omega arith) count.0

pub cross_store_64-Stored :
    (v : ℕ) → v < 2 ^ 64 → Stored (max_padded_byte_cout_64 v) v (cross_store_64 v)
unfolding cross_store_64
cross_store_64-Stored v h =
    let (le, count) = max_padded_byte_cout_64_lem v h in
    cross_store_sized-Stored 8 (max_padded_byte_cout_64 v) v le (omega arith) count.0

cross_store_8_sized :
    (v sz : ℕ) → v < 2 ^ 8 → sz ≤ 1 → (if sz == 0 then [] else v ∷ []) ≡ store_low_bytes sz v
unfolding store_low_bytes
cross_store_8_sized v zero h le = refl
cross_store_8_sized v (suc zero) h le = ap (λ t. t ∷ []) (omega (arith, bit_and_mask 8 v))
cross_store_8_sized v (suc (suc n)) h le = absurd (omega arith)

pub cross_store_8-Stored :
    (v : ℕ) → v < 2 ^ 8 → Stored (max_padded_byte_cout_8 v) v (cross_store_8 v)
unfolding cross_store_8
cross_store_8-Stored v h =
    let (le, count) = max_padded_byte_cout_8_lem v h in
    let same : cross_store_8 v ≡ cross_store_sized 1 (max_padded_byte_cout_8 v) v =
      unfold cross_store_sized in
      ground (arith, cross_store_8_sized v (max_padded_byte_cout_8 v) h le) in
    rw same (cross_store_sized-Stored 1 (max_padded_byte_cout_8 v) v le (omega arith) count.0)
