-- ===== src/Mpipc/Packet/Laws.antt =====
-- The packet header of solid/frame/mpipc/src/mpipcutility.hpp: its stored form, its size and `isOk`.
use solidframe.Prelude.{
  ℕ, zero, suc, ◌+◌, ◌*◌, ◌/◌, ◌%◌, ◌^◌, ◌≤◌, ◌<◌, ◌≡◌, refl, bit_and, bit_or, true, none, some,
  List, [], ◌∷◌, ◌++◌, append_assoc, arith,
}
use solidframe.Prelude.Words.{
  bit_and_mask, bit_and_step, pow_step, bit_or_step, bit_or_high, zero-bit_or, bit_or-lt,
}
use solidframe.Serialization.BinaryBasic.{load_8, load_16}
use solidframe.Prelude.Lists.{length, length-append}
use native.Mathlib.Decide.{dec_lt}
use solidframe.Mpipc.Packet.{
  ValueCodec, serialization_v1, PacketHeader, size, set_size, set_flags, set_type, new_header,
  is_ok, store, load, max_packet_data_size, keep_alive_type,
}

pub record Fits (h : PacketHeader) : Type 0 where
  pub type_fits : h.type_ < 2 ^ 8
  pub flags_fit : h.flags_ < 2 ^ 8
  pub size_fits : h.size_ < 2 ^ 16

pub load-store :
    (codec : ValueCodec) (h : PacketHeader) (rest : List ℕ)
    → Fits h
    → load codec (store codec h ++ rest) ≡ some (h, rest)
unfolding load store
load-store codec h rest fits =
    rw
      (
        append_assoc (codec.store_value_8 h.type_)
            (codec.store_value_8 h.flags_ ++ codec.store_value_16 h.size_) rest,
        append_assoc (codec.store_value_8 h.flags_) (codec.store_value_16 h.size_) rest,
        codec.load-store_8 h.type_
            (codec.store_value_8 h.flags_ ++ (codec.store_value_16 h.size_ ++ rest)) fits.type_fits,
        codec.load-store_8 h.flags_ (codec.store_value_16 h.size_ ++ rest) fits.flags_fit,
        codec.load-store_16 h.size_ rest fits.size_fits,
      )
      refl

half_pow : (k : ℕ) → 2 ^ suc k / 2 ≡ 2 ^ k
half_pow k = omega (arith, pow_step k)

bit_and_below : (k x : ℕ) → x < 2 ^ k → bit_and x (2 ^ k) ≡ 0
bit_and_below zero zero h = refl
bit_and_below zero (suc x) h = absurd (omega arith)
bit_and_below (suc k) x h =
    rw (bit_and_step x (2 ^ suc k), half_pow k, bit_and_below k (x / 2) (omega (arith, pow_step k)))
      (omega (arith, pow_step k))

bit_and_top : (k x : ℕ) → 2 ^ k ≤ x → x < 2 ^ suc k → bit_and x (2 ^ k) ≡ 2 ^ k
bit_and_top zero zero l h = absurd (omega arith)
bit_and_top zero (suc zero) l h = refl
bit_and_top zero (suc (suc x)) l h = absurd (omega arith)
bit_and_top (suc k) x l h =
    rw
      (
        bit_and_step x (2 ^ suc k),
        half_pow k,
        bit_and_top k (x / 2) (omega (arith, pow_step k))
            (omega (arith, pow_step (suc k), pow_step k)),
      )
      (omega (arith, pow_step k))

-- The 17th bit of a size of 17 bits.
high_bit : (sz : ℕ) → sz < 2 ^ 17 → bit_and sz (2 ^ 16) / 2 ^ 16 ≡ sz / 2 ^ 16
high_bit sz h = elim (dec_lt sz (2 ^ 16)) [
  | yes p ↦ omega (arith, bit_and_below 16 sz p)
  | no p ↦ omega (arith, bit_and_top 16 sz (omega arith) h)
]

even_joined : (f b : ℕ) → f % 2 ≡ 0 → b < 2 → bit_and (bit_or f b) 1 ≡ b
even_joined f b e h = omega (arith, bit_and_mask 1 (bit_or f b), bit_or_step f b)

pub size-set_size :
    (sz : ℕ) (h : PacketHeader) → sz < 2 ^ 17 → h.flags_ % 2 ≡ 0 → size (set_size sz h) ≡ sz
unfolding size set_size
size-set_size sz h lt e =
    let b = sz / 2 ^ 16 in
    let b_lt : b < 2 = omega arith in
    let low : bit_and sz 0xffff ≡ sz % 2 ^ 16 = bit_and_mask 16 sz in
    let small : b * 2 ^ 16 % 2 ^ 32 ≡ b * 2 ^ 16 = omega arith in
    let plus : b * 2 ^ 16 ≡ b * 2 ^ 16 + 0 = omega arith in
    rw
      (
        high_bit sz lt,
        even_joined h.flags_ b e b_lt,
        low,
        small,
        plus,
        bit_or_high 16 b 0 (sz % 2 ^ 16) (omega arith) (omega arith),
        zero-bit_or (sz % 2 ^ 16),
      )
      (omega arith)

pub set_size-Fits :
    (t f sz : ℕ) (h : PacketHeader)
    → t < 2 ^ 8
    → f < 2 ^ 8
    → sz < 2 ^ 17
    → Fits (set_size sz (set_flags f (set_type t h)))
unfolding set_size
set_size-Fits t f sz h p q r = record {
  type_fits = p;
  flags_fit = bit_or-lt 8 f _ q (omega (arith, high_bit sz r));
  size_fits = omega (arith, bit_and_mask 16 sz);
}

is_ok_known :
    (h : PacketHeader)
    → 1 ≤ h.type_
    → h.type_ ≤ keep_alive_type
    → size h ≤ max_packet_data_size
    → is_ok h ≡ true
unfolding is_ok
is_ok_known h p q r = ground arith

pub length-store : (codec : ValueCodec) (h : PacketHeader) → length (store codec h) ≡ 4
unfolding store
length-store codec h = omega (
  arith,
  length-append (codec.store_value_8 h.type_)
      (codec.store_value_8 h.flags_ ++ codec.store_value_16 h.size_),
  length-append (codec.store_value_8 h.flags_) (codec.store_value_16 h.size_),
  codec.length-store_8 h.type_,
  codec.length-store_8 h.flags_,
  codec.length-store_16 h.size_,
)

pub set_size-type_ :
    (t f sz : ℕ) (h : PacketHeader) → (set_size sz (set_flags f (set_type t h))).type_ ≡ t
unfolding set_size
set_size-type_ t f sz h = refl

-- For every protocol whose stored values are read back: a header that is given one of the six types, then
-- flags of 8 bits without the flag for the size's 17th bit, then a size up to the largest packet, is read back
-- from its stored bytes as it was made, whatever bytes follow; it is accepted by `isOk`, and its size is the one
-- given. The constructor and `reset`, whose size has 16 bits, make the header with that size modulo 2 ^ 16.
pub set_size-RoundTrips :
    (codec : ValueCodec) (t f sz : ℕ) (before : PacketHeader) (rest : List ℕ)
    → 1 ≤ t
    → t ≤ keep_alive_type
    → f < 2 ^ 8
    → f % 2 ≡ 0
    → sz ≤ max_packet_data_size
    → let h = set_size sz (set_flags f (set_type t before)) in
      (load codec (store codec h ++ rest) ≡ some (h, rest))
      × (is_ok h ≡ true)
      × (size h ≡ sz)
      × (size (new_header t f sz before) ≡ sz % 2 ^ 16)
unfolding new_header
set_size-RoundTrips codec t f sz before rest p q flags even le =
    let h = set_size sz (set_flags f (set_type t before)) in
    let size_same : size h ≡ sz = size-set_size sz _ (omega arith) even in
    let type_same : h.type_ ≡ t = set_size-type_ t f sz before in
    (
      load-store codec h rest (set_size-Fits t f sz before (omega arith) flags (omega arith)),
      is_ok_known h (omega (arith, type_same)) (omega (arith, type_same))
          (omega (arith, size_same)),
      size_same,
      size-set_size (sz % 2 ^ 16) _ (omega arith) even,
    )

-- Fewer bytes than a header has.
pub load_short : (bs : List ℕ) → length bs ≤ 3 → load serialization_v1 bs ≡ none
unfolding load load_8 load_16
load_short [] h = refl
load_short (a ∷ []) h = refl
load_short (a ∷ b ∷ []) h = refl
load_short (a ∷ b ∷ c ∷ []) h = refl
load_short (a ∷ b ∷ c ∷ d ∷ bs) h = absurd (omega arith)
