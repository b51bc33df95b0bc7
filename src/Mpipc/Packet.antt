-- ===== src/Mpipc/Packet.antt =====
-- `PacketHeader` of solid/frame/mpipc/src/mpipcutility.hpp, with `isOk` of src/mpipcprotocol.cpp. How a
-- protocol stores a value is its own: `ValueCodec` has the part of `Protocol` of mpipcprotocol.hpp that the
-- header uses, with what the header relies on; `serialization_v1` is the protocol of
-- mpipcprotocol_serialization_v1.hpp.
pub mod Laws
use solidframe.Prelude.{
  ℕ, ◌+◌, ◌*◌, ◌/◌, ◌%◌, ◌^◌, ◌<◌, ◌≡◌, refl, ap, bit_and, bit_or, Bool, true, false, not, ◌&&◌,
  ◌||◌, Option, none, some, List, [], ◌∷◌, ◌++◌, sym, arith, leb, ◌==◌,
}
use solidframe.Prelude.Lists.{length}
use solidframe.Serialization.BinaryBasic.{
  Loaded, loaded, null, overrun, store_8, store_16, load_8, load_16,
}
use solidframe.Serialization.BinaryBasic.Fixed.{load_16-store_16}

pub record ValueCodec : Type 0 where
  pub store_value_8 : ℕ → List ℕ
  pub store_value_16 : ℕ → List ℕ
  pub load_value_8 : List ℕ → Loaded
  pub load_value_16 : List ℕ → Loaded
  pub length-store_8 : (v : ℕ) → length (store_value_8 v) ≡ 1
  pub length-store_16 : (v : ℕ) → length (store_value_16 v) ≡ 2
  pub load-store_8 :
      (v : ℕ) (rest : List ℕ) → v < 2 ^ 8 → load_value_8 (store_value_8 v ++ rest) ≡ loaded v rest
  pub load-store_16 :
      (v : ℕ) (rest : List ℕ)
      → v < 2 ^ 16
      → load_value_16 (store_value_16 v ++ rest) ≡ loaded v rest
  pub length-load_8 :
      (ps rest : List ℕ) (v : ℕ) → load_value_8 ps ≡ loaded v rest → length ps ≡ length rest + 1

pub load_8-store_8 :
    (v : ℕ) (rest : List ℕ) → v < 2 ^ 8 → load_8 (store_8 v ++ rest) ≡ loaded v rest
unfolding load_8 store_8
load_8-store_8 v rest h = refl

pub length-store_value_8 : (v : ℕ) → length (store_8 v) ≡ 1
unfolding store_8
length-store_value_8 v = refl

pub length-store_value_16 : (v : ℕ) → length (store_16 v) ≡ 2
unfolding store_16
length-store_value_16 v = refl

-- The bytes after what was loaded, and none if nothing was.
loaded_rest : Loaded → List ℕ
loaded_rest (loaded v rest) = rest
loaded_rest null = []
loaded_rest overrun = []

is_loaded : Loaded → Bool
is_loaded (loaded v rest) = true
is_loaded null = false
is_loaded overrun = false

pub length-load_value_8 :
    (ps rest : List ℕ) (v : ℕ) → load_8 ps ≡ loaded v rest → length ps ≡ length rest + 1
unfolding load_8 loaded_rest is_loaded
length-load_value_8 [] rest v e = grind arith
length-load_value_8 (b ∷ ps) rest v e = omega (arith, ap length (ap loaded_rest e))

abbrev pub serialization_v1 : ValueCodec
serialization_v1 = record {
  store_value_8 = store_8;
  store_value_16 = store_16;
  load_value_8 = load_8;
  load_value_16 = load_16;
  length-store_8 = length-store_value_8;
  length-store_16 = length-store_value_16;
  load-store_8 = load_8-store_8;
  load-store_16 = load_16-store_16;
  length-load_8 = length-load_value_8;
}

-- `type_` and `flags_` have 8 bits, `size_` has 16.
pub record PacketHeader : Type 0 where
  pub type_ : ℕ
  pub flags_ : ℕ
  pub size_ : ℕ

abbrev pub switch_to_new_message_type : ℕ
switch_to_new_message_type = 1

abbrev pub switch_to_old_message_type : ℕ
switch_to_old_message_type = 2

abbrev pub continued_message_type : ℕ
continued_message_type = 3

abbrev pub switch_to_old_canceled_message_type : ℕ
switch_to_old_canceled_message_type = 4

abbrev pub continued_canceled_message_type : ℕ
continued_canceled_message_type = 5

abbrev pub keep_alive_type : ℕ
keep_alive_type = 6

abbrev pub size_64kb_flag : ℕ
size_64kb_flag = 1

abbrev pub compressed_flag : ℕ
compressed_flag = 2

abbrev pub max_packet_data_size : ℕ
max_packet_data_size = 1024 * 64

unfoldable pub size : PacketHeader → ℕ
size h = bit_or (bit_and h.flags_ size_64kb_flag * 2 ^ 16 % 2 ^ 32) h.size_

abbrev pub set_type : ℕ → PacketHeader → PacketHeader
set_type t h = record h { type_ = t }

abbrev pub set_flags : ℕ → PacketHeader → PacketHeader
set_flags f h = record h { flags_ = f }

-- The size's 17th bit is joined to the flags.
unfoldable pub set_size : ℕ → PacketHeader → PacketHeader
set_size sz h = record h {
  size_ = bit_and sz 0xffff;
  flags_ = bit_or h.flags_ (bit_and sz (2 ^ 16) / 2 ^ 16);
}

-- `PacketHeader(_type, _flags, _size)` and `reset`, whose size is a `uint16_t`; the constructor's fields are not
-- initialised before.
unfoldable pub new_header : ℕ → ℕ → ℕ → PacketHeader → PacketHeader
new_header t f sz h = set_size (sz % 2 ^ 16) (set_flags f (set_type t h))

abbrev pub is_type_keep_alive : PacketHeader → Bool
is_type_keep_alive h = h.type_ == keep_alive_type

abbrev pub is_compressed : PacketHeader → Bool
is_compressed h = not (bit_and h.flags_ compressed_flag == 0)

unfoldable pub is_ok : PacketHeader → Bool
is_ok h =
    (h.type_ == switch_to_new_message_type
      || h.type_ == switch_to_old_message_type
      || h.type_ == continued_message_type
      || h.type_ == switch_to_old_canceled_message_type
      || h.type_ == continued_canceled_message_type
      || h.type_ == keep_alive_type)
    && leb (size h) max_packet_data_size

unfoldable pub store : ValueCodec → PacketHeader → List ℕ
store codec h =
    codec.store_value_8 h.type_ ++ (codec.store_value_8 h.flags_ ++ codec.store_value_16 h.size_)

-- What is done with a value that was read, and with the bytes after it. `none` is a read behind the bytes.
abbrev pub with_value :
    Loaded → (ℕ → List ℕ → Option (PacketHeader × List ℕ)) → Option (PacketHeader × List ℕ)
with_value (loaded v rest) f = f v rest
with_value null f = none
with_value overrun f = none

unfoldable pub load : ValueCodec → List ℕ → Option (PacketHeader × List ℕ)
load codec ps = with_value (codec.load_value_8 ps) λ t ps1.
    with_value (codec.load_value_8 ps1) λ f ps2.
      with_value (codec.load_value_16 ps2)
        λ sz rest. some (record { type_ = t; flags_ = f; size_ = sz }, rest)
