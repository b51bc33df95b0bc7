-- ===== src/Mpipc/Writer/Write.antt =====
-- `write` of mpipcmessagewriter.cpp: packets are filled one after the other, while there is room and there is something
-- to send. The compression of `WriterConfiguration` is a function from the data of a packet.
pub mod Frames
pub mod Packets
pub mod Stream
use solidframe.Prelude.{
  ℕ, zero, suc, ◌+◌, ◌-◌, Bool, true, false, not, ◌&&◌, bit_or, Option, none, some, List, [], ◌∷◌,
  ◌++◌, ltb, leb, ◌==◌, if◌then◌else◌,
}
use solidframe.Prelude.Lists.{length}
use solidframe.Mpipc.Message.{MessageBundle, MessageId}
use solidframe.Mpipc.Packet.{
  PacketHeader, switch_to_new_message_type, keep_alive_type, compressed_flag, set_type, set_flags,
  set_size, new_header, store,
}
use solidframe.Mpipc.Protocol.{Context, MessageObject, Protocol}
use solidframe.Mpipc.Writer.{WriterConfiguration, MessageWriter}
use solidframe.Mpipc.Writer.Send.{
  Fill, Filled, filled, failed, undefined, out_of_fuel, PacketOptions, do_fill_packet,
}

-- What `inplace_compress_fnc` gives: the compressed data; nothing, with the data left as it was; or an error.
pub data Compression : Type 0 where
  compressed : List ℕ → Compression
  unchanged : Compression
  compress_failed : ℕ → Compression

-- The variables of `write`, with what it changes.
pub record Sent (S T : Type 0) : Type 0 where
  pub writer : MessageWriter S
  pub bytes : List ℕ
  pub ctx : Context
  pub owner : T
  pub rerror : Option ℕ

-- What `write` ends with. It does what is undefined, or an assertion of its own fails.
pub data Written (S T : Type 0) : Type 0 where
  written : Sent S T → Written S T
  undefined_write : Written S T
  write_out_of_fuel : Written S T

-- What a round of the loop of `write` does: it goes on, or the loop ends.
pub data Turn (S T : Type 0) : Type 0 where
  next : Sent S T → Turn S T
  last : Written S T → Turn S T

-- What is done with a packet: it is sent, in these bytes, or the loop ends with an error.
pub data Closed : Type 0 where
  packet : PacketHeader → List ℕ → Closed
  refused : ℕ → Closed

-- The memory of `packet_header` before its constructor, which writes every field.
abbrev pub blank_header : PacketHeader
blank_header = record { type_ = 0; flags_ = 0; size_ = 0 }

abbrev pub fresh_options : PacketOptions
fresh_options = record { packet_type = switch_to_new_message_type; force_no_compress = false }

-- `packet_header.type(...); packet_header.size(...);`
unfoldable pub close_with : ℕ → PacketOptions → List ℕ → Closed
close_with flags options content =
    packet
      (set_size (length content) (
        set_type options.packet_type
          (set_flags flags (new_header switch_to_new_message_type 0 0 blank_header))))
      content

unfoldable pub close_compressed : Compression → PacketOptions → List ℕ → Closed
close_compressed (compressed content') options content =
    if length content' == 0
    then close_with 0 options content
    else close_with compressed_flag options content'
close_compressed unchanged options content = close_with 0 options content
close_compressed (compress_failed e) options content = refused e

-- The packet of the data that `doFillPacket` wrote.
unfoldable pub close_packet : (List ℕ → Compression) → PacketOptions → List ℕ → Closed
close_packet compress options content =
    if not options.force_no_compress
    then close_compressed (compress content) options content
    else close_with 0 options content

module _ {S T : Type 0} (proto : Protocol S) (config : WriterConfiguration)
    (compress : List ℕ → Compression) (complete : MessageBundle → MessageId → T → Option ℕ × T)
    (objects : ℕ → MessageObject) (bufsz : ℕ) (fill_fuel : ℕ) where
  -- The state after `doFillPacket`, with the bytes of the packets before.
  abbrev pub carried : Sent S T → Fill S T → Sent S T
  carried r f = record r { writer = f.writer; ctx = f.ctx; owner = f.owner; rerror = f.rerror }

  -- `doFillPacket` behind the header of the next packet.
  unfoldable pub fill_next : Sent S T → Filled S T
  fill_next r =
      do_fill_packet proto config complete objects (bufsz - length r.bytes - 4) fill_fuel r.writer
        fresh_options r.ctx r.owner r.rerror

  -- The packet is behind those before. The source asserts that it has less than 0xffff bytes of data; where this
  -- fails, nothing is said of what follows.
  unfoldable pub put : Sent S T → Fill S T → Closed → Turn S T
  put r f (packet h content) =
      if ltb (length content) 0xffff
      then next (record (carried r f) { bytes = r.bytes ++ (store proto.codec h ++ content) })
      else last undefined_write
  put r f (refused e) = last (written (record (carried r f) { rerror = some e }))

  -- What follows `doFillPacket`. The null pointer of a failed serializer is used as the end of the data.
  unfoldable pub after_fill : Sent S T → Filled S T → Turn S T
  after_fill r out_of_fuel = last write_out_of_fuel
  after_fill r undefined = last undefined_write
  after_fill r (failed f) = last undefined_write
  after_fill r (filled f) =
      if length f.bytes == 0
      then last (written (carried r f))
      else put r f (close_packet compress f.options f.bytes)

  unfoldable pub write_round : Sent S T → Turn S T
  write_round r =
      if leb (4 + proto.minimum_free_packet_data_size) (bufsz - length r.bytes)
      then after_fill r (fill_next r)
      else last (written r)

  unfoldable pub write_loop : ℕ → Sent S T → Written S T
  write_loop zero r = write_out_of_fuel
  write_loop (suc fuel) r = elim (write_round r) [ next r' ↦ write_loop fuel r' | last x ↦ x ]

  -- A keep alive packet is written if there is nothing else.
  unfoldable pub keep_alive_after : Bool → Written S T → Written S T
  keep_alive_after keep_alive (written r) = elim r.rerror [
    | some e ↦ written r
    | none ↦
        if (length r.bytes == 0) && keep_alive
        then written
            (record r { bytes = store proto.codec (new_header keep_alive_type 0 0 blank_header) })
        else written r
  ]
  keep_alive_after keep_alive undefined_write = undefined_write
  keep_alive_after keep_alive write_out_of_fuel = write_out_of_fuel

  unfoldable pub write : ℕ → Bool → MessageWriter S → Context → T → Option ℕ → Written S T
  write fuel keep_alive w ctx owner rerror = keep_alive_after keep_alive (
      write_loop fuel
        (record { writer = w; bytes = []; ctx = ctx; owner = owner; rerror = rerror }))
