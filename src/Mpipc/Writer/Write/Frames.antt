-- ===== src/Mpipc/Writer/Write/Frames.antt =====
-- `write` of mpipcmessagewriter.cpp: the bytes it leaves are a sequence of packets.
use solidframe.Prelude.{
  ℕ, ◌%◌, ◌^◌, ◌≤◌, ◌<◌, ◌≡◌, refl, Bool-cases, inl, inr, not, List, ◌==◌, arith,
}
use solidframe.Prelude.Lists.{length}
use solidframe.Mpipc.Packet.{
  switch_to_new_message_type, compressed_flag, max_packet_data_size, new_header, store,
}
use solidframe.Mpipc.Wire.{Frame, IsFrame, made-IsFrame}
use solidframe.Mpipc.Writer.Send.{PacketOptions}
use solidframe.Mpipc.Writer.Write.{
  Compression, compressed, unchanged, compress_failed, Closed, packet, refused, blank_header,
  close_with, close_compressed, close_packet,
}

-- A packet that is closed is a frame, no longer than the data it was made of.
pub data Packed (codec : solidframe.Mpipc.Packet.ValueCodec) (n : ℕ) : Closed → Type 0 where
  packed :
      (f : Frame) → IsFrame f → length f.content ≤ n → Packed codec n (packet f.header f.content)
  given_up : (e : ℕ) → Packed codec n (refused e)

module _ (codec : solidframe.Mpipc.Packet.ValueCodec) (options : PacketOptions)
    (low : 1 ≤ options.packet_type) (high : options.packet_type ≤ 5) where
  close_with-Packed :
      (flags n : ℕ) (content : List ℕ)
      → flags < 2 ^ 8
      → flags % 2 ≡ 0
      → 1 ≤ length content
      → length content ≤ n
      → n ≤ max_packet_data_size
      → Packed codec n (close_with flags options content)
  unfolding close_with new_header
  close_with-Packed flags n content small even some_data less fit =
      packed _
        (made-IsFrame codec options.packet_type flags
          (new_header switch_to_new_message_type 0 0 blank_header) content low high small even
          some_data (omega arith))
        less

  close_compressed-Packed :
      (c : Compression) (content : List ℕ)
      → ((content' : List ℕ) → c ≡ compressed content' → length content' ≤ length content)
      → 1 ≤ length content
      → length content ≤ max_packet_data_size
      → Packed codec (length content) (close_compressed c options content)
  unfolding close_compressed
  close_compressed-Packed (compressed content') content shrinks some_data fit =
      elim (Bool-cases (length content' == 0)) [
        | inl e ↦
            rw e (close_with-Packed 0 _ content (omega arith) refl some_data (omega arith) fit)
        | inr e ↦ rw e (
            close_with-Packed compressed_flag _ content' (omega arith) refl (ground arith)
              (shrinks content' refl) fit)
      ]
  close_compressed-Packed unchanged content shrinks some_data fit =
      close_with-Packed 0 _ content (omega arith) refl some_data (omega arith) fit
  close_compressed-Packed (compress_failed e) content shrinks some_data fit = given_up e

  pub close_packet-Packed :
      (compress : List ℕ → Compression) (content : List ℕ)
      → ((c c' : List ℕ) → compress c ≡ compressed c' → length c' ≤ length c)
      → 1 ≤ length content
      → length content ≤ max_packet_data_size
      → Packed codec (length content) (close_packet compress options content)
  unfolding close_packet
  close_packet-Packed compress content shrinks some_data fit =
      elim (Bool-cases (not options.force_no_compress)) [
        | inl e ↦
            rw e
              (close_compressed-Packed (compress content) content (shrinks content) some_data fit)
        | inr e ↦
            rw e (close_with-Packed 0 _ content (omega arith) refl some_data (omega arith) fit)
      ]
