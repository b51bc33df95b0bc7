-- ===== src/Mpipc/Writer/Write/Stream.antt =====
-- `write` of mpipcmessagewriter.cpp: what it leaves.
use solidframe.Prelude.{
  ℕ, ◌+◌, ◌*◌, ◌≤◌, ◌<◌, ◌≡◌, refl, Bool, true, Bool-cases, Option-cases, inl, inr, ◌&&◌, Option,
  none, List, [], ◌==◌, arith,
}
use solidframe.Prelude.Lists.{length}
use solidframe.Mpipc.Message.{MessageBundle, MessageId}
use solidframe.Mpipc.Packet.{max_packet_data_size, store, new_header, keep_alive_type}
use solidframe.Mpipc.Protocol.{Context, MessageObject, Protocol}
use solidframe.Mpipc.Wire.{Frame, wire, AllFrames}
use solidframe.Mpipc.Writer.{WriterConfiguration, MessageWriter}
use solidframe.Mpipc.Writer.Send.Measured.{Working}
use solidframe.Mpipc.Writer.Send.Rounds.{Ready}
use solidframe.Mpipc.Writer.Write.{
  Compression, compressed, keep_alive_after, write, Sent, Written, written, undefined_write,
  blank_header,
}
use solidframe.Mpipc.Writer.Write.Packets.{
  Done, MayBreak, Sends, sends, breaks_off, write_loop-Sends,
}

module _ {S T : Type 0} (proto : Protocol S) (config : WriterConfiguration)
    (compress : List ℕ → Compression) (complete : MessageBundle → MessageId → T → Option ℕ × T)
    (objects : ℕ → MessageObject) (bufsz fill_fuel n : ℕ) (small : bufsz ≤ max_packet_data_size + 4)
    (shrinks : (c c' : List ℕ) → compress c ≡ compressed c' → length c' ≤ length c)
    (enough : (bufsz + n) * (n + 1) + n < fill_fuel) where
  -- What `write` leaves: packets, within the buffer, and a writer that is fit for the next call; or, if it is
  -- asked for that, the keep alive packet; or, if it may, the code does what is undefined or fails its assertion.
  pub data Stream (keep_alive : Bool) : Written S T → Type 0 where
    packets :
        (r : Sent S T) (fs : List Frame)
        → r.bytes ≡ wire proto.codec fs
        → AllFrames fs
        → length r.bytes ≤ bufsz
        → Ready r.writer n
        → Working proto n r.writer
        → Done proto config compress complete objects bufsz fill_fuel n small shrinks enough r
        → Stream keep_alive (written r)
    alone :
        (r : Sent S T)
        → keep_alive ≡ true
        → r.rerror ≡ none
        → r.bytes ≡ store proto.codec (new_header keep_alive_type 0 0 blank_header)
        → Ready r.writer n
        → Working proto n r.writer
        → Done proto config compress complete objects bufsz fill_fuel n small shrinks enough r
        → Stream keep_alive (written r)
    lost :
        MayBreak proto config compress complete objects bufsz fill_fuel n small shrinks enough
        → Stream keep_alive undefined_write

  keep_alive_after-Stream :
      (keep_alive : Bool) (x : Written S T)
      → Sends proto config compress complete objects bufsz fill_fuel n small shrinks enough [] x
      → Stream keep_alive
          (keep_alive_after proto config compress complete objects bufsz fill_fuel keep_alive x)
  unfolding keep_alive_after
  keep_alive_after-Stream keep_alive _ (sends r fs e all fits ready working done) =
      elim (Option-cases r.rerror) [
        | inr (x, t) ↦ rw t (packets r fs e all fits ready working done)
        | inl t ↦ elim (Bool-cases ((length r.bytes == 0) && keep_alive)) [
          | inl b ↦
              rw (t, b)
                (alone _ (ground arith) t refl ready working
                  (elim done [ inl full ↦ inl (ground arith) | inr other ↦ inr other ]))
          | inr b ↦ rw (t, b) (packets r fs e all fits ready working done)
        ]
      ]
  keep_alive_after-Stream keep_alive _ (breaks_off why) = lost why

  -- For a writer that is fit for sending with at most `n` messages, a buffer of at most 64 KB and a header, a
  -- compression that does not make data longer, and enough fuel: `write` ends. It leaves such a writer, and in
  -- the buffer a sequence of packets with data whose headers are accepted and say how many bytes follow, or,
  -- only if there is nothing else, no error and it is asked for that, the keep alive packet. It stops only when
  -- there is no room for a packet more, no message is left to send, or there is an error. It does nothing
  -- undefined, and its assertion that a packet has less than 0xffff bytes of data does not fail, if the buffer has
  -- less than 0xffff + 4 bytes and there is a `slack` with which the serializers work, `n` and `slack` are no more than
  -- `minimumFreePacketDataSize`, and the serializers of messages that are not canceled are not done.
  pub write-Stream :
      (fuel : ℕ) (keep_alive : Bool) (w : MessageWriter S) (ctx : Context) (owner : T)
      (rerror : Option ℕ)
      → Ready w n
      → Working proto n w
      → bufsz < fuel
      → Stream keep_alive (
          write proto config compress complete objects bufsz fill_fuel fuel keep_alive w ctx owner
            rerror)
  unfolding write
  write-Stream fuel keep_alive w ctx owner rerror ready working more =
      keep_alive_after-Stream keep_alive _ (
        write_loop-Sends proto config compress complete objects bufsz fill_fuel n small shrinks
          enough fuel _ ready working (omega arith) (omega arith))
