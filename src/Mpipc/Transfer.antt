-- ===== src/Mpipc/Transfer.antt =====
-- The bytes that `write` of mpipcmessagewriter.cpp leaves, given to `read` of mpipcmessagereader.cpp.
use solidframe.Prelude.{
  ℕ, ◌+◌, ◌*◌, ◌≤◌, ◌<◌, ◌≡◌, refl, sym, ap, ◌∙◌, inl, inr, false, Option, none, List, [], ◌++◌,
  append-nil, arith,
}
use solidframe.Prelude.Lists.{length}
use solidframe.Mpipc.Message.{MessageBundle, MessageId}
use solidframe.Mpipc.Packet.{max_packet_data_size}
use solidframe.Mpipc.Protocol.{Context, MessageObject, Protocol, ReaderProtocol}
use solidframe.Mpipc.Wire.{Frame, wire, AllFrames}
use solidframe.Mpipc.Writer.{WriterConfiguration, MessageWriter}
use solidframe.Mpipc.Writer.Send.Measured.{Measured, Working, AllPending}
use solidframe.Mpipc.Writer.Send.Rounds.{Ready}
use solidframe.Mpipc.Writer.Write.{
  Compression, compressed, Sent, Written, written, undefined_write, write,
}
use solidframe.Mpipc.Writer.Write.Packets.{Done, MayBreak}
use solidframe.Mpipc.Writer.Write.Stream.{Stream, packets, alone, lost, write-Stream}
use solidframe.Mpipc.Reader.{ReaderConfiguration, MessageStub, header_read_state, Event}
use solidframe.Mpipc.Reader.Read.{read}
use solidframe.Mpipc.Reader.Read.Frames.{short, at_header, deliver}
use solidframe.Mpipc.Reader.Read.Chunks.{Answers, read-deliver}

module _ {S T D U : Type 0} (proto : Protocol S) (config : WriterConfiguration)
    (compress : List ℕ → Compression) (complete : MessageBundle → MessageId → T → Option ℕ × T)
    (objects : ℕ → MessageObject) (reader_config : ReaderConfiguration)
    (reader_proto : ReaderProtocol D U) (reader_complete : Event → U → U) (bufsz fill_fuel n : ℕ)
    (small : bufsz ≤ max_packet_data_size + 4)
    (shrinks : (c c' : List ℕ) → compress c ≡ compressed c' → length c' ≤ length c)
    (enough : (bufsz + n) * (n + 1) + n < fill_fuel) where
  -- What a reader at a header does with the bytes is to consume the packets, one after the other.
  data Transferred : Written S T → Type 0 where
    transferred :
        (r : Sent S T) (fs : List Frame)
        → AllFrames fs
        → length r.bytes ≤ bufsz
        → Ready r.writer n
        → Working proto n r.writer
        → Done proto config compress complete objects bufsz fill_fuel n small shrinks enough r
        → ((q : List (MessageStub D)) (before : List ℕ) (u : U)
            → (read reader_config reader_proto reader_complete r.bytes (record {
              state = header_read_state;
              message_q = q;
              bytes = before;
              owner = u;
              rerror = none;
            })
                ≡ deliver reader_config reader_proto reader_complete [] header_read_state fs q u)
              × Answers reader_config reader_proto reader_complete
                  (deliver reader_config reader_proto reader_complete [] header_read_state fs q u))
        → Transferred (written r)
    not_written :
        MayBreak proto config compress complete objects bufsz fill_fuel n small shrinks enough
        → Transferred undefined_write

  read_whole :
      (bs : List ℕ) (fs : List Frame)
      → reader_proto.codec ≡ proto.codec
      → bs ≡ wire proto.codec fs
      → AllFrames fs
      → (q : List (MessageStub D)) (before : List ℕ) (u : U)
      → (read reader_config reader_proto reader_complete bs (record {
        state = header_read_state;
        message_q = q;
        bytes = before;
        owner = u;
        rerror = none;
      })
          ≡ deliver reader_config reader_proto reader_complete [] header_read_state fs q u)
        × Answers reader_config reader_proto reader_complete
            (deliver reader_config reader_proto reader_complete [] header_read_state fs q u)
  read_whole bs fs same e all q before u =
      let whole : bs ≡ wire reader_proto.codec fs ++ [] =
        e ∙ ap (λ c. wire c fs) (sym same) ∙ sym (append-nil (wire reader_proto.codec fs)) in
      let delivered =
        read-deliver reader_config reader_proto reader_complete [] header_read_state
          header_read_state fs q before u (short [] (omega arith)) all at_header in
      (
        ap
              (λ b. read reader_config reader_proto reader_complete b (record {
                state = header_read_state;
                message_q = q;
                bytes = before;
                owner = u;
                rerror = none;
              }))
              whole
            ∙ delivered.0,
        delivered.1,
      )

  -- For a writer that is fit for sending with at most `n` messages, enough fuel, and a reader whose protocol
  -- stores values as the writer's does: `write`, when it is not asked for keep alive packets, ends. Unless there
  -- can be too many messages, a serializer does not do its work, or the buffer has room for a packet of 0xffff bytes of
  -- data, its bytes are a sequence of packets that
  -- `read` consumes.
  write-Transferred :
      (fuel : ℕ) (w : MessageWriter S) (ctx : Context) (owner : T) (rerror : Option ℕ)
      → bufsz < fuel
      → reader_proto.codec ≡ proto.codec
      → Ready w n
      → Working proto n w
      → Transferred (
          write proto config compress complete objects bufsz fill_fuel fuel false w ctx owner
            rerror)
  write-Transferred fuel w ctx owner rerror more same ready working = arrives _ (
      write-Stream proto config compress complete objects bufsz fill_fuel n small shrinks enough
        fuel false w ctx owner rerror ready working more)
    where
      arrives :
          (x : Written S T)
          → Stream proto config compress complete objects bufsz fill_fuel n small shrinks enough
              false x
          → Transferred x
      arrives _ (packets r fs e all fits left on done) =
          transferred r fs all fits left on done (read_whole r.bytes fs same e all)
      arrives _ (alone r on none_wrong e left working' done) = absurd (grind (arith, on))
      arrives _ (lost why) = not_written why

  -- What a run of `write` achieves whose serializers fill their packets.
  pub record Arrives (x : Written S T) : Type 0 where
    pub sent : Sent S T
    pub frames : List Frame
    pub ends : x ≡ written sent
    pub all : AllFrames frames
    pub fits : length sent.bytes ≤ bufsz
    pub ready : Ready sent.writer n
    pub pending : AllPending proto sent.writer
    pub done :
        Done proto config compress complete objects bufsz fill_fuel n small shrinks enough sent
    pub consumed :
        (q : List (MessageStub D)) (before : List ℕ) (u : U)
        → (read reader_config reader_proto reader_complete sent.bytes (record {
          state = header_read_state;
          message_q = q;
          bytes = before;
          owner = u;
          rerror = none;
        })
            ≡ deliver reader_config reader_proto reader_complete [] header_read_state frames q u)
          × Answers reader_config reader_proto reader_complete
              (deliver reader_config reader_proto reader_complete [] header_read_state frames q u)

  Transferred-Arrives :
      (x : Written S T) → Measured proto n → bufsz < 0xffff + 4 → Transferred x → Arrives x
  Transferred-Arrives _ g below (transferred r fs all fits ready working done consumed) = record {
    sent = r;
    frames = fs;
    ends = refl;
    all = all;
    fits = fits;
    ready = ready;
    pending = working g;
    done = done;
    consumed = consumed;
  }
  Transferred-Arrives _ g below (not_written (inl not_measured)) = absurd (not_measured g)
  Transferred-Arrives _ g below (not_written (inr more)) = absurd (omega arith)

  -- For a writer that is fit for sending with at most `n` messages, and whose serializers of messages that are
  -- not canceled are not done; for a `slack` that is, with `n`, no more than `minimumFreePacketDataSize`, and
  -- serializers that work with it: a serializer that a message was pushed to is not done, one that is not done
  -- writes something into more room than `slack`, and leaves `slack` bytes of its room at most if it is not done
  -- after that; for a buffer of less than 0xffff + 4 bytes, a compression that does not make data longer, enough
  -- fuel, and a reader whose protocol stores values as the writer's does: `write`, when it is not asked for keep
  -- alive packets, ends, does nothing undefined, and its assertion that a packet has less than 0xffff bytes of data
  -- does not fail. Its bytes fit into the buffer and are a sequence of data packets, each
  -- with an accepted header that is not that of a keep alive packet and says how many bytes of data follow;
  -- it stops only when there is no room for a packet more, no message is left to send, or there is an error.
  -- `read` of a reader at a header without an error, whatever messages are in its queue, given all the bytes, ends. It calls
  -- `doConsumePacket` for these packets one after the other, each with its header and its data and with the queue
  -- that the packet before left, and with nothing else. It stops with nothing left, or at the first packet that ends
  -- with an error or for which `doConsumePacket` does what is undefined, as it does if the queue has no message or no
  -- deserializer for a switch. The writer is
  -- fit for the next call, with serializers that are not done in the same way.
  pub write-Arrives :
      (fuel : ℕ) (w : MessageWriter S) (ctx : Context) (owner : T) (rerror : Option ℕ)
      → bufsz < fuel
      → bufsz < 0xffff + 4
      → reader_proto.codec ≡ proto.codec
      → Measured proto n
      → Ready w n
      → AllPending proto w
      → Arrives (
          write proto config compress complete objects bufsz fill_fuel fuel false w ctx owner
            rerror)
  write-Arrives fuel w ctx owner rerror more below same g ready pending =
      Transferred-Arrives _ g below
        (write-Transferred fuel w ctx owner rerror more same ready (λ _. pending))
