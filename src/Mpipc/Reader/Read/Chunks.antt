-- ===== src/Mpipc/Reader/Read/Chunks.antt =====
-- `read` of mpipcmessagereader.cpp, called again with the bytes that it left and more.
use solidframe.Prelude.{
  ℕ, suc, ◌≡◌, refl, sym, subst, ap, ◌∙◌, Option-cases, inl, inr, none, some, List, [], ◌∷◌, ◌++◌,
  append_assoc, arith,
}
use solidframe.Prelude.Lists.{length, length-append}
use solidframe.Mpipc.Packet.{store}
use solidframe.Mpipc.Packet.Laws.{length-store}
use solidframe.Mpipc.Protocol.{ReaderProtocol}
use solidframe.Mpipc.Wire.{Frame, wire, wire-append, AllFrames, AllFrames-append, frames_fit}
use solidframe.Mpipc.Reader.{
  ReaderConfiguration, MessageStub, States, data_read_state, Event, Consumed, consumed,
  undefined_consume, consume_out_of_fuel,
}
use solidframe.Mpipc.Reader.Ends.{Stops, stops_with, stops_undefined, do_consume_packet-Stops}
use solidframe.Mpipc.Reader.Read.{
  Reading, HasRead, has_read, undefined_read, read_out_of_fuel, read,
}
use solidframe.Mpipc.Reader.Read.Frames.{
  Partial, short, begun, Started, at_header, at_data, after_frame, deliver, reading, with_error,
  frames_read,
}

module _ {D T : Type 0} (config : ReaderConfiguration) (proto : ReaderProtocol D T)
    (complete : Event → T → T) where
  deliver_lem :
      (tail : List ℕ) (s s' : States) (fs : List Frame) (q : List (MessageStub D)) (before : List ℕ)
      (t : T)
      → Partial proto.codec tail s'
      → AllFrames fs
      → Started config proto complete (wire proto.codec fs ++ tail) s
      → read config proto complete
          (wire proto.codec fs ++ tail)
          (record { state = s; message_q = q; bytes = before; owner = t; rerror = none })
        ≡ deliver config proto complete tail s' fs q t
  unfolding read reading
  deliver_lem tail s s' fs q before t part all started =
      frames_read config proto complete tail s s' fs (suc (length (wire proto.codec fs ++ tail))) q
        t part all started
        (omega (arith, frames_fit proto.codec fs all, length-append (wire proto.codec fs) tail))

  -- An end, whatever it is.
  pub data Answers : HasRead D T → Type 0 where
    answers : (r : Reading D T) → Answers (has_read r)
    breaks : Answers undefined_read

  after_frame-Answers :
      (tail : List ℕ) (f : Frame) (fs : List Frame) (later : List (MessageStub D) → T → HasRead D T)
      (x : Consumed D T)
      → Stops config proto complete x
      → ((q : List (MessageStub D)) (t : T) → Answers (later q t))
      → Answers (after_frame config proto complete tail f fs later x)
  unfolding after_frame
  after_frame-Answers tail f fs later _ stops_undefined go_on = breaks
  after_frame-Answers tail f fs later _ (stops_with c) go_on = elim (Option-cases c.rerror) [
    | inl u ↦ rw u (go_on c.message_q c.owner)
    | inr (e, u) ↦ rw u (answers _)
  ]

  deliver-Answers :
      (tail : List ℕ) (s : States) (fs : List Frame) (q : List (MessageStub D)) (t : T)
      → Answers (deliver config proto complete tail s fs q t)
  unfolding deliver
  deliver-Answers tail s [] q t = answers _
  deliver-Answers tail s (f ∷ fs) q t =
      after_frame-Answers tail f fs _ _ (do_consume_packet-Stops config proto complete _ _)
        (deliver-Answers tail s fs)

  -- For a reader without an error, that is at a header or was left in the middle of a packet: `read` is given
  -- the bytes of a sequence of data packets and less than a data packet more; a data packet has data and an accepted header
  -- that says how many bytes they have and is not that of a keep alive packet. It ends. It calls `doConsumePacket` for the packets
  -- one after the other, each with its header and its data and with the queue that the packet before left, and leaves
  -- the bytes behind them. It stops at the first packet that ends with an error, and leaves the bytes behind its header; and
  -- it does what is undefined at the first packet for which `doConsumePacket` does, as it can if the queue has no message
  -- or no deserializer for a switch.
  pub read-deliver :
      (tail : List ℕ) (s s' : States) (fs : List Frame) (q : List (MessageStub D)) (before : List ℕ)
      (t : T)
      → Partial proto.codec tail s'
      → AllFrames fs
      → Started config proto complete (wire proto.codec fs ++ tail) s
      → (read config proto complete
            (wire proto.codec fs ++ tail)
            (record { state = s; message_q = q; bytes = before; owner = t; rerror = none })
          ≡ deliver config proto complete tail s' fs q t)
        × Answers (deliver config proto complete tail s' fs q t)
  read-deliver tail s s' fs q before t part all started =
      (deliver_lem tail s s' fs q before t part all started, deliver-Answers tail s' fs q t)

  longer :
      (bs more : List ℕ) (s : States)
      → Started config proto complete bs s
      → Started config proto complete (bs ++ more) s
  longer bs more _ at_header = at_header
  longer bs more _ (at_data h) = at_data (omega (arith, h, length-append bs more))

  -- The next call of `read`, with what was left and more bytes, if there is no error.
  unfoldable pub resume : List ℕ → HasRead D T → HasRead D T
  resume more undefined_read = undefined_read
  resume more read_out_of_fuel = read_out_of_fuel
  resume more (has_read r) = elim r.rerror [
    | none ↦ read config proto complete (r.bytes ++ more) r
    | some e ↦ has_read (record r { bytes = r.bytes ++ more })
  ]

  left-Started :
      (tail more : List ℕ) (s : States)
      → Partial proto.codec tail s
      → Started config proto complete (tail ++ more) s
  left-Started tail more _ (short _ h) = at_header
  left-Started _ more _ (begun f a b one cut some_data) = at_data (
      omega (
        arith,
        length-append (store proto.codec f.header ++ a) more,
        length-append (store proto.codec f.header) a,
        length-store proto.codec f.header,
      ))

  all_bytes :
      (c : List ℕ) (more tail tail' : List ℕ) (fs gs : List Frame)
      → tail ++ more ≡ wire proto.codec gs ++ tail'
      → c ++ (wire proto.codec (fs ++ gs) ++ tail') ≡ (c ++ (wire proto.codec fs ++ tail)) ++ more
  all_bytes c more tail tail' fs gs cut =
      let w = wire proto.codec fs in
      ap (λ b. c ++ (b ++ tail')) (wire-append proto.codec fs gs)
      ∙ ap (λ b. c ++ b) (append_assoc w (wire proto.codec gs) tail')
      ∙ ap (λ b. c ++ (w ++ b)) (sym cut)
      ∙ ap (λ b. c ++ b) (sym (append_assoc w tail more))
      ∙ sym (append_assoc c (w ++ tail) more)

  frame_resumed :
      (more tail tail' : List ℕ) (f : Frame) (fs gs : List Frame)
      (later later' : List (MessageStub D) → T → HasRead D T)
      → ((q : List (MessageStub D)) (t : T) → later' q t ≡ resume more (later q t))
      → tail ++ more ≡ wire proto.codec gs ++ tail'
      → (x : Consumed D T)
      → after_frame config proto complete tail' f (fs ++ gs) later' x
        ≡ resume more (after_frame config proto complete tail f fs later x)
  unfolding after_frame resume
  frame_resumed more tail tail' f fs gs later later' same cut undefined_consume = refl
  frame_resumed more tail tail' f fs gs later later' same cut consume_out_of_fuel = refl
  frame_resumed more tail tail' f fs gs later later' same cut (consumed c) =
      elim (Option-cases c.rerror) [
        | inl u ↦ rw u (same c.message_q c.owner)
        | inr (e, u) ↦ rw u (
            ap
              (λ b.
                has_read
                  (with_error config proto complete data_read_state c.message_q b c.owner (some e)))
              (all_bytes f.content more tail tail' fs gs cut))
      ]

  deliver_resumed :
      (more tail tail' : List ℕ) (s s' : States) (fs gs : List Frame) (q : List (MessageStub D))
      (t : T)
      → Partial proto.codec tail s
      → Partial proto.codec tail' s'
      → AllFrames gs
      → tail ++ more ≡ wire proto.codec gs ++ tail'
      → deliver config proto complete tail' s' (fs ++ gs) q t
        ≡ resume more (deliver config proto complete tail s fs q t)
  unfolding resume deliver
  deliver_resumed more tail tail' s s' [] gs q t part part' all cut = sym (
      ap (λ b. read config proto complete b (with_error config proto complete s q tail t none)) cut
      ∙ deliver_lem tail' s s' gs q tail t part' all
          (subst (λ b. Started config proto complete b s) cut (left-Started tail more s part)))
  deliver_resumed more tail tail' s s' (f ∷ fs) gs q t part part' all cut =
      frame_resumed more tail tail' f fs gs _ _
        (λ q' t'. deliver_resumed more tail tail' s s' fs gs q' t' part part' all cut) cut _

  -- For a reader without an error, that is at a header or was left in the middle of a packet; and for the bytes of a
  -- sequence of data packets and less than a data packet more, cut in two behind any whole number of packets or in the
  -- middle of one: reading the first part, and then what it left together with the second part, is the same as reading all the
  -- bytes at once. Where the first part ends with an error the second is not read, and where it does what is undefined
  -- so does reading all. A data packet has data and an accepted header that says how many bytes they have and is not that of a
  -- keep alive packet.
  pub read-resume :
      (tail more tail' : List ℕ) (s s1 s2 : States) (fs gs : List Frame) (q : List (MessageStub D))
      (before : List ℕ) (t : T)
      → Partial proto.codec tail s1
      → Partial proto.codec tail' s2
      → AllFrames fs
      → AllFrames gs
      → tail ++ more ≡ wire proto.codec gs ++ tail'
      → Started config proto complete (wire proto.codec fs ++ tail) s
      → let r : Reading D T = record {
        state = s;
        message_q = q;
        bytes = before;
        owner = t;
        rerror = none;
      } in
        read config proto complete ((wire proto.codec fs ++ tail) ++ more) r
        ≡ resume more (read config proto complete (wire proto.codec fs ++ tail) r)
  read-resume tail more tail' s s1 s2 fs gs q before t part part' all all' cut started =
      let r : Reading D T = record {
        state = s;
        message_q = q;
        bytes = before;
        owner = t;
        rerror = none;
      } in
      let e = sym (all_bytes [] more tail tail' fs gs cut) in
      ap (λ b. read config proto complete b r) e
      ∙ deliver_lem tail' s s2 (fs ++ gs) q before t part' (AllFrames-append fs gs all all')
          (subst (λ b. Started config proto complete b s) e (longer _ more s started))
      ∙ deliver_resumed more tail tail' s1 s2 fs gs q t part part' all' cut
      ∙ ap (resume more) (sym (deliver_lem tail s s1 fs q before t part all started))
