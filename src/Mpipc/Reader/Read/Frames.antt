-- ===== src/Mpipc/Reader/Read/Frames.antt =====
-- `read` of mpipcmessagereader.cpp on a sequence of packets.
use solidframe.Prelude.{
  ℕ, zero, suc, ◌+◌, ◌≤◌, ◌<◌, ◌≡◌, refl, subst, ap, ◌∙◌, true, false, Bool-cases, Option-cases,
  inl, inr, Option, none, some, List, [], ◌∷◌, ◌++◌, append_assoc, leb, ◌==◌, arith,
}
use solidframe.Prelude.Lists.{length, length-append, take-append, drop-append}
use solidframe.Mpipc.Packet.{PacketHeader, size, is_ok, is_type_keep_alive, store, load}
use solidframe.Mpipc.Packet.Laws.{load-store, length-store}
use solidframe.Mpipc.Protocol.{ReaderProtocol}
use solidframe.Mpipc.Wire.{Frame, wire, IsFrame, AllFrames}
use solidframe.Mpipc.Reader.{
  ReaderConfiguration, MessageStub, States, header_read_state, data_read_state, Event, Consumed,
  consumed, undefined_consume, consume_out_of_fuel, do_consume_packet,
}
use solidframe.Mpipc.Reader.Read.{
  Reading, HasRead, has_read, undefined_read, read_out_of_fuel, Step, again, end, after_packet,
  read_packet, read_header, read_data, read_round, read_loop,
}

-- What is left behind the last whole packet, and the state of the reader then.
pub data Partial (codec : solidframe.Mpipc.Packet.ValueCodec) : List ℕ → States → Type 0 where
  short : (bs : List ℕ) → length bs ≤ 3 → Partial codec bs header_read_state
  begun :
      (f : Frame) (a b : List ℕ)
      → IsFrame f
      → f.content ≡ a ++ b
      → 1 ≤ length b
      → Partial codec (store codec f.header ++ a) data_read_state

module _ {D T : Type 0} (config : ReaderConfiguration) (proto : ReaderProtocol D T)
    (complete : Event → T → T) where
  -- What follows a packet: `later` is for the packets behind it, if there is no error. If there is one, what is not
  -- read is the data of the packet and all that follows.
  unfoldable pub after_frame :
      List ℕ
      → Frame
      → List Frame
      → (List (MessageStub D) → T → HasRead D T)
      → Consumed D T
      → HasRead D T
  after_frame tail f fs later undefined_consume = undefined_read
  after_frame tail f fs later consume_out_of_fuel = read_out_of_fuel
  after_frame tail f fs later (consumed c) = elim c.rerror [
    | none ↦ later c.message_q c.owner
    | some e ↦ has_read (record {
      state = data_read_state;
      message_q = c.message_q;
      bytes = f.content ++ (wire proto.codec fs ++ tail);
      owner = c.owner;
      rerror = some e;
    })
  ]

  -- The packets are consumed one after the other, up to the first error; `tail` stays behind them.
  unfoldable pub deliver : List ℕ → States → List Frame → List (MessageStub D) → T → HasRead D T
  deliver tail s [] q t =
      has_read (record { state = s; message_q = q; bytes = tail; owner = t; rerror = none })
  deliver tail s (f ∷ fs) q t = after_frame tail f fs (deliver tail s fs) (
      do_consume_packet config proto complete f.header
        (record { bytes = f.content; message_q = q; owner = t; rerror = none }))

  -- The state at the beginning: the header is read, or it is known that it is there.
  pub data Started (bs : List ℕ) : States → Type 0 where
    at_header : Started bs header_read_state
    at_data : 4 ≤ length bs → Started bs data_read_state

  abbrev pub with_error : States → List (MessageStub D) → List ℕ → T → Option ℕ → Reading D T
  with_error s q bs t e = record { state = s; message_q = q; bytes = bs; owner = t; rerror = e }

  unfoldable pub reading : States → List (MessageStub D) → List ℕ → T → Reading D T
  reading s q bs t = record { state = s; message_q = q; bytes = bs; owner = t; rerror = none }

  pub starts :
      (s : States) (q : List (MessageStub D)) (bs : List ℕ) (t : T)
      → Started bs s
      → 4 ≤ length bs
      → read_round config proto complete (reading s q bs t)
        ≡ read_data config proto complete (reading data_read_state q bs t)
  unfolding read_round reading
  starts s q bs t at_header some_header =
      let nonempty : (length bs == 0) ≡ false = ground arith in
      let whole : leb 4 (length bs) ≡ true = ground arith in rw (nonempty, whole) refl
  starts s q bs t (at_data h) some_header =
      let nonempty : (length bs == 0) ≡ false = ground arith in rw nonempty refl

  -- A whole packet at the beginning.
  frame_step :
      (f : Frame) (rest : List ℕ) (q : List (MessageStub D)) (t : T)
      → IsFrame f
      → read_data config proto complete
          (reading data_read_state q (store proto.codec f.header ++ (f.content ++ rest)) t)
        ≡ after_packet config proto complete f.header
            (do_consume_packet config proto complete f.header
              (record { bytes = f.content; message_q = q; owner = t; rerror = none }))
            (reading data_read_state q (f.content ++ rest) t)
  unfolding read_data read_header read_packet reading
  frame_step f rest q t one =
      let whole : leb (length f.content) (length (f.content ++ rest)) ≡ true =
        ground (arith, length-append f.content rest) in
      rw
        (
          load-store proto.codec f.header (f.content ++ rest) one.fits,
          one.sized,
          whole,
          one.ok,
          one.awake,
          take-append f.content rest,
        )
        refl

  -- What is left behind the last packet is not read.
  tail_stays :
      (tail : List ℕ) (s s' : States) (q : List (MessageStub D)) (t : T)
      → Partial proto.codec tail s'
      → Started tail s
      → read_round config proto complete (reading s q tail t) ≡ end (has_read (reading s' q tail t))
  unfolding read_round reading read_data read_header
  tail_stays tail _ _ q t (short _ h) (at_data big) = absurd (omega arith)
  tail_stays tail _ _ q t (short _ h) at_header = elim (Bool-cases (length tail == 0)) [
    | inl e ↦ rw e refl
    | inr e ↦ let few : leb 4 (length tail) ≡ false = ground arith in rw (e, few) refl
  ]
  tail_stays _ s _ q t (begun f a b one cut some_data) started =
      let bytes = store proto.codec f.header ++ a in
      let sum : length bytes ≡ 4 + length a =
        length-append (store proto.codec f.header) a
        ∙ ap (λ k. k + length a) (length-store proto.codec f.header) in
      let less : leb (length f.content) (length a) ≡ false =
        ground (arith, ap length cut, length-append a b) in
      starts s q bytes t started (omega (arith, sum))
      ∙ (rw (load-store proto.codec f.header a one.fits, one.sized, less) refl)

  wire_cons :
      (f : Frame) (fs : List Frame) (tail : List ℕ)
      → wire proto.codec (f ∷ fs) ++ tail
        ≡ store proto.codec f.header ++ (f.content ++ (wire proto.codec fs ++ tail))
  unfolding wire
  wire_cons f fs tail =
      append_assoc (store proto.codec f.header) (f.content ++ wire proto.codec fs) tail
      ∙ ap (λ t. store proto.codec f.header ++ t)
          (append_assoc f.content (wire proto.codec fs) tail)

  after_packet_step :
      (tail : List ℕ) (s : States) (f : Frame) (fs : List Frame) (fuel : ℕ)
      (q : List (MessageStub D)) (t : T)
      → IsFrame f
      → ((q' : List (MessageStub D)) (t' : T)
          → read_loop config proto complete fuel
              (reading header_read_state q' (wire proto.codec fs ++ tail) t')
            ≡ deliver tail s fs q' t')
      → (x : Consumed D T)
      → elim (after_packet config proto complete f.header x
          (reading data_read_state q (f.content ++ (wire proto.codec fs ++ tail)) t)) [
            | again r' ↦ read_loop config proto complete fuel r'
            | end y ↦ y
          ]
        ≡ after_frame tail f fs (deliver tail s fs) x
  unfolding after_packet after_frame reading
  after_packet_step tail s f fs fuel q t one later undefined_consume = refl
  after_packet_step tail s f fs fuel q t one later consume_out_of_fuel = refl
  after_packet_step tail s f fs fuel q t one later (consumed c) = elim (Option-cases c.rerror) [
    | inr (e, u) ↦ rw u (
        ap
          (λ z. has_read (
            with_error data_read_state c.message_q (f.content ++ (wire proto.codec fs ++ tail))
              c.owner z))
          u)
    | inl u ↦
        rw (u, one.sized, drop-append f.content (wire proto.codec fs ++ tail))
          (ap
              (λ e.
                read_loop config proto complete fuel (
                  with_error header_read_state c.message_q (wire proto.codec fs ++ tail) c.owner e))
              u
            ∙ later c.message_q c.owner)
  ]

  unfoldable pub follow : ℕ → Step D T → HasRead D T
  follow fuel x = elim x [ again r' ↦ read_loop config proto complete fuel r' | end y ↦ y ]

  pub loop_step :
      (fuel : ℕ) (r : Reading D T) (x : Step D T)
      → read_round config proto complete r ≡ x
      → read_loop config proto complete (suc fuel) r ≡ follow fuel x
  unfolding read_loop follow
  loop_step fuel r x e = ap (follow fuel) e

  pub frames_read :
      (tail : List ℕ) (s s' : States) (fs : List Frame) (fuel : ℕ) (q : List (MessageStub D))
      (t : T)
      → Partial proto.codec tail s'
      → AllFrames fs
      → Started (wire proto.codec fs ++ tail) s
      → length fs < fuel
      → read_loop config proto complete fuel (reading s q (wire proto.codec fs ++ tail) t)
        ≡ deliver tail s' fs q t
  unfolding AllFrames wire follow
  frames_read tail s s' fs zero q t part all started enough = absurd (omega arith)
  frames_read tail s s' [] (suc fuel) q t part all started enough =
      loop_step fuel (reading s q tail t) _ (tail_stays tail s s' q t part started)
      ∙ (unfold reading deliver in refl)
  frames_read tail s s' (f ∷ fs) (suc fuel) q t part (one, all) started enough =
      let rest = wire proto.codec fs ++ tail in
      let bytes = store proto.codec f.header ++ (f.content ++ rest) in
      let e = wire_cons f fs tail in
      let four : 4 ≤ length bytes = omega (
        arith,
        length-append (store proto.codec f.header) (f.content ++ rest),
        length-store proto.codec f.header,
      ) in
      ap (λ b. read_loop config proto complete (suc fuel) (reading s q b t)) e
      ∙ loop_step fuel (reading s q bytes t) _
          (starts s q bytes t (subst (λ b. Started b s) e started) four ∙ frame_step f rest q t one)
      ∙ after_packet_step tail s' f fs fuel q t one
          (λ q' t'.
            frames_read tail header_read_state s' fs fuel q' t' part all at_header (omega arith))
          _
      ∙ (unfold deliver in refl)
