-- ===== src/Mpipc/Reader/LastSwitch.antt =====
-- `doConsumePacket` of mpipcmessagereader.cpp on a packet whose last byte is a message switch.
use solidframe.Prelude.{
  ℕ, suc, ◌+◌, ◌^◌, ◌≤◌, ◌<◌, ◌≡◌, refl, sym, ap, ◌∙◌, false, Bool-cases, inl, inr, some, List, [],
  ◌∷◌, ◌++◌, append-nil, ◌==◌, arith,
}
use solidframe.Prelude.Lists.{length, length-append, drop, drop-append}
use solidframe.Serialization.BinaryBasic.{loaded}
use solidframe.Mpipc.Packet.{PacketHeader, is_compressed}
use solidframe.Mpipc.Protocol.{Deserialized, ReaderProtocol}
use solidframe.Mpipc.Reader.{
  ReaderConfiguration, MessageStub, Event, Consume, Consumed, consumed, running, go, Turn, next,
  last, message_switch, finish, run_front, run_message, after_switch, load_switch, next_switch,
  consume_round, consume_loop, consume_data, do_consume_packet,
}

module _ {D T : Type 0} (config : ReaderConfiguration) (proto : ReaderProtocol D T)
    (complete : Event → T → T) where
  follow : ℕ → Turn D T → Consumed D T
  follow fuel x = elim x [ next t c ↦ consume_loop config proto complete fuel t c | last y ↦ y ]

  loop_step :
      (fuel t : ℕ) (c : Consume D T) (x : Turn D T)
      → consume_round config proto complete t c ≡ x
      → consume_loop config proto complete (suc fuel) t c ≡ follow fuel x
  unfolding consume_loop follow
  loop_step fuel t c x e = ap (follow fuel) e

  nothing_left :
      (fuel t : ℕ) (c : Consume D T)
      → consume_loop config proto complete (suc fuel) t (record c { bytes = [] })
        ≡ consumed (record c { bytes = [] })
  unfolding consume_loop consume_round
  nothing_left fuel t c = refl

  pub finish_bytes :
      (r : Deserialized D T) (m : MessageStub D) (q : List (MessageStub D)) (c : Consume D T)
      → (finish config proto complete r m q c).bytes ≡ drop r.taken c.bytes
  unfolding finish
  finish_bytes r m q c = elim (Bool-cases (proto.is_empty r.deserializer)) [
    | inl e ↦ rw e refl
    | inr e ↦ rw e refl
  ]

  switch_loaded :
      (s : ℕ) (c : Consume D T)
      → s < 2 ^ 8
      → c.bytes ≡ proto.codec.store_value_8 s
      → next_switch config proto complete (go c) ≡ next s (record c { bytes = [] })
  unfolding next_switch load_switch
  switch_loaded s c small e =
      let one : (length c.bytes == 0) ≡ false =
        ground (arith, ap length e, proto.codec.length-store_8 s) in
      let read : proto.codec.load_value_8 c.bytes ≡ loaded s [] =
        ap proto.codec.load_value_8 (e ∙ sym (append-nil (proto.codec.store_value_8 s)))
        ∙ proto.codec.load-store_8 s [] small in
      rw (one, read) refl

  first_round :
      (t s : ℕ) (m : MessageStub D) (q : List (MessageStub D)) (d : D) (c : Consume D T)
      → 1 ≤ length c.bytes
      → message_switch config proto t c.message_q ≡ running (m ∷ q)
      → m.deserializer_ptr ≡ some d
      → 1 ≤ (proto.run d c.owner m.message_ptr c.bytes).taken
      → consume_round config proto complete t c
        ≡ next_switch config proto complete
            (go (finish config proto complete (proto.run d c.owner m.message_ptr c.bytes) m q c))
  unfolding consume_round after_switch run_message run_front finish
  first_round t s m q d c some_bytes switch opened takes =
      let nonempty : (length c.bytes == 0) ≡ false = ground arith in
      let positive : ((proto.run d c.owner m.message_ptr c.bytes).taken == 0) ≡ false =
        ground arith in
      rw (nonempty, switch, opened, positive) refl

  -- For a packet that is not compressed, whose header's switch leads to a message with a deserializer which takes all
  -- the data but the last byte: `doConsumePacket` ends with what that run leaves. The last byte, a message switch, is
  -- taken and has no effect, whichever switch it is.
  pub do_consume_packet-last_switch :
      (h : PacketHeader) (c : Consume D T) (bs : List ℕ) (s : ℕ) (m : MessageStub D)
      (q : List (MessageStub D)) (d : D)
      → is_compressed h ≡ false
      → c.bytes ≡ bs ++ proto.codec.store_value_8 s
      → s < 2 ^ 8
      → message_switch config proto h.type_ c.message_q ≡ running (m ∷ q)
      → m.deserializer_ptr ≡ some d
      → 1 ≤ length bs
      → (proto.run d c.owner m.message_ptr c.bytes).taken ≡ length bs
      → do_consume_packet config proto complete h c
        ≡ consumed
            (record (finish config proto complete
              (proto.run d c.owner m.message_ptr c.bytes)
              m
              q
              c) { bytes = [] })
  unfolding do_consume_packet consume_data follow
  do_consume_packet-last_switch h c bs s m q d plain cut small switch opened some_data takes =
      let r = proto.run d c.owner m.message_ptr c.bytes in
      let c1 = finish config proto complete r m q c in
      let sum : length c.bytes ≡ length bs + 1 =
        ap length cut
        ∙ length-append bs (proto.codec.store_value_8 s)
        ∙ ap (λ k. length bs + k) (proto.codec.length-store_8 s) in
      let left : c1.bytes ≡ proto.codec.store_value_8 s =
        finish_bytes r m q c
        ∙ ap (λ k. drop k c.bytes) takes
        ∙ ap (drop (length bs)) cut
        ∙ drop-append bs (proto.codec.store_value_8 s) in
      let round =
        first_round h.type_ s m q d c (omega (arith, sum)) switch opened (omega (arith, takes))
        ∙ switch_loaded s c1 small left in
      rw plain (
        loop_step (length c.bytes) h.type_ c _ round
        ∙ ap (λ n. consume_loop config proto complete n s (record c1 { bytes = [] }))
            (sum ∙ plus_one (length bs))
        ∙ nothing_left (length bs) s c1)
    where
      plus_one : (n : ℕ) → n + 1 ≡ suc n
      plus_one n = omega arith
