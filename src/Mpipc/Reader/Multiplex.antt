-- ===== src/Mpipc/Reader/Multiplex.antt =====
-- `doConsumePacket` of mpipcmessagereader.cpp: the queue of the messages that are being read.
use solidframe.Prelude.{
  ℕ, zero, suc, ◌≤◌, ◌<◌, ◌≡◌, refl, sym, ◌∙◌, true, false, Bool-cases, Option-cases, inl, inr,
  Option, none, some, List, [], ◌∷◌, ◌==◌, arith,
}
use solidframe.Prelude.Lists.{length, length-drop}
use solidframe.Serialization.BinaryBasic.{Loaded, loaded, null, overrun}
use solidframe.Mpipc.Packet.{PacketHeader, is_compressed}
use solidframe.Mpipc.Protocol.{Deserialized, ReaderProtocol}
use solidframe.Mpipc.Reader.Switches.{
  Multiplexed, Unready, no_message, no_deserializer, Unserved, AfterSwitch, runs, cancels, refuses,
  breaks, switched,
}
use solidframe.Mpipc.Reader.{
  ReaderConfiguration, Decompression, decompressed, decompress_failed, MessageStub, Event, Consume,
  Consumed, consumed, undefined_consume, Switched, Part, go, stop, Turn, next, last, finish,
  run_front, run_message, after_switch, load_switch, next_switch, consume_round, consume_loop,
  consume_data, consume_decompressed, do_consume_packet,
}

module _ {D T : Type 0} (config : ReaderConfiguration) (proto : ReaderProtocol D T)
    (complete : Event → T → T) (some_room : 1 ≤ config.max_message_count_multiplex)
    (loads : (bs : List ℕ)
      → 1 ≤ length bs
      → (t : ℕ) × (rest : List ℕ) × (proto.codec.load_value_8 bs ≡ loaded t rest)) where
  -- The end of a round with the switch `t` on the queue `q`.
  data Closing (t : ℕ) (q : List (MessageStub D)) : Consumed D T → Type 0 where
    kept : (c : Consume D T) → Multiplexed config c.message_q → Closing t q (consumed c)
    undone : Unserved t q → Closing t q undefined_consume

  data PartOf (t : ℕ) (q : List (MessageStub D)) (n : ℕ) : Part D T → Type 0 where
    goes :
        (c : Consume D T)
        → Multiplexed config c.message_q
        → length c.bytes ≤ n
        → PartOf t q n (go c)
    stops : (x : Consumed D T) → Closing t q x → PartOf t q n (stop x)

  finished :
      (t : ℕ) (q0 : List (MessageStub D)) (r : Deserialized D T) (m : MessageStub D)
      (q : List (MessageStub D)) (c : Consume D T)
      → Multiplexed config (m ∷ q)
      → PartOf t q0 (length c.bytes) (go (finish config proto complete r m q c))
  unfolding finish
  finished t q0 r m q c fit = elim (Bool-cases (proto.is_empty r.deserializer)) [
    | inl e ↦ rw e (
        goes _ (record { has_front = omega arith; bounded = fit.bounded })
          (omega (arith, length-drop r.taken c.bytes)))
    | inr e ↦ rw e (
        goes _ (record { has_front = omega arith; bounded = fit.bounded })
          (omega (arith, length-drop r.taken c.bytes)))
  ]

  ran :
      (s : ℕ) (q0 q : List (MessageStub D)) (c : Consume D T)
      → length q ≤ config.max_message_count_multiplex
      → (Unready q → Unserved s q0)
      → PartOf s q0 (length c.bytes) (run_message config proto complete q c)
  unfolding run_message run_front
  ran s q0 [] c h served = stops _ (undone (served no_message))
  ran s q0 (m ∷ q) c h served = elim (Option-cases m.deserializer_ptr) [
    | inl e ↦ rw e (stops _ (undone (served (no_deserializer m q e))))
    | inr (d, e) ↦
        let r = proto.run d c.owner m.message_ptr c.bytes in
        elim (Bool-cases (r.taken == 0)) [
          | inl t ↦ rw (e, t) (stops _ (kept _ (record { has_front = omega arith; bounded = h })))
          | inr t ↦
              rw (e, t) (finished s q0 r m q c (record { has_front = omega arith; bounded = h }))
        ]
  ]

  part_of :
      (t : ℕ) (x : Switched D) (c : Consume D T)
      → AfterSwitch config t c.message_q x
      → Multiplexed config c.message_q
      → PartOf t c.message_q (length c.bytes) (after_switch config proto complete x c)
  unfolding after_switch
  part_of t _ c (runs q h served) fit = ran t c.message_q q c h served
  part_of t _ c (cancels q h) fit = goes _ h (omega arith)
  part_of t _ c (refuses e) fit = stops _ (kept _ fit)
  part_of t _ c (breaks u) fit = stops _ (undone u)

  data TurnOf (s : ℕ) (q : List (MessageStub D)) (n : ℕ) : Turn D T → Type 0 where
    turns :
        (t : ℕ) (c : Consume D T)
        → Multiplexed config c.message_q
        → length c.bytes < n
        → TurnOf s q n (next t c)
    closes : (x : Consumed D T) → Closing s q x → TurnOf s q n (last x)

  loaded_turn :
      (s : ℕ) (q : List (MessageStub D)) (n : ℕ) (x : Loaded) (c : Consume D T)
      → Multiplexed config c.message_q
      → length c.bytes ≤ n
      → proto.codec.load_value_8 c.bytes ≡ x
      → (t : ℕ) × (rest : List ℕ) × (proto.codec.load_value_8 c.bytes ≡ loaded t rest)
      → TurnOf s q n (load_switch config proto complete x c)
  unfolding load_switch
  loaded_turn s q n (loaded t rest) c fit h e read =
      turns t _ fit (omega (arith, h, proto.codec.length-load_8 c.bytes rest t e))
  loaded_turn s q n null c fit h e read =
      let clash = sym e ∙ read.2 in absurd (grind (arith, clash))
  loaded_turn s q n overrun c fit h e read =
      let clash = sym e ∙ read.2 in absurd (grind (arith, clash))

  turn_of :
      (s : ℕ) (q : List (MessageStub D)) (n : ℕ) (x : Part D T)
      → PartOf s q n x
      → TurnOf s q n (next_switch config proto complete x)
  unfolding next_switch
  turn_of s q n _ (stops x h) = closes x h
  turn_of s q n _ (goes c fit h) = elim (Bool-cases (length c.bytes == 0)) [
    | inl e ↦ rw e (closes _ (kept c fit))
    | inr e ↦ rw e (loaded_turn s q n _ c fit h refl (loads c.bytes (ground (arith, e))))
  ]

  round_of :
      (t : ℕ) (c : Consume D T)
      → Multiplexed config c.message_q
      → TurnOf t c.message_q (length c.bytes) (consume_round config proto complete t c)
  unfolding consume_round
  round_of t c fit = elim (Bool-cases (length c.bytes == 0)) [
    | inl e ↦ rw e (closes _ (kept c fit))
    | inr e ↦
        rw e
          (turn_of t _ _ _ (part_of t _ c (switched config proto some_room t c.message_q fit) fit))
  ]

  -- The rounds of the loop that lead from a switch and what is left to a later switch and what is left then.
  pub data Rounds (s : ℕ) (d : Consume D T) : ℕ → Consume D T → Type 0 where
    here : Rounds s d s d
    after :
        (t t' : ℕ) (c c' : Consume D T)
        → consume_round config proto complete t c ≡ next t' c'
        → Rounds s d t' c'
        → Rounds s d t c

  -- How the loop that begins with the switch `t` ends: with such a queue; or its rounds lead to a switch that the queue
  -- of that round does not serve, and it does what is undefined.
  pub data LoopEnds (t : ℕ) (c : Consume D T) : Consumed D T → Type 0 where
    loop_ends : (c' : Consume D T) → Multiplexed config c'.message_q → LoopEnds t c (consumed c')
    unserved :
        (s : ℕ) (d : Consume D T)
        → Rounds s d t c
        → Unserved s d.message_q
        → LoopEnds t c undefined_consume

  loop-LoopEnds :
      (fuel t : ℕ) (c : Consume D T)
      → Multiplexed config c.message_q
      → length c.bytes < fuel
      → LoopEnds t c (consume_loop config proto complete fuel t c)
  unfolding consume_loop
  loop-LoopEnds zero t c fit enough = absurd (omega arith)
  loop-LoopEnds (suc fuel) t c fit enough =
      go_on (consume_round config proto complete t c) refl (round_of t c fit) (loop-LoopEnds fuel)
    where
      led_by :
          (t' : ℕ) (c' : Consume D T) (y : Consumed D T)
          → consume_round config proto complete t c ≡ next t' c'
          → LoopEnds t' c' y
          → LoopEnds t c y
      led_by t' c' _ e (loop_ends d fit') = loop_ends d fit'
      led_by t' c' _ e (unserved s d rounds u) = unserved s d (after t t' c c' e rounds) u

      closing : (y : Consumed D T) → Closing t c.message_q y → LoopEnds t c y
      closing _ (kept d fit') = loop_ends d fit'
      closing _ (undone u) = unserved t c here u

      go_on :
          (x : Turn D T)
          → consume_round config proto complete t c ≡ x
          → TurnOf t c.message_q (length c.bytes) x
          → ((t' : ℕ) (c' : Consume D T)
              → Multiplexed config c'.message_q
              → length c'.bytes < fuel
              → LoopEnds t' c' (consume_loop config proto complete fuel t' c'))
          → LoopEnds t c
              (elim x [ next t' c' ↦ consume_loop config proto complete fuel t' c' | last y ↦ y ])
      go_on _ e (turns t' c' fit' less) later = led_by t' c' _ e (later t' c' fit' (omega arith))
      go_on _ e (closes x h) later = closing x h

  -- The data of a packet, when it is decompressed if need be.
  pub data Unpacked (h : PacketHeader) (bs : List ℕ) : List ℕ → Type 0 where
    plain : is_compressed h ≡ false → Unpacked h bs bs
    unpacks :
        (bs' : List ℕ)
        → is_compressed h ≡ true
        → config.decompress_fnc bs ≡ decompressed bs'
        → Unpacked h bs bs'

  -- How a packet ends: with such a queue; or the rounds that begin with the header's switch on its data lead to one that is
  -- not served.
  pub data Ends (h : PacketHeader) (c : Consume D T) : Consumed D T → Type 0 where
    ends : (c' : Consume D T) → Multiplexed config c'.message_q → Ends h c (consumed c')
    breaks_off :
        (bs : List ℕ) (s : ℕ) (d : Consume D T)
        → Unpacked h c.bytes bs
        → Rounds s d h.type_ (record c { bytes = bs })
        → Unserved s d.message_q
        → Ends h c undefined_consume

  loop-Ends :
      (h : PacketHeader) (c : Consume D T) (bs : List ℕ) (x : Consumed D T)
      → Unpacked h c.bytes bs
      → LoopEnds h.type_ (record c { bytes = bs }) x
      → Ends h c x
  loop-Ends h c bs _ unpack (loop_ends c' fit) = ends c' fit
  loop-Ends h c bs _ unpack (unserved s d rounds u) = breaks_off bs s d unpack rounds u

  -- For a limit of one message at least, a protocol that loads a switch wherever there is a byte, and a queue that has a
  -- front and no more messages than the limit: whatever the data of the packet are, `doConsumePacket` ends, within the
  -- rounds that its number of bytes allows. It leaves a queue that has a front and no more messages than the limit, with
  -- or without an error. It does what is undefined only if its rounds lead to a switch that the queue of that round does
  -- not serve: one to an old message, or to go on with the front, where the message is missing or has no deserializer;
  -- or one to an old message that is canceled, where the message is missing. A switch to a new message, one to the
  -- canceled front and one of a type that is not known are never undefined.
  pub do_consume_packet-Multiplexed :
      (h : PacketHeader) (c : Consume D T)
      → Multiplexed config c.message_q
      → Ends h c (do_consume_packet config proto complete h c)
  unfolding do_consume_packet consume_decompressed consume_data
  do_consume_packet-Multiplexed h c fit = elim (Bool-cases (is_compressed h)) [
    | inr e ↦ rw e (loop-Ends h c c.bytes _ (plain e) (loop-LoopEnds _ _ c fit (omega arith)))
    | inl e ↦ rw e (unpacked e (config.decompress_fnc c.bytes) refl)
  ]
    where
      unpacked :
          is_compressed h ≡ true
          → (x : Decompression) → config.decompress_fnc c.bytes ≡ x
          → Ends h c (consume_decompressed config proto complete h x c)
      unpacked on (decompress_failed e) same = ends _ fit
      unpacked on (decompressed bs) same = by_error c.rerror
        where
          by_error :
              (x : Option ℕ)
              → Ends h c (elim x [
                | none ↦ consume_data config proto complete h (record c { bytes = bs })
                | some e ↦ consumed c
              ])
          by_error none =
              loop-Ends h c bs _ (unpacks bs on same) (loop-LoopEnds _ _ _ fit (omega arith))
          by_error (some e) = ends _ fit
