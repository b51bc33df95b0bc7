-- ===== src/Mpipc/Reader/Ends.antt =====
-- `doConsumePacket` of mpipcmessagereader.cpp: the loop over the message switches of a packet ends, whatever the data and
-- the queue are.
use solidframe.Prelude.{
  ℕ, zero, suc, ◌≤◌, ◌<◌, ◌≡◌, refl, ap, Bool-cases, Option-cases, inl, inr, Option, none, some,
  List, [], ◌∷◌, ◌==◌, arith,
}
use solidframe.Prelude.Lists.{length, length-drop}
use solidframe.Serialization.BinaryBasic.{Loaded, loaded, null, overrun}
use solidframe.Mpipc.Packet.{PacketHeader, is_compressed}
use solidframe.Mpipc.Protocol.{ReaderProtocol}
use solidframe.Mpipc.Reader.{
  ReaderConfiguration, Decompression, decompressed, decompress_failed, MessageStub, Event, Consume,
  Consumed, consumed, undefined_consume, Switched, running, canceled, refused, undefined_switch,
  Part, go, stop, Turn, next, last, message_switch, run_front, run_message, after_switch,
  load_switch, next_switch, consume_round, consume_loop, consume_data, consume_decompressed,
  do_consume_packet,
}
use solidframe.Mpipc.Reader.LastSwitch.{finish_bytes}

module _ {D T : Type 0} (config : ReaderConfiguration) (proto : ReaderProtocol D T)
    (complete : Event → T → T) where
  -- Not out of fuel.
  pub data Stops : Consumed D T → Type 0 where
    stops_with : (c : Consume D T) → Stops (consumed c)
    stops_undefined : Stops undefined_consume

  data PartStops (n : ℕ) : Part D T → Type 0 where
    goes : (c : Consume D T) → length c.bytes ≤ n → PartStops n (go c)
    stops : (x : Consumed D T) → Stops x → PartStops n (stop x)

  data TurnStops (n : ℕ) : Turn D T → Type 0 where
    turns : (t : ℕ) (c : Consume D T) → length c.bytes < n → TurnStops n (next t c)
    closes : (x : Consumed D T) → Stops x → TurnStops n (last x)

  run_message-PartStops :
      (q : List (MessageStub D)) (c : Consume D T)
      → PartStops (length c.bytes) (run_message config proto complete q c)
  unfolding run_message run_front
  run_message-PartStops [] c = stops _ stops_undefined
  run_message-PartStops (m ∷ q) c = elim (Option-cases m.deserializer_ptr) [
    | inl e ↦ rw e (stops _ stops_undefined)
    | inr (d, e) ↦
        let r = proto.run d c.owner m.message_ptr c.bytes in
        elim (Bool-cases (r.taken == 0)) [
          | inl t ↦ rw (e, t) (stops _ (stops_with _))
          | inr t ↦
              rw (e, t)
                (goes _ (
                  omega (
                    arith,
                    ap length (finish_bytes config proto complete r m q c),
                    length-drop r.taken c.bytes,
                  )))
        ]
  ]

  after_switch-PartStops :
      (x : Switched D) (c : Consume D T)
      → PartStops (length c.bytes) (after_switch config proto complete x c)
  unfolding after_switch
  after_switch-PartStops (running q) c = run_message-PartStops q c
  after_switch-PartStops (canceled q) c = goes _ (omega arith)
  after_switch-PartStops (refused e) c = stops _ (stops_with _)
  after_switch-PartStops undefined_switch c = stops _ stops_undefined

  load_switch-TurnStops :
      (n : ℕ) (x : Loaded) (c : Consume D T)
      → length c.bytes ≤ n
      → proto.codec.load_value_8 c.bytes ≡ x
      → TurnStops n (load_switch config proto complete x c)
  unfolding load_switch
  load_switch-TurnStops n (loaded t rest) c h e =
      turns t _ (omega (arith, h, proto.codec.length-load_8 c.bytes rest t e))
  load_switch-TurnStops n null c h e = closes _ stops_undefined
  load_switch-TurnStops n overrun c h e = closes _ stops_undefined

  next_switch-TurnStops :
      (n : ℕ) (x : Part D T) → PartStops n x → TurnStops n (next_switch config proto complete x)
  unfolding next_switch
  next_switch-TurnStops n _ (stops x h) = closes x h
  next_switch-TurnStops n _ (goes c h) = elim (Bool-cases (length c.bytes == 0)) [
    | inl e ↦ rw e (closes _ (stops_with c))
    | inr e ↦ rw e (load_switch-TurnStops n _ c h refl)
  ]

  consume_round-TurnStops :
      (t : ℕ) (c : Consume D T)
      → TurnStops (length c.bytes) (consume_round config proto complete t c)
  unfolding consume_round
  consume_round-TurnStops t c = elim (Bool-cases (length c.bytes == 0)) [
    | inl e ↦ rw e (closes _ (stops_with c))
    | inr e ↦ rw e (
        next_switch-TurnStops _ _
          (after_switch-PartStops (message_switch config proto t c.message_q) c))
  ]

  consume_loop-Stops :
      (fuel t : ℕ) (c : Consume D T)
      → length c.bytes < fuel
      → Stops (consume_loop config proto complete fuel t c)
  unfolding consume_loop
  consume_loop-Stops zero t c enough = absurd (omega arith)
  consume_loop-Stops (suc fuel) t c enough =
      go_on (consume_round config proto complete t c) (consume_round-TurnStops t c)
        (consume_loop-Stops fuel)
    where
      go_on :
          (x : Turn D T)
          → TurnStops (length c.bytes) x
          → ((t' : ℕ) (c' : Consume D T)
              → length c'.bytes < fuel
              → Stops (consume_loop config proto complete fuel t' c'))
          → Stops
              (elim x [ next t' c' ↦ consume_loop config proto complete fuel t' c' | last y ↦ y ])
      go_on _ (turns t' c' less) later = later t' c' (omega arith)
      go_on _ (closes x h) later = h

  -- `doConsumePacket` ends, whatever the data and the queue are.
  pub do_consume_packet-Stops :
      (h : PacketHeader) (c : Consume D T) → Stops (do_consume_packet config proto complete h c)
  unfolding do_consume_packet consume_decompressed consume_data
  do_consume_packet-Stops h c = elim (Bool-cases (is_compressed h)) [
    | inr e ↦ rw e (consume_loop-Stops _ _ c (omega arith))
    | inl e ↦ rw e (unpacked (config.decompress_fnc c.bytes))
  ]
    where
      by_error :
          (bs : List ℕ) (x : Option ℕ)
          → Stops (elim x [
            | none ↦ consume_data config proto complete h (record c { bytes = bs })
            | some e ↦ consumed c
          ])
      by_error bs none = consume_loop-Stops _ _ _ (omega arith)
      by_error bs (some e) = stops_with _

      unpacked : (x : Decompression) → Stops (consume_decompressed config proto complete h x c)
      unpacked (decompress_failed e) = stops_with _
      unpacked (decompressed bs) = by_error bs c.rerror
