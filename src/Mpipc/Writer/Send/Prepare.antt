-- ===== src/Mpipc/Writer/Send/Prepare.antt =====
-- doFillPacket of mpipcmessagewriter.cpp: what comes before the serialization of the message at the front.
use solidframe.Prelude.{
  ℕ, ◌+◌, ◌-◌, ◌≤◌, ◌≡◌, ◌≢◌, refl, Bool-cases, inl, inr, Option, some, none, List, [], ◌∷◌, ◌++◌,
  ◌==◌, ==_iff, arith,
}
use solidframe.Prelude.Lists.{length, length-append}
use solidframe.Mpipc.Message.{MessageBundle, MessageId}
use solidframe.Mpipc.Protocol.{Protocol}
use solidframe.Mpipc.Writer.{WriterConfiguration, MessageWriter, set_stub}
use solidframe.Mpipc.Writer.Send.{
  Fill, take_synchronous, prepare, prepare_by, announce, do_prepare_message_for_sending,
}
use solidframe.Mpipc.Writer.Send.Measured.{Measured, AllPending, prepare-Pending}
use solidframe.Mpipc.Writer.Send.Live.{held, Sending, current-Holds}
use solidframe.Mpipc.Writer.Send.Rounds.{retouch-Sending}

module _ {S T : Type 0} (proto : Protocol S) (config : WriterConfiguration)
    (complete : MessageBundle → MessageId → T → Option ℕ × T) where
  module _ (i : ℕ) (os us cs : List ℕ) where
    -- The message at the front becomes the current synchronous one, if it is synchronous.
    pub took :
        (f : Fill S T) {d : ℕ}
        → Sending f.writer os (us ++ i ∷ []) cs d
        → (d' : ℕ) × Sending
            (take_synchronous proto config complete i f).writer
            os
            (us ++ i ∷ [])
            cs
            d'
    unfolding take_synchronous
    took f {d = d} s = elim (Bool-cases (f.writer.stubs i).msgbundle.message_flags.synchronous) [
      | inl e ↦ (
        0,
        record {
          holds = current-Holds _ f.writer os (us ++ i ∷ []) cs s.holds;
          live = s.live;
          idle = s.idle;
          synchronous = rw e (held us [] refl);
        },
      )
      | inr e ↦ (
        d,
        record {
          holds = current-Holds _ f.writer os (us ++ i ∷ []) cs s.holds;
          live = s.live;
          idle = s.idle;
          synchronous = rw e s.synchronous;
        },
      )
    ]

    -- The writer may have a new serializer for the message; the buffer is as before.
    prepared_by :
        (x : Option S) (w : MessageWriter S) (tmp : Option S) {d : ℕ}
        → Sending w os (us ++ i ∷ []) cs d
        → Sending (prepare_by proto x i w tmp).1 os (us ++ i ∷ []) cs d
    unfolding prepare_by
    prepared_by none w tmp s = retouch-Sending i _ w os us cs (refl, refl) s
    prepared_by (some x) w tmp s = s

    has_serializer :
        (x : Option S) (w : MessageWriter S) (tmp : Option S)
        → (w.stubs i).serializer_ptr ≡ x
        → ((prepare_by proto x i w tmp).1.stubs i).serializer_ptr ≢ none
    unfolding prepare_by set_stub
    has_serializer none w tmp e = rw ((==_iff i i).1 refl) (λ p. absurd (grind (arith, p)))
    has_serializer (some s) w tmp e = λ p. absurd (grind (arith, p, e))

    pub prepared :
        (f : Fill S T) {d : ℕ}
        → Sending f.writer os (us ++ i ∷ []) cs d
        → Sending (prepare proto config complete i f).1.writer os (us ++ i ∷ []) cs d
          × ((prepare proto config complete i f).1.bytes ≡ f.bytes)
          × ((prepare proto config complete i f).1.freesz ≡ f.freesz)
          × ((prepare proto config complete i f).1.options ≡ f.options)
          × ((prepare proto config complete i f).1.packet_message_count ≡ f.packet_message_count)
          × (((prepare proto config complete i f).1.writer.stubs i).serializer_ptr ≢ none)
    unfolding prepare do_prepare_message_for_sending
    prepared f s = (
      prepared_by (f.writer.stubs i).serializer_ptr f.writer f.tmp_serializer s,
      refl,
      refl,
      refl,
      refl,
      has_serializer (f.writer.stubs i).serializer_ptr f.writer f.tmp_serializer refl,
    )

    pub prepared_Pending :
        (n : ℕ) (f : Fill S T)
        → Measured proto n
        → AllPending proto f.writer
        → AllPending proto (prepare proto config complete i f).1.writer
    unfolding prepare do_prepare_message_for_sending
    prepared_Pending n f g p =
        prepare-Pending proto (f.writer.stubs i).serializer_ptr i n f.writer f.tmp_serializer g p

    -- The switch is one of the five of messages.
    switch_known :
        (x : Option S) (w : MessageWriter S) (tmp : Option S)
        → (1 ≤ (prepare_by proto x i w tmp).0) × ((prepare_by proto x i w tmp).0 ≤ 5)
    unfolding prepare_by
    switch_known none w tmp = omega arith
    switch_known (some s) w tmp = (ground arith, ground arith)

    -- A switch is written, or goes to the header.
    pub announced :
        (msgswitch : ℕ) (f : Fill S T)
        → 1 ≤ msgswitch
        → msgswitch ≤ 5
        → 1 ≤ f.options.packet_type
        → f.options.packet_type ≤ 5
        → let f' = announce proto config complete msgswitch f in
          (f'.writer ≡ f.writer)
          × (f'.freesz ≡ f.freesz)
          × (length f.bytes ≤ length f'.bytes)
          × (f'.packet_message_count ≡ f.packet_message_count + 1)
          × (length f'.bytes + (f.packet_message_count - 1)
              ≤ length f.bytes + f.packet_message_count)
          × (1 ≤ f'.options.packet_type)
          × (f'.options.packet_type ≤ 5)
    unfolding announce
    announced msgswitch f p q low high = elim (Bool-cases (f.packet_message_count == 0)) [
      | inl e ↦ rw e (refl, refl, omega arith, ground arith, ground arith, p, q)
      | inr e ↦ rw e (
        refl,
        refl,
        omega (arith, length-append f.bytes (proto.codec.store_value_8 msgswitch)),
        refl,
        ground (
          arith,
          length-append f.bytes (proto.codec.store_value_8 msgswitch),
          proto.codec.length-store_8 msgswitch,
        ),
        low,
        high,
      )
    ]

    pub known :
        (f : Fill S T)
        → (1 ≤ (prepare proto config complete i f).0) × ((prepare proto config complete i f).0 ≤ 5)
    unfolding prepare do_prepare_message_for_sending
    known f = switch_known (f.writer.stubs i).serializer_ptr f.writer f.tmp_serializer
