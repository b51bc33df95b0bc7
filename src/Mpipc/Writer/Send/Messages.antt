-- ===== src/Mpipc/Writer/Send/Messages.antt =====
-- doFillPacket of mpipcmessagewriter.cpp: the round of its loop for the message at the front.
use solidframe.Prelude.{
  ℕ, ◌+◌, ◌-◌, ◌^◌, ◌≤◌, ◌<◌, ◌≡◌, ◌≢◌, refl, sym, ap, subst, true, Bool-cases, Option-cases, inl,
  inr, Option, none, List, [], ◌∷◌, ◌++◌, ltb, arith,
}
use solidframe.Prelude.Lists.{length}
use solidframe.Utility.InnerList.{invalid_index}
use solidframe.Mpipc.Message.{MessageBundle, MessageId}
use solidframe.Mpipc.Protocol.{MessageObject, Protocol}
use solidframe.Mpipc.Writer.{WriterConfiguration, MessageWriter}
use solidframe.Mpipc.Writer.Send.{
  Fill, PacketOptions, take_synchronous, must_wait, prepare, announce, drop_canceled, send_message,
  message_round,
}
use solidframe.Mpipc.Writer.Send.Measured.{
  Measured, Working, AllPending, rotate-Pending, drop-Pending,
}
use solidframe.Mpipc.Writer.Send.Live.{Sending, AllLive-append, Synchronous-rotate}
use solidframe.Mpipc.Writer.Send.Turns.{rotate-Sending}
use solidframe.Mpipc.Writer.Send.Rounds.{Ready, widened, dropped-Ready}
use solidframe.Mpipc.Writer.Send.Outcomes.{
  Room, Calm, Outcome, advances, rotates, breaks, Room-same,
}
use solidframe.Mpipc.Writer.Send.Prepare.{took, prepared, prepared_Pending, announced, known}
use solidframe.Mpipc.Writer.Send.Settle.{serialize-Outcome}

module _ {S T : Type 0} (proto : Protocol S) (config : WriterConfiguration)
    (complete : MessageBundle → MessageId → T → Option ℕ × T) (objects : ℕ → MessageObject)
    (cap : ℕ) where
  module _ (n : ℕ) (f0 : Fill S T) (r0 : Ready f0.writer n) (i : ℕ) (os us cs : List ℕ)
      (count : length r0.ws ≡ length us + 1) where
    -- The switches do not take more than the room that `freesz` may be too much.
    overflows :
        (f : Fill S T)
        → ltb cap (length f.bytes) ≡ true
        → length f.bytes + f.freesz ≤ cap + (f.packet_message_count - 1)
        → 1 ≤ f.packet_message_count
        → (slack : ℕ)
        → (f.packet_message_count + length us + slack ≤ proto.minimum_free_packet_data_size)
          × (proto.minimum_free_packet_data_size ≤ f.freesz)
        → ⊥
    overflows f e balance one slack (few, least) = ground (arith, few, least)

    send-Outcome :
        (f : Fill S T) {d : ℕ}
        → f.freesz ≡ f0.freesz
        → cap ≤ length f.bytes + f.freesz
        → length f.bytes + f.freesz ≤ cap + (f.packet_message_count - 1)
        → f.freesz < 2 ^ 32
        → 1 ≤ f.options.packet_type
        → f.options.packet_type ≤ 5
        → Sending f.writer os (us ++ i ∷ []) cs d
        → (f.writer.stubs i).serializer_ptr ≢ none
        → 1 ≤ f.packet_message_count
        → ((g : Measured proto n)
            → (f.packet_message_count + length us + g.slack ≤ proto.minimum_free_packet_data_size)
              × (proto.minimum_free_packet_data_size ≤ f.freesz))
        → Working proto n f.writer
        → Outcome proto config complete objects cap n f0 r0
            (send_message proto config complete objects cap i f)
    unfolding send_message drop_canceled
    send-Outcome f {d = d} same free balance small low high sending ready one few pending =
        let stub = f.writer.stubs i in
        let alive = (AllLive-append f.writer.stubs os us (i ∷ []) sending.live).1.0 in
        elim (Bool-cases (ltb cap (length f.bytes))) [
          | inl e ↦ rw e (breaks (λ g. overflows f e balance one g.slack (few g)))
          | inr e ↦
              let room : Room proto config complete objects cap f = record {
                inside = ground arith;
                free = free;
                small = small;
                balance = balance;
                type_low = low;
                type_high = high;
              } in
              elim alive [
                | inl (t, n) ↦
                    let r = dropped-Ready f.writer i us cs os sending n in
                    rw (e, t)
                      (advances _ (widened _ (omega (arith, count, r0.bounded)) r)
                        (Room-same proto config complete objects cap f _ refl refl refl refl room)
                        (omega (arith, same, count, r.bounded))
                        (λ g. (
                          inl (omega (arith, r.bounded, (few g).0)),
                          drop-Pending proto i f.writer (pending g),
                        )))
                | inr (t, member, some_object) ↦ elim (Option-cases stub.serializer_ptr) [
                  | inl u ↦ absurd (ready u)
                  | inr (s, u) ↦ elim (Option-cases stub.msgbundle.message_ptr) [
                    | inl v ↦ absurd (some_object v)
                    | inr (ptr, v) ↦
                        rw (e, t, u, v)
                          (serialize-Outcome proto config complete objects cap n f0 r0 i os us cs
                            count f s ptr same sending member room one few pending t u)
                  ]
                ]
              ]
        ]

    waits_for :
        (w : MessageWriter S)
        → must_wait proto config complete i w ≡ true
        → (w.current_synchronous_message_idx ≢ invalid_index)
          × (w.current_synchronous_message_idx ≢ i)
    unfolding must_wait
    waits_for w e = ground arith

    pub message-Outcome :
        {d : ℕ}
        → Room proto config complete objects cap f0
        → Sending f0.writer os (us ++ i ∷ []) cs d
        → r0.d ≡ d
        → Calm proto config complete objects cap n f0 (length r0.ws)
        → proto.minimum_free_packet_data_size ≤ f0.freesz
        → Outcome proto config complete objects cap n f0 r0
            (message_round proto config complete objects cap i f0)
    unfolding message_round take_synchronous
    message-Outcome {d = d} room s same calm least =
        elim (Bool-cases (must_wait proto config complete i f0.writer)) [
          | inl e ↦
              let (busy, other) = waits_for f0.writer e in
              let (d', less, sync) =
                Synchronous-rotate f0.writer.current_synchronous_message_idx i us d other busy
                  s.synchronous in
              rw e (
                rotates _
                  (record {
                    os = os;
                    ws = i ∷ us;
                    cs = cs;
                    d = d';
                    sending = rotate-Sending f0.writer i os us cs s sync;
                    bounded = omega (arith, count, r0.bounded);
                  })
                  (Room-same proto config complete objects cap f0 _ refl refl refl refl room) refl
                  (omega (arith, count)) (omega (arith, same, less))
                  (λ g. (
                    ground (arith, (calm g).0, count),
                    rotate-Pending proto i f0.writer (calm g).1,
                  )))
          | inr e ↦
              let (d1, s1) = took proto config complete i os us cs f0 s in
              let f1 = take_synchronous proto config complete i f0 in
              let (s2, bytes2, free2, opts2, count2, ready2) =
                prepared proto config complete i os us cs f1 s1 in
              let (p, q) = known proto config complete i os us cs f1 in
              let f2 = (prepare proto config complete i f1).1 in
              let sw = (prepare proto config complete i f1).0 in
              let low2 : 1 ≤ f2.options.packet_type =
                omega (arith, ap PacketOptions.packet_type opts2, room.type_low) in
              let high2 : f2.options.packet_type ≤ 5 =
                omega (arith, ap PacketOptions.packet_type opts2, room.type_high) in
              let (w3, free3, bytes3, count3, more3, low3, high3) =
                announced proto config complete i os us cs sw f2 p q low2 high2 in
              rw e (
                send-Outcome (announce proto config complete sw f2) (omega (arith, free3, free2))
                  (omega (arith, ap length bytes2, bytes3, free3, free2, room.free))
                  (omega (
                    arith,
                    ap length bytes2,
                    bytes3,
                    free3,
                    free2,
                    count3,
                    count2,
                    more3,
                    room.balance,
                  ))
                  (omega (arith, free3, free2, room.small)) low3 high3
                  (subst (λ t. Sending t os (us ++ i ∷ []) cs d1) (sym w3) s2)
                  (subst (λ t. (t.stubs i).serializer_ptr ≢ none) (sym w3) ready2)
                  (omega (arith, count3))
                  (λ g. (
                    ground (arith, (calm g).0, count, count2, count3, least),
                    omega (arith, free3, free2, least),
                  ))
                  (λ g.
                    subst (AllPending proto) (sym w3)
                      (prepared_Pending proto config complete i os us cs n f1 g (calm g).1)))
        ]
