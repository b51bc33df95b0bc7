-- ===== src/Mpipc/Writer/Send/Settle.antt =====
-- doFillPacket of mpipcmessagewriter.cpp: the end of a serialization.
use solidframe.Prelude.{
  ℕ, ◌+◌, ◌-◌, ◌%◌, ◌^◌, ◌≤◌, ◌<◌, ◌≡◌, refl, ap, subst, ◌⊎◌, Bool, true, false, Bool-cases,
  Option-cases, inl, inr, Option, some, List, [], ◌∷◌, ◌++◌, ◌==◌, if◌then◌else◌, arith,
}
use solidframe.Prelude.Lists.{length, length-append}
use solidframe.Mpipc.Message.{MessageBundle, MessageId}
use solidframe.Mpipc.Protocol.{MessageObject, Run, Protocol}
use solidframe.Mpipc.Writer.{WriterConfiguration, MessageWriter, MessageStub}
use solidframe.Mpipc.Writer.Send.{
  Fill, ran, settle, context_of, serialize_message, do_try_complete_message_after_serialization,
}
use solidframe.Mpipc.Writer.Lists.{set_stub_self}
use solidframe.Mpipc.Writer.Send.Measured.{
  Measured, Working, OthersPending, others, complete-Pending,
}
use solidframe.Mpipc.Writer.Send.Live.{In, Sending}
use solidframe.Mpipc.Writer.Send.Rounds.{Ready, tightened, retouch-Sending}
use solidframe.Mpipc.Writer.Send.Complete.{complete_same_buffer, complete-Ready}
use solidframe.Mpipc.Writer.Send.Outcomes.{Room, Outcome, advances, ends, fails, Room-same}

module _ {S T : Type 0} (proto : Protocol S) (config : WriterConfiguration)
    (complete : MessageBundle → MessageId → T → Option ℕ × T) (objects : ℕ → MessageObject)
    (cap : ℕ) where
  module _ (n : ℕ) (f0 : Fill S T) (r0 : Ready f0.writer n) (i : ℕ) (os us cs : List ℕ)
      (count : length r0.ws ≡ length us + 1) where
    abbrev pub here : (w : MessageWriter S) {d : ℕ} → Sending w os (us ++ i ∷ []) cs d → Ready w n
    here w {d = d} sending = record {
      os = os;
      ws = us ++ i ∷ [];
      cs = cs;
      d = d;
      sending = sending;
      bounded = omega (arith, length-append us (i ∷ []), count, r0.bounded);
    }

    at_most : (b : Bool) (k : ℕ) → k ≤ (if b then length us else length us + 1) → k ≤ length us + 1
    at_most true k h = omega (arith, h)
    at_most false k h = h

    -- A message that is done is one less, one that is not has filled the buffer.
    settle-Calm :
        (r : Run S) (f f1 : Fill S T) (k : ℕ)
        → f1.freesz ≡ f.freesz
        → f1.packet_message_count ≡ f.packet_message_count
        → k ≤ (if proto.is_empty r.serializer then length us else length us + 1)
        → ((g : Measured proto n)
            → f.packet_message_count + length us + g.slack ≤ proto.minimum_free_packet_data_size)
        → (Measured proto n
            → proto.is_empty r.serializer ≡ false
            → f.freesz < proto.minimum_free_packet_data_size)
        → (g : Measured proto n)
        → (f1.packet_message_count + k + g.slack ≤ proto.minimum_free_packet_data_size)
          ⊎ (f1.freesz < proto.minimum_free_packet_data_size)
    settle-Calm r f f1 k free switches bound few full g =
        elim (Bool-cases (proto.is_empty r.serializer)) [
          | inl e ↦
              let fewer : k ≤ length us =
                subst (λ b. k ≤ (if b then length us else length us + 1)) e bound in
              inl (omega (arith, switches, fewer, few g))
          | inr e ↦ inr (omega (arith, free, full g e))
        ]

    settle-Outcome :
        (r : Run S) (f : Fill S T) {d : ℕ}
        → f.freesz + length r.bytes ≡ f0.freesz
        → Sending f.writer os (us ++ i ∷ []) cs d
        → In i os
        → Room proto config complete objects cap f
        → length r.bytes ≤ length f.bytes
        → ((g : Measured proto n)
            → f.packet_message_count + length us + g.slack ≤ proto.minimum_free_packet_data_size)
        → (Measured proto n → 1 ≤ length r.bytes)
        → (Measured proto n → OthersPending proto i f.writer)
        → (f.writer.stubs i).serializer_ptr ≡ some r.serializer
        → (Measured proto n
            → proto.is_empty r.serializer ≡ false
            → f.freesz < proto.minimum_free_packet_data_size)
        → Outcome proto config complete objects cap n f0 r0
            (settle proto config complete objects cap i r f)
    unfolding settle
    settle-Outcome r f less sending member room grown few wrote pending mine full =
        elim (Bool-cases (length r.bytes == 0)) [
          | inl e ↦ rw e (
              fails (record f { rerror = proto.error r.serializer }) (here f.writer sending)
                (Room-same proto config complete objects cap f _ refl refl refl refl room)
                (λ g. ground (arith, e, wrote g)))
          | inr e ↦
              let f1 =
                do_try_complete_message_after_serialization proto config complete i r.serializer
                  f in
              let (bytes, free, opts, switches) =
                complete_same_buffer proto config complete i r.serializer f in
              let ready =
                complete-Ready proto config complete i r.serializer f os us cs sending member in
              let least : length ready.ws ≤ length us + 1 =
                at_most (proto.is_empty r.serializer) _ ready.bounded in
              let fits : length ready.ws ≤ n = omega (arith, count, r0.bounded, least) in
              let unfinished : Working proto n f1.writer =
                λ g. complete-Pending proto config complete i r.serializer f (pending g) mine in
              let some_bytes : 0 < length r.bytes = ground arith in
              elim (Option-cases f1.rerror) [
                | inl t ↦
                    rw (e, t)
                      (advances f1 (tightened f1.writer ready fits)
                        (Room-same proto config complete objects cap f f1 bytes free opts switches
                          room)
                        (omega (arith, free, less, count, least))
                        (λ g. (
                          settle-Calm r f f1 _ free switches ready.bounded few full g,
                          unfinished g,
                        )))
                | inr (x, t) ↦
                    rw (e, t)
                      (ends f1 (tightened f1.writer ready fits)
                        (Room-same proto config complete objects cap f f1 bytes free opts switches
                          room)
                        unfinished (λ _. inl (omega (arith, ap length bytes, grown, some_bytes))))
              ]
        ]

    pub serialize-Outcome :
        (f : Fill S T) {d : ℕ} (s : S) (ptr : ℕ)
        → f.freesz ≡ f0.freesz
        → Sending f.writer os (us ++ i ∷ []) cs d
        → In i os
        → Room proto config complete objects cap f
        → 1 ≤ f.packet_message_count
        → ((g : Measured proto n)
            → (f.packet_message_count + length us + g.slack ≤ proto.minimum_free_packet_data_size)
              × (proto.minimum_free_packet_data_size ≤ f.freesz))
        → Working proto n f.writer
        → (f.writer.stubs i).msgbundle.message_flags.canceled ≡ false
        → (f.writer.stubs i).serializer_ptr ≡ some s
        → Outcome proto config complete objects cap n f0 r0
            (serialize_message proto config complete objects cap i s ptr f)
    unfolding serialize_message ran
    serialize-Outcome f s ptr same sending member room one few pending plain mine =
        let ctx = context_of proto config complete i (f.writer.stubs i).unique (objects ptr) in
        let r = proto.run s ctx (cap - length f.bytes) in
        let fits = proto.run_fits s ctx (cap - length f.bytes) in
        let left : (f.freesz + 2 ^ 32 - length r.bytes) % 2 ^ 32 ≡ f.freesz - length r.bytes =
          omega (arith, fits, room.small, room.free, room.inside) in
        let busy : Measured proto n → proto.is_empty s ≡ false = λ g. pending g i plain s mine in
        let stub = f.writer.stubs i in
        let next = record stub { serializer_ptr = some r.serializer } in
        settle-Outcome r (ran proto config complete i r (record f { ctx = ctx }))
          (omega (arith, left, fits, same, room.free, room.inside))
          (retouch-Sending i _ f.writer os us cs (refl, refl) sending) member
          (record {
            inside = omega (arith, length-append f.bytes r.bytes, fits, room.inside);
            free = omega (arith, length-append f.bytes r.bytes, left, fits, room.free, room.inside);
            small = omega (arith, left, room.small);
            balance = omega (
              arith,
              length-append f.bytes r.bytes,
              left,
              fits,
              room.free,
              room.inside,
              room.balance,
            );
            type_low = room.type_low;
            type_high = room.type_high;
          })
          (omega (arith, length-append f.bytes r.bytes)) (λ g. (few g).0)
          (λ g.
            g.works s ctx (cap - length f.bytes) (busy g)
              (omega (arith, room.balance, (few g).0, (few g).1, one)))
          (λ g. others proto i next f.writer (λ j ne. pending g j))
          (ap MessageStub.serializer_ptr (set_stub_self i next f.writer))
          (λ g more. omega (
            arith,
            left,
            (few g).0,
            one,
            room.balance,
            room.inside,
            g.fills s ctx (cap - length f.bytes) (busy g) more,
          ))
