-- ===== src/Mpipc/Writer/Send/Complete.antt =====
-- doTryCompleteMessageAfterSerialization of mpipcmessagewriter.cpp: the writer after it.
use solidframe.Prelude.{
  ℕ, ◌+◌, ◌≡◌, refl, Bool-cases, inl, inr, Option, List, [], ◌∷◌, ◌++◌, leb, if◌then◌else◌,
}
use solidframe.Prelude.Lists.{length}
use solidframe.Mpipc.Message.{MessageBundle, MessageId}
use solidframe.Mpipc.Protocol.{Protocol}
use solidframe.Mpipc.Writer.{WriterConfiguration, set_stub}
use solidframe.Mpipc.Writer.Send.{Fill, do_try_complete_message_after_serialization}
use solidframe.Mpipc.Writer.Send.Live.{In, Sending}
use solidframe.Mpipc.Writer.Send.Rounds.{
  Ready, retouch-Sending, finished-Ready, waits-Ready, turned-Ready, retouched-Ready,
}

module _ {S T : Type 0} (proto : Protocol S) (config : WriterConfiguration)
    (complete : MessageBundle → MessageId → T → Option ℕ × T) (i : ℕ) (s : S) (f : Fill S T) where
  abbrev pub after : Fill S T
  after = do_try_complete_message_after_serialization proto config complete i s f

  -- The buffer is left alone.
  pub complete_same_buffer :
      (after.bytes ≡ f.bytes)
      × (after.freesz ≡ f.freesz)
      × (after.options ≡ f.options)
      × (after.packet_message_count ≡ f.packet_message_count)
  unfolding do_try_complete_message_after_serialization
  complete_same_buffer = elim (Bool-cases (proto.is_empty s)) [
    | inl e ↦ elim (Bool-cases (f.writer.stubs i).msgbundle.message_flags.wait_response) [
      | inl t ↦ rw (e, t) (refl, refl, refl, refl)
      | inr t ↦ rw (e, t) (refl, refl, refl, refl)
    ]
    | inr e ↦ rw e (refl, refl, refl, refl)
  ]

  -- The message at the front leaves the write list if it is done, and goes to the list's back or stays if not.
  pub complete-Ready :
      (os us cs : List ℕ) {d : ℕ}
      → Sending f.writer os (us ++ i ∷ []) cs d
      → In i os
      → Ready after.writer (if proto.is_empty s then length us else length us + 1)
  unfolding do_try_complete_message_after_serialization
  complete-Ready os us cs sending member =
      let stub = f.writer.stubs i in
      elim (Bool-cases (proto.is_empty s)) [
        | inl e ↦ elim (Bool-cases stub.msgbundle.message_flags.wait_response) [
          | inl t ↦ rw (e, t) (waits-Ready f.writer i us cs _ os refl sending)
          | inr t ↦ rw (e, t) (finished-Ready f.writer i us cs _ os sending member)
        ]
        | inr e ↦
            elim (Bool-cases
              (leb config.max_message_continuous_packet_count (stub.packet_count + 1))) [
                | inl t ↦
                    rw (e, t)
                      (turned-Ready (set_stub i (record stub { packet_count = 0 }) f.writer) i us cs
                        os (retouch-Sending i _ f.writer os us cs (refl, refl) sending))
                | inr t ↦ rw (e, t) (retouched-Ready f.writer i us cs _ os (refl, refl) sending)
              ]
      ]
