-- ===== src/Mpipc/Writer/Send/Measured.antt =====
-- What doFillPacket of mpipcmessagewriter.cpp needs of a protocol and its serializers to do nothing undefined, and the
-- serializers of the messages that are being sent.
use solidframe.Prelude.{
  ℕ, ◌+◌, ◌≤◌, ◌<◌, ◌≡◌, ◌≢◌, ◌∙◌, refl, sym, subst, ap, Bool, true, false, not, if◌then◌else◌,
  Bool-cases, inl, inr, Option, none, some, ◌==◌, leb, arith,
}
use solidframe.Prelude.Lists.{length}
use solidframe.Mpipc.Message.{MessageBundle, MessageId, moved}
use solidframe.Mpipc.Protocol.{Context, Protocol}
use solidframe.Mpipc.Writer.{
  WriterConfiguration, cleared_stub, MessageStub, MessageWriter, set_stub, order_erase, write_erase,
  write_push_back, write_pop_front, cache_push_front, do_unprepare_message_stub,
}
use solidframe.Mpipc.Writer.Lists.{set_stub_self, set_stub_ne}
use solidframe.Mpipc.Writer.Send.{
  Fill, done_bundle, waiting_bundle, started_bundle, new_serializer, release_synchronous, rotate,
  prepare_by, do_try_complete_message_after_serialization,
}

module _ {S : Type 0} (proto : Protocol S) where
  -- A serializer that a message was pushed to is not done; one that is not done writes something, if there is more
  -- room than `slack`, and if it is not done after that, it has left `slack` bytes of the room at most. The messages and
  -- `slack` are no more than `minimumFreePacketDataSize`. (The fields of serialization_v1 fill the room, with a `slack` of
  -- 0; for a stream it writes nothing into less than 16 bytes.)
  pub record Measured (n : ℕ) : Type 0 where
    pub slack : ℕ
    pub few : n + slack ≤ proto.minimum_free_packet_data_size
    pub pushes : (s : S) (ptr : Option ℕ) (id : ℕ) → proto.is_empty (proto.push s ptr id) ≡ false
    pub works :
        (s : S) (ctx : Context) (k : ℕ)
        → proto.is_empty s ≡ false
        → slack < k
        → 1 ≤ length ((proto.run s ctx k).bytes)
    pub fills :
        (s : S) (ctx : Context) (k : ℕ)
        → proto.is_empty s ≡ false
        → proto.is_empty ((proto.run s ctx k).serializer) ≡ false
        → k ≤ length ((proto.run s ctx k).bytes) + slack

  -- The serializer of a message that is not canceled is not done.
  abbrev pub Pending : MessageStub S → Type 0
  Pending m =
      m.msgbundle.message_flags.canceled ≡ false
      → (s : S) → m.serializer_ptr ≡ some s
      → proto.is_empty s ≡ false

  abbrev pub AllPending : MessageWriter S → Type 0
  AllPending w = (j : ℕ) → Pending (w.stubs j)

  -- With such serializers and `n` messages at most, those that are being sent are not done.
  abbrev pub Working : ℕ → MessageWriter S → Type 0
  Working n w = Measured n → AllPending w

  -- The same of all stubs but one.
  abbrev pub OthersPending : ℕ → MessageWriter S → Type 0
  OthersPending i w = (j : ℕ) → j ≢ i → Pending (w.stubs j)

  pub Pending-none : (m : MessageStub S) → m.serializer_ptr ≡ none → Pending m
  Pending-none m e plain s e' = absurd (grind (arith, e, e'))

  Pending-some :
      (m : MessageStub S) (s : S) → m.serializer_ptr ≡ some s → proto.is_empty s ≡ false → Pending m
  Pending-some m s e h plain s' e' =
      let same : s ≡ s' = grind (arith, e, e') in subst (λ t. proto.is_empty t ≡ false) same h

  pub others :
      (i : ℕ) (m : MessageStub S) (w : MessageWriter S)
      → OthersPending i w
      → OthersPending i (set_stub i m w)
  others i m w p j ne = subst Pending (sym (set_stub_ne i j m w ne)) (p j ne)

  pub set_stub-Pending :
      (i : ℕ) (m : MessageStub S) (w : MessageWriter S)
      → OthersPending i w
      → Pending m
      → AllPending (set_stub i m w)
  set_stub-Pending i m w p here j = elim (Bool-cases (j == i)) [
    | inl t ↦
        let same : j ≡ i = ground arith in
        subst Pending (sym (set_stub_self i m w) ∙ ap (set_stub i m w).stubs (sym same)) here
    | inr t ↦ others i m w p j (ground arith)
  ]

  -- The operations on the lists do not touch the stubs.
  pub rotate-Pending : (i : ℕ) (w : MessageWriter S) → AllPending w → AllPending (rotate i w)
  unfolding rotate write_push_back write_pop_front
  rotate-Pending i w p = p

  unprepare-Pending :
      (i : ℕ) (w : MessageWriter S) → OthersPending i w → AllPending (do_unprepare_message_stub i w)
  unfolding do_unprepare_message_stub cache_push_front
  unprepare-Pending i w p =
      let m = cleared_stub (w.stubs i) in set_stub-Pending i m w p (Pending-none m refl)

  pub drop-Pending :
      (i : ℕ) (w : MessageWriter S)
      → AllPending w
      → AllPending (release_synchronous i (do_unprepare_message_stub i (write_erase i w)))
  unfolding release_synchronous write_erase
  drop-Pending i w p = unprepare-Pending i (write_erase i w) (λ j ne. p j)

  -- A new message has a serializer that it was pushed to.
  pub prepare-Pending :
      (x : Option S) (i n : ℕ) (w : MessageWriter S) (tmp : Option S)
      → Measured n
      → AllPending w
      → AllPending (prepare_by proto x i w tmp).1
  unfolding prepare_by
  prepare-Pending none i n w tmp g p =
      let stub = w.stubs i in
      let b = started_bundle stub.msgbundle in
      let s = proto.reset (new_serializer proto tmp) in
      let x = proto.push s b.message_ptr b.message_type_id in
      let m = record stub { msgbundle = b; serializer_ptr = some x } in
      set_stub-Pending i m w (λ j ne. p j)
        (Pending-some m x refl (g.pushes s b.message_ptr b.message_type_id))
  prepare-Pending (some s) i n w tmp g p = p

  module _ {T : Type 0} (config : WriterConfiguration)
      (complete : MessageBundle → MessageId → T → Option ℕ × T) where
    either :
        (b : Bool) (x y : Fill S T)
        → (b ≡ true → AllPending x.writer)
        → (b ≡ false → AllPending y.writer)
        → AllPending (if b then x else y).writer
    either true x y p q = p refl
    either false x y p q = q refl

    -- A serializer that ran stays with its message only if it is not done.
    pub complete-Pending :
        (i : ℕ) (s : S) (f : Fill S T)
        → OthersPending i f.writer
        → (f.writer.stubs i).serializer_ptr ≡ some s
        → AllPending
            (do_try_complete_message_after_serialization proto config complete i s f).writer
    unfolding do_try_complete_message_after_serialization release_synchronous write_pop_front
        order_erase
    complete-Pending i s f p mine =
        let stub = f.writer.stubs i in
        let b = done_bundle stub.msgbundle in
        let w1 = release_synchronous i (write_pop_front f.writer) in
        let waits = record stub { msgbundle = waiting_bundle b; serializer_ptr = none } in
        let finished = record stub { msgbundle = moved b; serializer_ptr = none } in
        let turned = record stub { packet_count = 0 } in
        let kept = record stub { packet_count = stub.packet_count + 1 } in
        let still : (m : MessageStub S)
            → m.serializer_ptr ≡ stub.serializer_ptr
            → proto.is_empty s ≡ false
            → Pending m =
          λ m e' e. Pending-some m s (e' ∙ mine) e in
        either (proto.is_empty s) _ _
          (λ done.
            either (not b.message_flags.wait_response) _ _
              (λ e.
                unprepare-Pending i (order_erase i (set_stub i finished w1))
                  (others i finished w1 p))
              (λ e. set_stub-Pending i waits w1 p (Pending-none waits refl)))
          (λ more.
            elim (Bool-cases
              (leb config.max_message_continuous_packet_count (stub.packet_count + 1))) [
                | inl t ↦ rw t (
                    rotate-Pending i (set_stub i turned f.writer)
                      (set_stub-Pending i turned f.writer p (still turned refl more)))
                | inr t ↦ rw t (set_stub-Pending i kept f.writer p (still kept refl more))
              ])
