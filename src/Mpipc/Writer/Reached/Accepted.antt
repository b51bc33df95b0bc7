-- ===== src/Mpipc/Writer/Reached/Accepted.antt =====
-- `enqueue` of mpipcmessagewriter.cpp: the writer stays fit for sending when it accepts a message.
use solidframe.Prelude.{
  ℕ, ◌+◌, ◌<◌, ◌≡◌, ◌≢◌, refl, sym, subst, ap, ◌∙◌, false, Bool-cases, not, inl, inr, none, List,
  [], ◌∷◌, ◌==◌, arith,
}
use solidframe.Utility.InnerList.{invalid_index}
use solidframe.Utility.InnerList.Chain.{NotIn}
use solidframe.Mpipc.Message.{MessageBundle, MessageId}
use solidframe.Mpipc.Protocol.{Protocol}
use solidframe.Mpipc.Writer.{
  MessageWriter, MessageStub, new_stub, take_index, cache_pop_front, vec_push_back, set_stub,
  order_push_back, write_push_back,
}
use solidframe.Mpipc.Writer.Lists.{set_stub_self}
use solidframe.Mpipc.Writer.Enqueue.{accepted, accepted-Enqueued}
use solidframe.Mpipc.Writer.Send.Live.{Live, AllLive, Idle, Idle-change, Synchronous, free, held}
use solidframe.Mpipc.Writer.Send.Measured.{Measured, Pending, Pending-none, Working}
use solidframe.Mpipc.Writer.Send.Rounds.{Ready}

Synchronous-cons : (c i d : ℕ) (ws : List ℕ) → Synchronous c ws d → Synchronous c (i ∷ ws) d
Synchronous-cons c i _ ws (free e) = free e
Synchronous-cons c i _ ws (held w1 w2 e) = held (i ∷ w1) w2 (ap (λ t. i ∷ t) e)

module _ {S : Type 0} where
  take_index_keeps :
      (w : MessageWriter S)
      → (take_index w).0.current_synchronous_message_idx ≡ w.current_synchronous_message_idx
  unfolding take_index cache_pop_front vec_push_back set_stub
  take_index_keeps w = elim (Bool-cases (not (w.cache_inner_list.size == 0))) [
    | inl e ↦ rw e refl
    | inr e ↦ rw e refl
  ]

  accepted_keeps :
      (b : MessageBundle) (pool_msg_id : MessageId) (w : MessageWriter S)
      → (accepted b pool_msg_id w).0.current_synchronous_message_idx
        ≡ w.current_synchronous_message_idx
  unfolding set_stub order_push_back write_push_back
  accepted_keeps b pool_msg_id w = take_index_keeps w

  Live-cons :
      (m m' : ℕ → MessageStub S) (os : List ℕ) (i j : ℕ)
      → j ≢ i
      → m' j ≡ m j
      → Live m os j
      → Live m' (i ∷ os) j
  Live-cons m m' os i j ne e (inl (c, n)) =
      inl (ap (λ x. x.msgbundle.message_flags.canceled) e ∙ c, (ne, n))
  Live-cons m m' os i j ne e (inr (c, n, some_object)) = inr (
    ap (λ x. x.msgbundle.message_flags.canceled) e ∙ c,
    inr n,
    λ p. some_object (ap (λ x. x.msgbundle.message_ptr) (sym e) ∙ p),
  )

  AllLive-cons :
      (m m' : ℕ → MessageStub S) (os : List ℕ) (i : ℕ) (ws : List ℕ)
      → ((j : ℕ) → j ≢ i → m' j ≡ m j)
      → NotIn i ws
      → AllLive m os ws
      → AllLive m' (i ∷ os) ws
  AllLive-cons m m' os i [] same n l = tt
  AllLive-cons m m' os i (j ∷ ws) same n (one, l) =
      let ne : j ≢ i = λ e. n.0 (sym e) in
      (Live-cons m m' os i j ne (same j ne) one, AllLive-cons m m' os i ws same n.1 l)

  taken_has_none :
      (w : MessageWriter S) (ws : List ℕ)
      → Idle w.stubs ws
      → NotIn (take_index w).1 ws
      → ((take_index w).0.stubs (take_index w).1).serializer_ptr ≡ none
  unfolding take_index cache_pop_front vec_push_back
  taken_has_none w ws idle = elim (Bool-cases (not (w.cache_inner_list.size == 0))) [
    | inl e ↦ rw e (λ n. idle _ n)
    | inr e ↦ rw e (λ n. ap MessageStub.serializer_ptr (set_stub_self w.vec_size new_stub w))
  ]

  -- The message gets no serializer before it is sent.
  accepted_has_none :
      (b : MessageBundle) (pool_msg_id : MessageId) (w : MessageWriter S) (n : ℕ) (r : Ready w n)
      → w.vec_size < invalid_index
      → ((accepted b pool_msg_id w).0.stubs (take_index w).1).serializer_ptr ≡ none
  unfolding order_push_back write_push_back
  accepted_has_none b pool_msg_id w n r room =
      let q = accepted-Enqueued b pool_msg_id w r.os r.ws r.cs room r.sending.holds in
      ap MessageStub.serializer_ptr (set_stub_self (take_index w).1 _ (take_index w).0)
      ∙ taken_has_none w r.ws r.sending.idle q.holds.write.distinct.0

  pub accepted-Working :
      (proto : Protocol S) (b : MessageBundle) (pool_msg_id : MessageId) (w : MessageWriter S)
      (n : ℕ) (r : Ready w n)
      → w.vec_size < invalid_index
      → Working proto n w
      → Working proto (n + 1) (accepted b pool_msg_id w).0
  accepted-Working proto b pool_msg_id w n r room working g j =
      let q = accepted-Enqueued b pool_msg_id w r.os r.ws r.cs room r.sending.holds in
      let i = (take_index w).1 in
      let fewer : Measured proto n = record {
        slack = g.slack;
        few = omega (arith, g.few);
        pushes = g.pushes;
        works = g.works;
        fills = g.fills;
      } in
      elim (Bool-cases (j == i)) [
        | inl t ↦
            let same : i ≡ j = ground arith in
            Pending-none proto ((accepted b pool_msg_id w).0.stubs j) (
              subst (λ k. ((accepted b pool_msg_id w).0.stubs k).serializer_ptr ≡ none) same
                (accepted_has_none b pool_msg_id w n r room))
        | inr t ↦ subst (Pending proto) (sym (q.others j (ground arith))) (working fewer j)
      ]

  pub accepted-Ready :
      (b : MessageBundle) (pool_msg_id : MessageId) (w : MessageWriter S) (n : ℕ)
      → b.message_flags.canceled ≡ false
      → b.message_ptr ≢ none
      → w.vec_size < invalid_index
      → Ready w n
      → Ready (accepted b pool_msg_id w).0 (n + 1)
  accepted-Ready b pool_msg_id w n plain some_object room r =
      let q = accepted-Enqueued b pool_msg_id w r.os r.ws r.cs room r.sending.holds in
      let i = (accepted b pool_msg_id w).1.index in
      let w' = (accepted b pool_msg_id w).0 in
      record {
        os = i ∷ r.os;
        ws = i ∷ r.ws;
        cs = q.rest;
        d = r.d;
        sending = record {
          holds = q.holds;
          live = (
            inr (
              ap (λ x. x.message_flags.canceled) q.bundle ∙ plain,
              inl refl,
              λ p. some_object (ap (λ x. x.message_ptr) (sym q.bundle) ∙ p),
            ),
            AllLive-cons w.stubs w'.stubs r.os i r.ws q.others q.holds.write.distinct.0
                r.sending.live,
          );
          idle =
              Idle-change w.stubs w'.stubs r.ws (i ∷ r.ws) i r.sending.idle q.others (λ j ne n. n.1)
                (λ n. absurd (n.0 refl));
          synchronous =
              subst (λ c. Synchronous c (i ∷ r.ws) r.d) (sym (accepted_keeps b pool_msg_id w))
                (Synchronous-cons _ i r.d r.ws r.sending.synchronous);
        };
        bounded = omega (arith, r.bounded);
      }
