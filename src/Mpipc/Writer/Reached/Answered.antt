-- ===== src/Mpipc/Writer/Reached/Answered.antt =====
-- `cancel` of mpipcmessagewriter.cpp, of a message that waits for its response: the writer stays fit for sending.
use solidframe.Prelude.{
  ℕ, ◌≡◌, ◌≢◌, sym, subst, ap, ◌∙◌, Bool-cases, inl, inr, none, List, [], ◌∷◌, ◌++◌, ◌==◌, arith,
}
use solidframe.Utility.InnerList.Chain.{
  NotIn, IsList, append-NotIn, Apart-cons, Apart-append, Distinct-append, Below-append,
}
use solidframe.Mpipc.Protocol.{Protocol}
use solidframe.Mpipc.Writer.{
  MessageWriter, MessageStub, cleared_stub, set_stub, order_erase, cache_push_front,
  do_unprepare_message_stub,
}
use solidframe.Mpipc.Writer.Lists.{set_stub_self, set_stub_ne}
use solidframe.Mpipc.Writer.Cancel.{detached, detached-Holds, do_unprepare-Holds}
use solidframe.Mpipc.Writer.Send.Live.{In, In-split, Live, AllLive-change, Idle-change, Sending}
use solidframe.Mpipc.Writer.Send.Measured.{Pending, Pending-none, Working}
use solidframe.Mpipc.Writer.Send.Rounds.{Ready, Live-remove}

module _ {S : Type 0} (i : ℕ) (w : MessageWriter S) where
  -- The message is in the order list, and not in the write list.
  pub record Waits : Type 0 where
    pub ordered : (os : List ℕ) → IsList w.order_links w.order_inner_list os → In i os
    pub outside : (ws : List ℕ) → IsList w.status_links w.write_inner_list ws → NotIn i ws

  -- The writer after `do_cancel` of such a message.
  abbrev pub answered : MessageWriter S
  answered = do_unprepare_message_stub i (detached i w)

  answered_others : (j : ℕ) → j ≢ i → answered.stubs j ≡ w.stubs j
  unfolding do_unprepare_message_stub cache_push_front order_erase
  answered_others j ne = set_stub_ne i j _ (detached i w) ne ∙ set_stub_ne i j _ w ne

  answered_has_none : (answered.stubs i).serializer_ptr ≡ none
  unfolding do_unprepare_message_stub cache_push_front
  answered_has_none =
      let m = cleared_stub ((detached i w).stubs i) in
      ap MessageStub.serializer_ptr (set_stub_self i m (detached i w))

  answered-Sending :
      (o1 o2 ws cs : List ℕ) (d : ℕ)
      → NotIn i ws
      → Sending w (o1 ++ i ∷ o2) ws cs d
      → Sending answered (o1 ++ o2) ws (cs ++ i ∷ []) d
  answered-Sending o1 o2 ws cs d away q =
      let (d1, d2, apart) = Distinct-append o1 (i ∷ o2) q.holds.order.distinct in
      let (b1, b2) = Below-append w.vec_size o1 (i ∷ o2) q.holds.order_below in
      let (a1, a2) = Apart-append o1 (i ∷ o2) cs q.holds.order_apart in
      let gone = append-NotIn i o1 o2 (Apart-cons i o1 o2 apart).0 d2.0 in
      record {
        holds =
            do_unprepare-Holds i (detached i w) (o1 ++ o2) ws cs
              (unfold order_erase set_stub in b2.0) gone away a2.0
              (detached-Holds i w o1 o2 ws cs q.holds);
        live =
            AllLive-change w.stubs answered.stubs (o1 ++ i ∷ o2) (o1 ++ o2) i ws
              (λ j ne l.
                subst (λ t. Live (λ _. t) (o1 ++ o2) j) (sym (answered_others j ne))
                  (Live-remove w.stubs i j o1 o2 ne l))
              away q.live;
        idle =
            Idle-change w.stubs answered.stubs ws ws i q.idle answered_others (λ j ne n. n)
              (λ _. answered_has_none);
        synchronous =
            unfold do_unprepare_message_stub cache_push_front order_erase set_stub in q.synchronous;
      }

  pub answered-Ready : (n : ℕ) → Waits → Ready w n → Ready answered n
  answered-Ready n waits r =
      let (o1, o2, split) = In-split i r.os (waits.ordered r.os r.sending.holds.order) in
      record {
        os = o1 ++ o2;
        ws = r.ws;
        cs = r.cs ++ i ∷ [];
        d = r.d;
        sending =
            answered-Sending o1 o2 r.ws r.cs r.d (waits.outside r.ws r.sending.holds.write)
              (subst (λ t. Sending w t r.ws r.cs r.d) split r.sending);
        bounded = r.bounded;
      }

  pub answered-Working : (proto : Protocol S) (n : ℕ) → Working proto n w → Working proto n answered
  answered-Working proto n working g j = elim (Bool-cases (j == i)) [
    | inl t ↦
        let same : i ≡ j = ground arith in
        subst (λ k. Pending proto (answered.stubs k)) same
          (Pending-none proto (answered.stubs i) answered_has_none)
    | inr t ↦ subst (Pending proto) (sym (answered_others j (ground arith))) (working g j)
  ]
