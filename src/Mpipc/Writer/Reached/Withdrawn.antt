-- ===== src/Mpipc/Writer/Reached/Withdrawn.antt =====
-- `cancel` of mpipcmessagewriter.cpp, of a message that waits to be sent and for no response: the writer stays fit
-- for sending.
use solidframe.Prelude.{
  ℕ, ◌≡◌, ◌≢◌, refl, sym, subst, ap, ◌∙◌, Bool-cases, inl, inr, none, List, [], ◌∷◌, ◌++◌, ◌==◌,
  arith,
}
use solidframe.Prelude.Lists.{length, length-append}
use solidframe.Utility.InnerList.Chain.{
  IsList, append-NotIn, NotIn-append, Apart-cons, Apart-append, Distinct-append, Below-append,
}
use solidframe.Mpipc.Protocol.{Protocol}
use solidframe.Mpipc.Writer.{
  MessageWriter, MessageStub, cleared_stub, set_stub, order_erase, write_erase, cache_push_front,
  do_unprepare_message_stub,
}
use solidframe.Mpipc.Writer.Lists.{set_stub_self, set_stub_ne, write_erase-Holds}
use solidframe.Mpipc.Writer.Cancel.{detached, detached-Holds, do_unprepare-Holds}
use solidframe.Mpipc.Writer.Send.Live.{
  In, In-split, In-remove, Live, AllLive, AllLive-append, AllLive-change, Idle-change, Synchronous,
  free, held, Sending,
}
use solidframe.Mpipc.Writer.Send.Measured.{Pending, Pending-none, Working}
use solidframe.Mpipc.Writer.Send.Rounds.{Ready, Live-remove}

In-middle : (c : ℕ) (us vs : List ℕ) → In c (us ++ c ∷ vs)
In-middle c [] vs = inl refl
In-middle c (u ∷ us) vs = inr (In-middle c us vs)

-- Another message than the current one leaves the list.
Synchronous-remove :
    (c i : ℕ) (us vs : List ℕ) {d : ℕ}
    → c ≢ i
    → Synchronous c (us ++ i ∷ vs) d
    → (d' : ℕ) × Synchronous c (us ++ vs) d'
Synchronous-remove c i us vs ne (free e) = (0, free e)
Synchronous-remove c i us vs ne (held w1 w2 e) =
    let there = subst (In c) (sym e) (In-middle c w1 w2) in
    let (a, b, split) = In-split c (us ++ vs) (In-remove c i us vs ne there) in
    (length b, held a b split)

module _ {S : Type 0} where
  append-AllLive :
      (m : ℕ → MessageStub S) (os us vs : List ℕ)
      → AllLive m os us
      → AllLive m os vs
      → AllLive m os (us ++ vs)
  append-AllLive m os [] vs a b = b
  append-AllLive m os (u ∷ us) vs (l, a) b = (l, append-AllLive m os us vs a b)

  module _ (i : ℕ) (w : MessageWriter S) where
    -- The message is in both lists, and not the current synchronous one.
    pub record Waits : Type 0 where
      pub ordered : (os : List ℕ) → IsList w.order_links w.order_inner_list os → In i os
      pub inside : (ws : List ℕ) → IsList w.status_links w.write_inner_list ws → In i ws
      pub not_current : w.current_synchronous_message_idx ≢ i

    -- The writer after `do_cancel` of such a message.
    abbrev pub withdrawn : MessageWriter S
    withdrawn = do_unprepare_message_stub i (write_erase i (detached i w))

    withdrawn_others : (j : ℕ) → j ≢ i → withdrawn.stubs j ≡ w.stubs j
    unfolding do_unprepare_message_stub cache_push_front write_erase order_erase
    withdrawn_others j ne =
        set_stub_ne i j _ (write_erase i (detached i w)) ne ∙ set_stub_ne i j _ w ne

    withdrawn_has_none : (withdrawn.stubs i).serializer_ptr ≡ none
    unfolding do_unprepare_message_stub cache_push_front
    withdrawn_has_none =
        let d = write_erase i (detached i w) in
        let m = cleared_stub (d.stubs i) in ap MessageStub.serializer_ptr (set_stub_self i m d)

    withdrawn-Sending :
        (o1 o2 w1 w2 cs : List ℕ) (d d' : ℕ)
        → Synchronous w.current_synchronous_message_idx (w1 ++ w2) d'
        → Sending w (o1 ++ i ∷ o2) (w1 ++ i ∷ w2) cs d
        → Sending withdrawn (o1 ++ o2) (w1 ++ w2) (cs ++ i ∷ []) d'
    withdrawn-Sending o1 o2 w1 w2 cs d d' sync q =
        let (d1, d2, apart) = Distinct-append o1 (i ∷ o2) q.holds.order.distinct in
        let (e1, e2, apart') = Distinct-append w1 (i ∷ w2) q.holds.write.distinct in
        let (b1, b2) = Below-append w.vec_size o1 (i ∷ o2) q.holds.order_below in
        let (a1, a2) = Apart-append o1 (i ∷ o2) cs q.holds.order_apart in
        let gone = append-NotIn i o1 o2 (Apart-cons i o1 o2 apart).0 d2.0 in
        let out = append-NotIn i w1 w2 (Apart-cons i w1 w2 apart').0 e2.0 in
        let (live1, live2) = AllLive-append w.stubs (o1 ++ i ∷ o2) w1 (i ∷ w2) q.live in
        record {
          holds =
              do_unprepare-Holds i (write_erase i (detached i w)) (o1 ++ o2) (w1 ++ w2) cs
                (unfold order_erase write_erase set_stub in b2.0) gone out a2.0
                (write_erase-Holds i (detached i w) (o1 ++ o2) w1 w2 cs
                  (detached-Holds i w o1 o2 (w1 ++ i ∷ w2) cs q.holds));
          live =
              AllLive-change w.stubs withdrawn.stubs (o1 ++ i ∷ o2) (o1 ++ o2) i (w1 ++ w2)
                (λ j ne l.
                  subst (λ t. Live (λ _. t) (o1 ++ o2) j) (sym (withdrawn_others j ne))
                    (Live-remove w.stubs i j o1 o2 ne l))
                out (append-AllLive w.stubs (o1 ++ i ∷ o2) w1 w2 live1 live2.1);
          idle =
              Idle-change w.stubs withdrawn.stubs (w1 ++ i ∷ w2) (w1 ++ w2) i q.idle
                withdrawn_others
                (λ j ne n.
                  let (l, r) = NotIn-append j w1 w2 n in append-NotIn j w1 (i ∷ w2) l (ne, r))
                (λ _. withdrawn_has_none);
          synchronous =
              unfold do_unprepare_message_stub cache_push_front write_erase order_erase set_stub in
              sync;
        }

    pub withdrawn-Ready : (n : ℕ) → Waits → Ready w n → Ready withdrawn n
    withdrawn-Ready n waits r =
        let (o1, o2, split) = In-split i r.os (waits.ordered r.os r.sending.holds.order) in
        let (w1, w2, split') = In-split i r.ws (waits.inside r.ws r.sending.holds.write) in
        let q1 = subst (λ t. Sending w t r.ws r.cs r.d) split r.sending in
        let q2 : Sending w (o1 ++ i ∷ o2) (w1 ++ i ∷ w2) r.cs r.d =
          subst (λ t. Sending w (o1 ++ i ∷ o2) t r.cs r.d) split' q1 in
        let (d', sync) = Synchronous-remove _ i w1 w2 waits.not_current q2.synchronous in
        record {
          os = o1 ++ o2;
          ws = w1 ++ w2;
          cs = r.cs ++ i ∷ [];
          d = d';
          sending = withdrawn-Sending o1 o2 w1 w2 r.cs r.d d' sync q2;
          bounded =
              omega (
                arith,
                r.bounded,
                ap length split',
                length-append w1 (i ∷ w2),
                length-append w1 w2,
              );
        }

    pub withdrawn-Working :
        (proto : Protocol S) (n : ℕ) → Working proto n w → Working proto n withdrawn
    withdrawn-Working proto n working g j = elim (Bool-cases (j == i)) [
      | inl t ↦
          let same : i ≡ j = ground arith in
          subst (λ k. Pending proto (withdrawn.stubs k)) same
            (Pending-none proto (withdrawn.stubs i) withdrawn_has_none)
      | inr t ↦ subst (Pending proto) (sym (withdrawn_others j (ground arith))) (working g j)
    ]
