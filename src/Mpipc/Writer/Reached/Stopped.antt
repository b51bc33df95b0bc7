-- ===== src/Mpipc/Writer/Reached/Stopped.antt =====
-- `cancel` of mpipcmessagewriter.cpp, of a message that is being sent: the writer stays fit for sending.
use solidframe.Prelude.{
  ℕ, ◌≡◌, ◌≢◌, ◌⊎◌, sym, subst, ap, ◌∙◌, true, false, Bool-cases, inl, inr, some, List, [], ◌∷◌,
  ◌++◌, ◌==◌, arith,
}
use solidframe.Utility.InnerList.Chain.{NotIn, append-NotIn, Apart-cons, Distinct-append}
use solidframe.Mpipc.Protocol.{Protocol}
use solidframe.Mpipc.Writer.{MessageWriter, MessageStub, set_stub, order_erase}
use solidframe.Mpipc.Writer.Lists.{set_stub_self, set_stub_ne, set_stub-Holds}
use solidframe.Mpipc.Writer.Cancel.{detached, detached-Holds}
use solidframe.Mpipc.Writer.Send.Live.{In, In-split, Live, AllLive, Idle-change, Sending}
use solidframe.Mpipc.Writer.Send.Measured.{Pending, Working}
use solidframe.Mpipc.Writer.Send.Rounds.{Ready, Live-remove}

In-cases : (i : ℕ) (xs : List ℕ) → In i xs ⊎ NotIn i xs
In-cases i [] = inr tt
In-cases i (x ∷ xs) = elim (Bool-cases (i == x)) [
  | inl t ↦ inl (inl (ground arith))
  | inr t ↦ elim (In-cases i xs) [
    | inl m ↦ inl (inr m)
    | inr n ↦ inr ((λ e. absurd (ground (arith, e))), n)
  ]
]

In-clash : (i : ℕ) (xs : List ℕ) → In i xs → NotIn i xs → ⊥
In-clash i [] m n = m
In-clash i (x ∷ xs) (inl e) n = n.0 e
In-clash i (x ∷ xs) (inr m) n = In-clash i xs m n.1

module _ {S : Type 0} where
  AllLive-In :
      (m : ℕ → MessageStub S) (os ws : List ℕ) (i : ℕ) → AllLive m os ws → In i ws → Live m os i
  AllLive-In m os [] i a k = absurd k
  AllLive-In m os (x ∷ ws) i (l, a) (inl e) = subst (Live m os) (sym e) l
  AllLive-In m os (x ∷ ws) i (l, a) (inr k) = AllLive-In m os ws i a k

  AllLive-map :
      (m m' : ℕ → MessageStub S) (os os' ws : List ℕ)
      → ((j : ℕ) → Live m os j → Live m' os' j)
      → AllLive m os ws
      → AllLive m' os' ws
  AllLive-map m m' os os' [] f a = tt
  AllLive-map m m' os os' (j ∷ ws) f (l, a) = (f j l, AllLive-map m m' os os' ws f a)

  -- The writer after `do_cancel` of a message whose serializer is `s`.
  abbrev pub stopped : (S → S) → ℕ → S → MessageWriter S → MessageWriter S
  stopped clear i s w =
      set_stub i (record ((detached i w).stubs i) { serializer_ptr = some (clear s) })
        (detached i w)

  module _ (clear : S → S) (i : ℕ) (s : S) (w : MessageWriter S) where
    stopped_others : (j : ℕ) → j ≢ i → (stopped clear i s w).stubs j ≡ w.stubs j
    unfolding order_erase
    stopped_others j ne = set_stub_ne i j _ (detached i w) ne ∙ set_stub_ne i j _ w ne

    stopped_mark : ((stopped clear i s w).stubs i).msgbundle.message_flags.canceled ≡ true
    unfolding order_erase
    stopped_mark =
        ap (λ (m : MessageStub S). m.msgbundle.message_flags.canceled)
          (set_stub_self i (record ((detached i w).stubs i) { serializer_ptr = some (clear s) })
            (detached i w))
        ∙ ap (λ (m : MessageStub S). m.msgbundle.message_flags.canceled) (set_stub_self i _ w)

    stopped-Sending :
        (o1 o2 ws cs : List ℕ) (d : ℕ)
        → In i ws
        → Sending w (o1 ++ i ∷ o2) ws cs d
        → Sending (stopped clear i s w) (o1 ++ o2) ws cs d
    stopped-Sending o1 o2 ws cs d k q =
        let w' = stopped clear i s w in
        let (d1, d2, apart) = Distinct-append o1 (i ∷ o2) q.holds.order.distinct in
        let gone = append-NotIn i o1 o2 (Apart-cons i o1 o2 apart).0 d2.0 in
        record {
          holds =
              set_stub-Holds i _ (detached i w) (o1 ++ o2) ws cs
                (detached-Holds i w o1 o2 ws cs q.holds);
          live =
              AllLive-map w.stubs w'.stubs (o1 ++ i ∷ o2) (o1 ++ o2) ws
                (λ j l. elim (Bool-cases (j == i)) [
                  | inl t ↦
                      let same : i ≡ j = ground arith in
                      subst (Live w'.stubs (o1 ++ o2)) same (inl (stopped_mark, gone))
                  | inr t ↦
                      let ne : j ≢ i = ground arith in
                      subst (λ t. Live (λ _. t) (o1 ++ o2) j) (sym (stopped_others j ne))
                        (Live-remove w.stubs i j o1 o2 ne l)
                ])
                q.live;
          idle =
              Idle-change w.stubs w'.stubs ws ws i q.idle stopped_others (λ j ne n. n)
                (λ n. absurd (In-clash i ws k n));
          synchronous = unfold order_erase set_stub in q.synchronous;
        }

    pub stopped-Ready :
        (n : ℕ)
        → (w.stubs i).serializer_ptr ≡ some s
        → (w.stubs i).msgbundle.message_flags.canceled ≡ false
        → Ready w n
        → Ready (stopped clear i s w) n
    stopped-Ready n busy plain r = elim (In-cases i r.ws) [
      | inr away ↦ absurd (grind (arith, busy, r.sending.idle i away))
      | inl k ↦ elim (AllLive-In w.stubs r.os r.ws i r.sending.live k) [
        | inl (marked, away) ↦ absurd (grind (arith, marked, plain))
        | inr (e, member, some_object) ↦
            let (o1, o2, split) = In-split i r.os member in
            record {
              os = o1 ++ o2;
              ws = r.ws;
              cs = r.cs;
              d = r.d;
              sending =
                  stopped-Sending o1 o2 r.ws r.cs r.d k
                    (subst (λ t. Sending w t r.ws r.cs r.d) split r.sending);
              bounded = r.bounded;
            }
      ]
    ]

    pub stopped-Working :
        (proto : Protocol S) (n : ℕ) → Working proto n w → Working proto n (stopped clear i s w)
    stopped-Working proto n working g j = elim (Bool-cases (j == i)) [
      | inl t ↦
          let same : i ≡ j = ground arith in
          subst (λ k. Pending proto ((stopped clear i s w).stubs k)) same
            (λ plain. absurd (grind (arith, plain, stopped_mark)))
      | inr t ↦ subst (Pending proto) (sym (stopped_others j (ground arith))) (working g j)
    ]
