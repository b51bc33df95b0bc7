-- ===== src/Mpipc/Writer/Send/Rounds.antt =====
-- The ways in which the message at the front of the write list has its turn in doFillPacket.
use solidframe.Prelude.{
  ℕ, ◌+◌, ◌≤◌, ◌≡◌, ◌≢◌, refl, sym, ap, subst, ◌∙◌, Bool-cases, inl, inr, none, List, [], ◌∷◌, ◌++◌,
  append-nil, ◌==◌, ==_iff, arith,
}
use solidframe.Prelude.Lists.{length, length-append}
use solidframe.Utility.InnerList.Chain.{NotIn, Apart-cons, Distinct-append, append-NotIn}
use solidframe.Mpipc.Writer.{
  MessageWriter, MessageStub, set_stub, order_erase, write_erase, write_pop_front, cache_push_front,
  do_unprepare_message_stub,
}
use solidframe.Mpipc.Writer.Lists.{
  Holds, set_stub_self, set_stub_ne, set_stub-Holds, order_erase-Holds, write_erase-Holds,
  write_pop_front-Holds,
}
use solidframe.Mpipc.Writer.Send.{release_synchronous, rotate}
use solidframe.Mpipc.Writer.Send.Live.{
  NotIn-self, Idle-change, In, In-split, In-remove, NotIn-remove, SameMark, Live, Sending,
  AllLive-append, AllLive-change, AllLive-frame, Synchronous-leave, Synchronous-turn, current-Holds,
}
use solidframe.Mpipc.Writer.Send.Turns.{leave-Sending, rotate-Sending, front-AtFront}

module _ {S : Type 0} where
  -- The writer is fit for the next round, with at most `n` messages to send.
  pub record Ready (w : MessageWriter S) (n : ℕ) : Type 0 where
    pub os : List ℕ
    pub ws : List ℕ
    pub cs : List ℕ
    pub d : ℕ
    pub sending : Sending w os ws cs d
    pub bounded : length ws ≤ n

  abbrev pub widened : {n m : ℕ} (w : MessageWriter S) → n ≤ m → Ready w n → Ready w m
  widened w h r = record {
    os = r.os;
    ws = r.ws;
    cs = r.cs;
    d = r.d;
    sending = r.sending;
    bounded = omega (arith, h, r.bounded);
  }

  abbrev pub tightened :
      {n m : ℕ} (w : MessageWriter S) (r : Ready w n) → length r.ws ≤ m → Ready w m
  tightened w r h = record {
    os = r.os;
    ws = r.ws;
    cs = r.cs;
    d = r.d;
    sending = r.sending;
    bounded = h;
  }

  marks_kept :
      (i j : ℕ) (m : MessageStub S) (w : MessageWriter S)
      → SameMark m (w.stubs i)
      → SameMark ((set_stub i m w).stubs j) (w.stubs j)
  unfolding set_stub
  marks_kept i j m w e = elim (Bool-cases (j == i)) [
    | inl t ↦ rw t (subst (λ k. SameMark m (w.stubs k)) (sym ((==_iff j i).0 t)) e)
    | inr t ↦ rw t (refl, refl)
  ]

  -- The stub of the message at the front may change, if its object and its mark of a canceled message stay.
  pub retouch-Sending :
      (i : ℕ) (m : MessageStub S) (w : MessageWriter S) (os us cs : List ℕ) {d : ℕ}
      → SameMark m (w.stubs i)
      → Sending w os (us ++ i ∷ []) cs d
      → Sending (set_stub i m w) os (us ++ i ∷ []) cs d
  retouch-Sending i m w os us cs e s =
      let ws = us ++ i ∷ [] in
      record {
        holds = set_stub-Holds i m w os ws cs s.holds;
        live =
            AllLive-frame w.stubs (set_stub i m w).stubs os ws (λ j. marks_kept i j m w e) s.live;
        idle =
            Idle-change w.stubs (set_stub i m w).stubs ws ws i s.idle
              (λ j ne. set_stub_ne i j m w ne) (λ j ne n. n) (λ n. absurd (NotIn-self i us n));
        synchronous = unfold set_stub in s.synchronous;
      }

  -- What is live stays so when another message leaves the order list.
  pub Live-remove :
      (m : ℕ → MessageStub S) (i j : ℕ) (o1 o2 : List ℕ)
      → j ≢ i
      → Live m (o1 ++ i ∷ o2) j
      → Live m (o1 ++ o2) j
  Live-remove m i j o1 o2 ne (inl (e, n)) = inl (e, NotIn-remove j i o1 o2 n)
  Live-remove m i j o1 o2 ne (inr (e, n, p)) = inr (e, In-remove j i o1 o2 ne n, p)

  module _ (w : MessageWriter S) (i : ℕ) (us cs : List ℕ) where
    pop_Holds :
        (os : List ℕ) (m : MessageStub S)
        → Holds w os (us ++ i ∷ []) cs
        → Holds (set_stub i m (release_synchronous i (write_pop_front w))) os us cs
    unfolding release_synchronous
    pop_Holds os m h =
        set_stub-Holds i m _ os us cs
          (current-Holds _ _ os us cs (write_pop_front-Holds i w os us cs h))

    -- A message that is done, and waits for no response.
    pub finished-Ready :
        (m : MessageStub S) (os : List ℕ) {d : ℕ}
        → Sending w os (us ++ i ∷ []) cs d
        → In i os
        → Ready
            (do_unprepare_message_stub i
              (order_erase i (set_stub i m (release_synchronous i (write_pop_front w)))))
            (length us)
    unfolding release_synchronous order_erase set_stub write_pop_front do_unprepare_message_stub
        cache_push_front
    finished-Ready m os {d = d} s member =
        let (o1, o2, e) = In-split i os member in
        let s' : Sending w (o1 ++ i ∷ o2) (us ++ i ∷ []) cs d =
          subst (λ t. Sending w t (us ++ i ∷ []) cs d) e s in
        let w1 = order_erase i (set_stub i m (release_synchronous i (write_pop_front w))) in
        let (d1, d2, apart) = Distinct-append o1 (i ∷ o2) s'.holds.order.distinct in
        let (cs', d', r) =
          leave-Sending w w1 i (o1 ++ i ∷ o2) (o1 ++ o2) us cs s'
            (order_erase-Holds i _ o1 o2 us cs (pop_Holds (o1 ++ i ∷ o2) m s'.holds)) refl
            (append-NotIn i o1 o2 (Apart-cons i o1 o2 apart).0 d2.0)
            (λ j ne l.
              subst (λ t. Live (λ _. t) (o1 ++ o2) j) (sym (set_stub_ne i j m w ne))
                (Live-remove w.stubs i j o1 o2 ne l))
            (λ j ne. set_stub_ne i j m w ne) _ refl in
        record { os = _; ws = us; cs = cs'; d = d'; sending = r; bounded = omega arith }

    -- A message that is done, and stays in the order list for its response.
    pub waits-Ready :
        (m : MessageStub S) (os : List ℕ) {d : ℕ}
        → m.serializer_ptr ≡ none
        → Sending w os (us ++ i ∷ []) cs d
        → Ready (set_stub i m (release_synchronous i (write_pop_front w))) (length us)
    unfolding release_synchronous set_stub write_pop_front
    waits-Ready m os done s =
        let at = front-AtFront w os us cs i s.holds in
        let (d', sync) = Synchronous-leave w.current_synchronous_message_idx i us s.synchronous in
        record {
          os = os;
          ws = us;
          cs = cs;
          d = d';
          sending = record {
            holds = pop_Holds os m s.holds;
            live =
                AllLive-change w.stubs (set_stub i m w).stubs os os i us
                  (λ j ne l. subst (λ t. Live (λ _. t) os j) (sym (set_stub_ne i j m w ne)) l)
                  at.not_write (AllLive-append w.stubs os us (i ∷ []) s.live).0;
            idle =
                Idle-change w.stubs (set_stub i m w).stubs (us ++ i ∷ []) us i s.idle
                  (λ j ne. set_stub_ne i j m w ne) (λ j ne o. append-NotIn j us (i ∷ []) o (ne, tt))
                  (λ _. ap MessageStub.serializer_ptr (set_stub_self i m w) ∙ done);
            synchronous = sync;
          };
          bounded = omega arith;
        }

    -- A message that was canceled.
    pub dropped-Ready :
        (os : List ℕ) {d : ℕ}
        → Sending w os (us ++ i ∷ []) cs d
        → NotIn i os
        → Ready (release_synchronous i (do_unprepare_message_stub i (write_erase i w))) (length us)
    unfolding release_synchronous do_unprepare_message_stub cache_push_front write_erase set_stub
    dropped-Ready os s n =
        let (cs', d', r) =
          leave-Sending w (write_erase i w) i os os us cs s
            (subst (λ t. Holds (write_erase i w) os t cs) (append-nil us)
              (write_erase-Holds i w os us [] cs s.holds))
            refl n (λ j ne l. l) (λ j ne. refl) _ refl in
        record { os = _; ws = us; cs = cs'; d = d'; sending = r; bounded = omega arith }

    -- A message that is not done, and had its packets in a row.
    pub turned-Ready :
        (os : List ℕ) {d : ℕ}
        → Sending w os (us ++ i ∷ []) cs d
        → Ready (rotate i w) (length us + 1)
    turned-Ready os s =
        let (d', sync) = Synchronous-turn w.current_synchronous_message_idx i us s.synchronous in
        record {
          os = os;
          ws = i ∷ us;
          cs = cs;
          d = d';
          sending = rotate-Sending w i os us cs s sync;
          bounded = omega arith;
        }

    -- A message that is not done, and goes on in the next packet.
    pub retouched-Ready :
        (m : MessageStub S) (os : List ℕ) {d : ℕ}
        → SameMark m (w.stubs i)
        → Sending w os (us ++ i ∷ []) cs d
        → Ready (set_stub i m w) (length us + 1)
    retouched-Ready m os {d = d} e s = record {
      os = os;
      ws = us ++ i ∷ [];
      cs = cs;
      d = d;
      sending = retouch-Sending i m w os us cs e s;
      bounded = omega (arith, length-append us (i ∷ []));
    }
