-- ===== src/Mpipc/Writer/Send/Turns.antt =====
-- What the parts of a round of doFillPacket do to the writer, for the message at the front of the write list.
use solidframe.Prelude.{
  ℕ, ◌<◌, ◌≡◌, ◌≢◌, sym, ap, subst, ◌∙◌, none, List, [], ◌∷◌, ◌++◌, ◌==◌, if◌then◌else◌, arith,
}
use solidframe.Utility.InnerList.{invalid_index}
use solidframe.Utility.InnerList.Chain.{
  NotIn, append-NotIn, Distinct-append, Apart-append, Apart-cons, Below-append,
}
use solidframe.Mpipc.Writer.{
  cleared_stub, MessageStub, MessageWriter, write_push_back, write_pop_front, cache_push_front,
  do_unprepare_message_stub,
}
use solidframe.Mpipc.Writer.Lists.{
  Holds, set_stub_self, set_stub_ne, write_push_back-Holds, write_pop_front-Holds,
}
use solidframe.Mpipc.Writer.Cancel.{do_unprepare-Holds}
use solidframe.Mpipc.Writer.Send.{rotate}
use solidframe.Mpipc.Writer.Send.Live.{
  Live, Idle-change, NotIn-turn, Synchronous, Sending, AllLive-append, AllLive-change,
  Synchronous-leave, current-Holds,
}

module _ {S : Type 0} where
  -- The message at the front stands in the vector, and nowhere else in the lists that share its links.
  pub record AtFront (w : MessageWriter S) (us cs : List ℕ) (i : ℕ) : Type 0 where
    pub in_vec : i < w.vec_size
    pub not_write : NotIn i us
    pub not_cache : NotIn i cs

  pub front-AtFront :
      (w : MessageWriter S) (os us cs : List ℕ) (i : ℕ)
      → Holds w os (us ++ i ∷ []) cs
      → AtFront w us cs i
  front-AtFront w os us cs i h = record {
    in_vec = (Below-append w.vec_size us (i ∷ []) h.write_below).1.0;
    not_write = (Apart-cons i us [] (Distinct-append us (i ∷ []) h.write.distinct).2).0;
    not_cache = (Apart-append us (i ∷ []) cs h.write_apart).1.0;
  }

  -- The stubs of the others are as before.
  unprepare_ne :
      (i j : ℕ) (w : MessageWriter S) → j ≢ i → (do_unprepare_message_stub i w).stubs j ≡ w.stubs j
  unfolding do_unprepare_message_stub cache_push_front
  unprepare_ne i j w ne = set_stub_ne i j _ w ne

  unprepare_self :
      (i : ℕ) (w : MessageWriter S)
      → ((do_unprepare_message_stub i w).stubs i).serializer_ptr ≡ none
  unfolding do_unprepare_message_stub cache_push_front
  unprepare_self i w =
      let m = cleared_stub (w.stubs i) in ap MessageStub.serializer_ptr (set_stub_self i m w)

  -- A message that is done or canceled leaves the write list, and its index is given back to the cache.
  pub leave-Sending :
      (w w1 : MessageWriter S) (i : ℕ) (os os' us cs : List ℕ) {d : ℕ}
      → Sending w os (us ++ i ∷ []) cs d
      → Holds w1 os' us cs
      → w1.vec_size ≡ w.vec_size
      → NotIn i os'
      → ((j : ℕ) → j ≢ i → Live w.stubs os j → Live w1.stubs os' j)
      → ((j : ℕ) → j ≢ i → w1.stubs j ≡ w.stubs j)
      → (c : ℕ)
      → c ≡ (
          if w.current_synchronous_message_idx == i
          then invalid_index
          else w.current_synchronous_message_idx)
      → (cs' : List ℕ) × (d' : ℕ) × Sending
          (record (do_unprepare_message_stub i w1) { current_synchronous_message_idx = c })
          os'
          us
          cs'
          d'
  leave-Sending w w1 i os os' us cs s h same n keep kept c current =
      let at = front-AtFront w os us cs i s.holds in
      let (d', sync) = Synchronous-leave w.current_synchronous_message_idx i us s.synchronous in
      let alive =
        AllLive-change w.stubs w1.stubs os os' i us keep at.not_write
          (AllLive-append w.stubs os us (i ∷ []) s.live).0 in
      (
        cs ++ i ∷ [],
        d',
        record {
          holds = current-Holds c (do_unprepare_message_stub i w1) os' us (cs ++ i ∷ []) (
              do_unprepare-Holds i w1 os' us cs (omega (arith, at.in_vec)) n at.not_write
                at.not_cache h);
          live =
              AllLive-change w1.stubs (do_unprepare_message_stub i w1).stubs os' os' i us
                (λ j ne. subst (λ t. Live (λ _. t) os' j) (sym (unprepare_ne i j w1 ne)))
                at.not_write alive;
          idle =
              Idle-change w.stubs (do_unprepare_message_stub i w1).stubs (us ++ i ∷ []) us i s.idle
                (λ j ne. unprepare_ne i j w1 ne ∙ kept j ne)
                (λ j ne o. append-NotIn j us (i ∷ []) o (ne, tt)) (λ _. unprepare_self i w1);
          synchronous = subst (λ t. Synchronous t us d') (sym current) sync;
        },
      )

  -- The message at the front goes to the back.
  pub rotate-Sending :
      (w : MessageWriter S) (i : ℕ) (os us cs : List ℕ) {d d' : ℕ}
      → Sending w os (us ++ i ∷ []) cs d
      → Synchronous w.current_synchronous_message_idx (i ∷ us) d'
      → Sending (rotate i w) os (i ∷ us) cs d'
  unfolding rotate write_push_back write_pop_front
  rotate-Sending w i os us cs s sync =
      let at = front-AtFront w os us cs i s.holds in
      let (alive, mine) = AllLive-append w.stubs os us (i ∷ []) s.live in
      record {
        holds =
            write_push_back-Holds i (write_pop_front w) os us cs at.in_vec at.not_write at.not_cache
              (write_pop_front-Holds i w os us cs s.holds);
        live = (mine.0, alive);
        idle = λ j n. s.idle j (NotIn-turn j i us n);
        synchronous = sync;
      }
