-- ===== src/Mpipc/Writer/Enqueue.antt =====
-- `enqueue` of mpipcmessagewriter.cpp: the index that it takes, the message there, and the lists after.
use solidframe.Prelude.{
  ℕ, ◌+◌, ◌≤◌, ◌<◌, ◌≡◌, ◌≢◌, false, true, refl, ap, subst, ◌∙◌, some, List, [], ◌∷◌, ◌++◌,
  append-nil, inl, inr, ◌==◌, zero_test, suc_test, lt→ltb, arith,
}
use solidframe.Prelude.Lists.{length, length-append}
use solidframe.Utility.InnerList.{invalid_index}
use solidframe.Utility.InnerList.Chain.{
  frame_new, NotIn, IsList, IsList-frame, Apart-symm, Apart-cons, Apart-append, Below-append,
  Below-mono, bound-NotIn, Distinct-append, snoc_cases,
}
use solidframe.Utility.InnerList.Erase.{pop_front_lem, erase-IsList, erase_elsewhere}
use solidframe.Mpipc.Message.{MessageBundle, MessageId, undisrupted}
use solidframe.Mpipc.Writer.{
  WriterConfiguration, MessageWriter, new_stub, set_stub, cache_pop_front, vec_push_back,
  take_index, refuses, enqueue, is_current, order_push_back, write_push_back,
}
use solidframe.Mpipc.Writer.Lists.{
  Holds, set_stub_self, set_stub_ne, set_stub-Holds, order_push_back-Holds, write_push_back-Holds,
}

module _ {S : Type 0} where
  -- An index that none of the lists holds, in the writer that gives it out.
  record Taken (w : MessageWriter S) (os ws : List ℕ) (r : MessageWriter S × ℕ) : Type 0 where
    rest : List ℕ
    holds : Holds r.0 os ws rest
    in_vec : r.1 < r.0.vec_size
    not_order : NotIn r.1 os
    not_write : NotIn r.1 ws
    not_cache : NotIn r.1 rest
    others_same : (j : ℕ) → j ≢ r.1 → r.0.stubs j ≡ w.stubs j

  cache_pop_front-Taken :
      (w : MessageWriter S) (os ws us : List ℕ) (x : ℕ)
      → Holds w os ws (us ++ x ∷ [])
      → Taken w os ws (cache_pop_front w)
  unfolding cache_pop_front
  cache_pop_front-Taken w os ws us x h =
      let (bu, bx) = Below-append w.vec_size us (x ∷ []) h.cache_below in
      let (us_os, x_os) = Apart-append us (x ∷ []) os (Apart-symm os _ h.order_apart) in
      let (us_ws, x_ws) = Apart-append us (x ∷ []) ws (Apart-symm ws _ h.write_apart) in
      let apart = (Distinct-append us (x ∷ []) h.cache.distinct).2 in
      rw (pop_front_lem w.status_links w.cache_inner_list x us h.cache) record {
        rest = us;
        holds = record {
          order = h.order;
          write =
              IsList-frame w.status_links _ w.write_inner_list ws (us ++ x ∷ []) h.write_apart
                (erase_elsewhere w.status_links w.cache_inner_list x us [] h.cache) h.write;
          cache =
              subst (IsList _ _) (append-nil us)
                (erase-IsList w.status_links w.cache_inner_list x us [] h.cache);
          write_apart = Apart-symm us ws us_ws;
          order_apart = Apart-symm us os us_os;
          order_below = h.order_below;
          write_below = h.write_below;
          cache_below = bu;
          vec_fits = h.vec_fits;
        };
        in_vec = bx.0;
        not_order = x_os.0;
        not_write = x_ws.0;
        not_cache = (Apart-cons x us [] apart).0;
        others_same = λ j _. refl;
      }

  vec_push_back-Taken :
      (w : MessageWriter S) (os ws cs : List ℕ)
      → w.vec_size < invalid_index
      → Holds w os ws cs
      → Taken w os ws (vec_push_back w)
  unfolding vec_push_back set_stub
  vec_push_back-Taken w os ws cs lt h =
      let n = w.vec_size in
      let more : n ≤ n + 1 = omega arith in
      record {
        rest = cs;
        holds = record {
          order = frame_new w.order_links w.order_inner_list n os h.order_below h.order;
          write = frame_new w.status_links w.write_inner_list n ws h.write_below h.write;
          cache = frame_new w.status_links w.cache_inner_list n cs h.cache_below h.cache;
          write_apart = h.write_apart;
          order_apart = h.order_apart;
          order_below = Below-mono n (n + 1) os more h.order_below;
          write_below = Below-mono n (n + 1) ws more h.write_below;
          cache_below = Below-mono n (n + 1) cs more h.cache_below;
          vec_fits = omega arith;
        };
        in_vec = omega arith;
        not_order = bound-NotIn n os h.order_below;
        not_write = bound-NotIn n ws h.write_below;
        not_cache = bound-NotIn n cs h.cache_below;
        others_same = λ j ne. set_stub_ne n j new_stub w ne;
      }

  take_index-Taken :
      (w : MessageWriter S) (os ws cs : List ℕ)
      → w.vec_size < invalid_index
      → Holds w os ws cs
      → Taken w os ws (take_index w)
  unfolding take_index
  take_index-Taken w os ws cs lt h = elim (snoc_cases cs) [
    | inl e ↦
        let none_left : (w.cache_inner_list.size == 0) ≡ true =
          zero_test w.cache_inner_list.size (h.cache.size_length ∙ ap length e) in
        rw none_left (vec_push_back-Taken w os ws cs lt h)
    | inr (us, x, e) ↦
        let some_left : (w.cache_inner_list.size == 0) ≡ false =
          suc_test w.cache_inner_list.size (length us)
            (omega (arith, h.cache.size_length, ap length e, length-append us (x ∷ []))) in
        rw some_left (cache_pop_front-Taken w os ws us x (subst (Holds w os ws) e h))
  ]

  pub is_current_lem :
      (id : MessageId) (w : MessageWriter S)
      → id.index < w.vec_size
      → (w.stubs id.index).unique ≡ id.unique
      → is_current id w ≡ true
  unfolding is_current
  is_current_lem id w lt e = rw (lt→ltb _ _ lt) (ground arith)

  -- What `enqueue` returns for a message that it does not refuse.
  abbrev pub accepted : MessageBundle → MessageId → MessageWriter S → MessageWriter S × MessageId
  accepted b pool_msg_id w =
      let (w1, idx) = take_index w in
      let stub = w1.stubs idx in
      (
        write_push_back idx (
            order_push_back idx (
              set_stub idx (record stub { msgbundle = undisrupted b; pool_msg_id = pool_msg_id })
                w1)),
        record { index = idx; unique = stub.unique },
      )

  -- What `enqueue` promises of the message that it accepts as `id`.
  pub record Enqueued (b : MessageBundle) (pool_msg_id : MessageId) (w : MessageWriter S)
      (os ws : List ℕ) (w' : MessageWriter S) (id : MessageId) : Type 0 where
    pub rest : List ℕ
    pub holds : Holds w' (id.index ∷ os) (id.index ∷ ws) rest
    pub bundle : (w'.stubs id.index).msgbundle ≡ undisrupted b
    pub pool : (w'.stubs id.index).pool_msg_id ≡ pool_msg_id
    pub current : is_current id w' ≡ true
    pub others : (j : ℕ) → j ≢ id.index → w'.stubs j ≡ w.stubs j

  pub enqueue_accepts :
      (config : WriterConfiguration) (b : MessageBundle) (pool_msg_id : MessageId)
      (w : MessageWriter S)
      → refuses config b w ≡ false
      → enqueue config b pool_msg_id w ≡ some (accepted b pool_msg_id w)
  unfolding enqueue
  enqueue_accepts config b pool_msg_id w e = rw e

  pub accepted-Enqueued :
      (b : MessageBundle) (pool_msg_id : MessageId) (w : MessageWriter S) (os ws cs : List ℕ)
      → w.vec_size < invalid_index
      → Holds w os ws cs
      → Enqueued b pool_msg_id w os ws (accepted b pool_msg_id w).0 (accepted b pool_msg_id w).1
  accepted-Enqueued b pool_msg_id w os ws cs lt h =
      let t = take_index-Taken w os ws cs lt h in
      let idx = (take_index w).1 in
      let w1 = (take_index w).0 in
      let stub = record (w1.stubs idx) { msgbundle = undisrupted b; pool_msg_id = pool_msg_id } in
      let w2 = set_stub idx stub w1 in
      let self : w2.stubs idx ≡ stub = set_stub_self idx stub w1 in
      record {
        rest = t.rest;
        holds =
            write_push_back-Holds idx (order_push_back idx w2) (idx ∷ os) ws t.rest
              (unfold order_push_back set_stub in t.in_vec) t.not_write t.not_cache
              (order_push_back-Holds idx w2 os ws t.rest (unfold set_stub in t.in_vec) t.not_order
                t.not_cache (set_stub-Holds idx stub w1 os ws t.rest t.holds));
        bundle = unfold order_push_back write_push_back in ap (λ m. m.msgbundle) self;
        pool = unfold order_push_back write_push_back in ap (λ m. m.pool_msg_id) self;
        current =
            is_current_lem (accepted b pool_msg_id w).1 (accepted b pool_msg_id w).0
              (unfold order_push_back write_push_back set_stub in t.in_vec)
              (unfold order_push_back write_push_back in ap (λ m. m.unique) self);
        others = λ j ne.
            unfold order_push_back write_push_back in
            set_stub_ne idx j stub w1 ne ∙ t.others_same j ne;
      }

  -- For a writer whose three lists hold lists of indices, and whose vector has room for one more node:
  -- a message that is not refused is put at an index that no list held, as the newest of the order
  -- list and of the write list, with its flags of an earlier send cleared and the pool's message id;
  -- its id names it, no other stub changes, and the lists go on holding lists of indices.
  pub enqueue-Enqueued :
      (config : WriterConfiguration) (b : MessageBundle) (pool_msg_id : MessageId)
      (w : MessageWriter S) (os ws cs : List ℕ)
      → refuses config b w ≡ false
      → w.vec_size < invalid_index
      → Holds w os ws cs
      → (w' : MessageWriter S) × (id : MessageId) × (enqueue config b pool_msg_id w ≡ some (w', id))
        × Enqueued b pool_msg_id w os ws w' id
  enqueue-Enqueued config b pool_msg_id w os ws cs e lt h = (
    (accepted b pool_msg_id w).0,
    (accepted b pool_msg_id w).1,
    enqueue_accepts config b pool_msg_id w e,
    accepted-Enqueued b pool_msg_id w os ws cs lt h,
  )
