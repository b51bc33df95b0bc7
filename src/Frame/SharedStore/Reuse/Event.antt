-- ===== src/Frame/SharedStore/Reuse/Event.antt =====
-- The event of sharedstore.cpp that follows when an object's two pointers were dropped.
use solidframe.Prelude.{
  ℕ, ◌≡◌, refl, sym, ap, subst, ◌∙◌, Bool, true, false, Bool-cases, inl, inr, List, [], ◌∷◌, ◌++◌,
  ◌==◌, if◌then◌else◌, arith, bit_and,
}
use solidframe.Prelude.Lists.{length}
use solidframe.Frame.Common.{UniqueId}
use solidframe.Frame.SharedStore.{Stub, no_waits, can_clear, clear_stub}
use solidframe.Frame.SharedStore.Store.{
  Store, Controller, put_stub, s_raise, raise, is_id_current, accessing, accessed,
}
use solidframe.Frame.SharedStore.Store.Execute.{
  execute_id, execute_ids, do_execute_cache, execute_waits, cache_index, cache_indices,
  execute_vector, do_execute, grab_signals, on_raise,
}
use solidframe.Frame.SharedStore.Reuse.{put_stub_here, put_stub_free}

module _ {O F : Type 0} where
  -- An id of an object that can be cleared.
  execute_id_clears :
      (id : UniqueId) (st : Store O F)
      → (st.stubs id.index).uid ≡ id.unique
      → can_clear (st.stubs id.index) ≡ true
      → execute_id false id st ≡ record (put_stub id.index (st.stubs id.index) st) {
        cache_obj_idx_vec = st.cache_obj_idx_vec ++ id.index ∷ [];
      }
  unfolding execute_id put_stub
  execute_id_clears id st e c =
      let cur : is_id_current id st ≡ true = ground (arith, e) in rw (cur, c) refl

  -- A store in which the object can be cleared, with indices to cache and free ones.
  pub record Ready (id : UniqueId) (vec stk : List ℕ) (st : Store O F) : Type 0 where
    pub current : (st.stubs id.index).uid ≡ id.unique
    pub clears : can_clear (st.stubs id.index) ≡ true
    pub caching : st.cache_obj_idx_vec ≡ vec
    pub free : st.cache_obj_idx_stk ≡ stk
    pub waiting : st.exec_wait_vec ≡ []

  Ready-fields :
      (id : UniqueId) (vec stk : List ℕ) (fill consume : List UniqueId) (smask raised : ℕ)
      (st : Store O F)
      → Ready id vec stk st
      → Ready id vec stk (record st {
        fill_erase_vector = fill;
        consume_erase_vector = consume;
        smask = smask;
        raised = raised;
      })
  Ready-fields id vec stk fill consume smask raised st r = record {
    current = r.current;
    clears = r.clears;
    caching = r.caching;
    free = r.free;
    waiting = r.waiting;
  }

  execute_id-Ready :
      (id : UniqueId) (vec free : List ℕ) (st : Store O F)
      → Ready id vec free st
      → Ready id (vec ++ id.index ∷ []) free (execute_id false id st)
  unfolding put_stub
  execute_id-Ready id vec free st r =
      let here = put_stub_here id.index (st.stubs id.index) st in
      subst (Ready id (vec ++ id.index ∷ []) free)
        (sym (execute_id_clears id st r.current r.clears))
        (record {
          current = ap (λ s. s.uid) here ∙ r.current;
          clears = ap can_clear here ∙ r.clears;
          caching = ap (λ l. l ++ id.index ∷ []) r.caching;
          free = r.free;
          waiting = r.waiting;
        })

  -- What the vector of ids leaves where the id stands in it twice.
  execute_ids_twice :
      (id : UniqueId) (stk : List ℕ) (st : Store O F)
      → Ready id [] stk st
      → Ready id (id.index ∷ id.index ∷ []) stk (execute_ids 2 0 (id ∷ id ∷ []) st)
  unfolding execute_ids
  execute_ids_twice id stk st r =
      execute_id-Ready id (id.index ∷ []) stk _ (execute_id-Ready id [] stk st r)

  -- The object can be cleared, and its index is free as often as the list says.
  record Freed (idx : ℕ) (stk : List ℕ) (st : Store O F) : Type 0 where
    clears : can_clear (st.stubs idx) ≡ true
    free : st.cache_obj_idx_stk ≡ stk

  clear_stub-can_clear :
      (s : Stub O F) (o : O) → can_clear (record (clear_stub s) { obj = o }) ≡ can_clear s
  unfolding can_clear
  clear_stub-can_clear s o = refl

  module _ {W : Type 0} (ctl : Controller O F W) where
    cache_index-Freed :
        (idx : ℕ) (stk : List ℕ) (st : Store O F) (w : W) (must : Bool)
        → Freed idx stk st
        → Freed idx (idx ∷ stk) (cache_index ctl idx st w must).0
    unfolding cache_index
    cache_index-Freed idx stk st w must f =
        let st1 = put_stub idx (clear_stub (st.stubs idx)) st in
        let r = ctl.clear (st.stubs idx).obj idx (accessing st1 w) in
        let s2 = record (clear_stub (st.stubs idx)) { obj = r.1 } in
        let st2 = accessed r.2 st1 in
        rw f.clears (record {
          clears =
              ap can_clear (put_stub_here idx s2 st2)
              ∙ clear_stub-can_clear (st.stubs idx) r.1
              ∙ f.clears;
          free = ap (λ l. idx ∷ l) (put_stub_free idx s2 st2 ∙ put_stub_free idx _ st ∙ f.free);
        })

    no_waits_called :
        (st : Store O F) (w : W)
        → st.exec_wait_vec ≡ []
        → execute_waits ctl st.exec_wait_vec st w ≡ (st, w)
    unfolding execute_waits
    no_waits_called st w e = subst (λ xs. execute_waits ctl xs st w ≡ (st, w)) (sym e) refl

    cache_indices_twice :
        (idx : ℕ) (stk : List ℕ) (st : Store O F) (w : W) (must : Bool)
        → Freed idx stk st
        → Freed idx (idx ∷ idx ∷ stk) (cache_indices ctl (idx ∷ idx ∷ []) st w must).0
    unfolding cache_indices
    cache_indices_twice idx stk st w must f =
        cache_index-Freed idx (idx ∷ stk) _ _ _ (cache_index-Freed idx stk st w must f)

    -- What is left once the ids were looked at.
    after_ids :
        (id : UniqueId) (stk : List ℕ) (st : Store O F) (w : W) (must : Bool)
        → Ready id (id.index ∷ id.index ∷ []) stk st
        → let called = execute_waits ctl st.exec_wait_vec st w in
          Freed id.index
            (id.index ∷ id.index ∷ stk)
            (cache_indices ctl called.0.cache_obj_idx_vec called.0 called.1 must).0
    after_ids id stk st w must r =
        subst
          (λ c.
            Freed id.index (id.index ∷ id.index ∷ stk)
              (cache_indices ctl c.0.cache_obj_idx_vec c.0 c.1 must).0)
          (sym (no_waits_called st w r.waiting))
          (subst
            (λ is. Freed id.index (id.index ∷ id.index ∷ stk) (cache_indices ctl is st w must).0)
            (sym r.caching)
            (cache_indices_twice id.index stk st w must
              (record { clears = r.clears; free = r.free })))

    execute_vector_twice :
        (id : UniqueId) (stk : List ℕ) (size : ℕ) (must : Bool) (st : Store O F) (w : W)
        → size ≡ 2
        → st.consume_erase_vector ≡ id ∷ id ∷ []
        → Ready id [] stk st
        → (execute_vector ctl size must st w).0.cache_obj_idx_stk ≡ id.index ∷ id.index ∷ stk
    unfolding execute_vector do_execute_cache
    execute_vector_twice id stk size must st w two e r = subst is_done (sym two) (
        subst
          (λ ids.
            (execute_vector ctl 2 must (record st { consume_erase_vector = ids })
              w).0.cache_obj_idx_stk
            ≡ id.index ∷ id.index ∷ stk)
          (sym e)
          (after_ids id stk _ w must (
            execute_ids_twice id stk (record st { consume_erase_vector = id ∷ id ∷ [] })
              (Ready-fields id [] stk _ (id ∷ id ∷ []) _ _ st r))).free)
      where
        is_done : ℕ → Type 0
        is_done n = (execute_vector ctl n must st w).0.cache_obj_idx_stk ≡ id.index ∷ id.index ∷ stk

    pub grab_signals-Ready :
        (id : UniqueId) (vec stk : List ℕ) (st : Store O F) (w : W)
        → Ready id vec stk st
        → Ready id vec stk (grab_signals ctl st w).0
    unfolding grab_signals
    grab_signals-Ready id vec stk st w r = elim (Bool-cases (bit_and st.smask s_raise == 0)) [
      | inl e ↦ rw e (Ready-fields id vec stk _ _ 0 st.raised st r)
      | inr e ↦ elim (Bool-cases (no_waits st.fill_erase_vector)) [
        | inl n ↦ rw (e, n) (Ready-fields id vec stk _ _ 0 _ st r)
        | inr n ↦ rw (e, n) (Ready-fields id vec stk _ _ 0 _ st r)
      ]
    ]

    pub do_execute_twice :
        (id : UniqueId) (stk : List ℕ) (st : Store O F) (w : W)
        → (ctl.execute_before_erase (accessing st w)).1.consume_erase_vector
          ≡ st.consume_erase_vector
        → st.consume_erase_vector ≡ id ∷ id ∷ []
        → Ready id [] stk st
        → (do_execute ctl st w).0.cache_obj_idx_stk ≡ id.index ∷ id.index ∷ stk
    unfolding do_execute
    do_execute_twice id stk st w none e r =
        let b = ctl.execute_before_erase (accessing st w) in
        execute_vector_twice id stk _ b.0 (accessed b.1 st) b.1.world (ap length e) (none ∙ e)
          (Ready-fields id [] stk st.fill_erase_vector _ st.smask _ st r)

    pub on_raise_free :
        (st : Store O F) (w : W)
        → (on_raise ctl st w).0.cache_obj_idx_stk
          ≡ (do_execute ctl (grab_signals ctl st w).0 (grab_signals ctl st w).1).0.cache_obj_idx_stk
    unfolding on_raise
    on_raise_free st w = go (do_execute ctl (grab_signals ctl st w).0 (grab_signals ctl st w).1)
      where
        go :
            (x : Store O F × W × Bool)
            → (if x.2 then raise x.0 else x.0).cache_obj_idx_stk ≡ x.0.cache_obj_idx_stk
        go (s, v, true) = refl
        go (s, v, false) = refl
