-- ===== src/Frame/SharedStore/Reuse/Twice.antt =====
-- The index of sharedstore.hpp that is free twice.
use solidframe.Prelude.{ℕ, ◌≡◌, refl, sym, ap, subst, ◌∙◌, false, List, [], ◌∷◌, ◌++◌}
use solidframe.Frame.Common.{UniqueId}
use solidframe.Frame.SharedStore.Store.{
  Store, Access, Controller, put_stub, do_allocate_index, erase_pointer, at_stub,
}
use solidframe.Frame.SharedStore.Store.Execute.{grab_signals, on_raise}
use solidframe.Frame.SharedStore.Wake.{Awake, erase_pointer-Keeps}
use solidframe.Frame.SharedStore.Wake.Serve.{Polite, grab_signals-Grabbed}
use solidframe.Frame.SharedStore.Reuse.{put_stub_here, put_stub_free, HeldTwice, drop_twice-Left}
use solidframe.Frame.SharedStore.Store.{insert, insert_alive}
use solidframe.Frame.SharedStore.{do_try_get_alive}
use solidframe.Frame.SharedStore.Reuse.Event.{
  Ready, grab_signals-Ready, do_execute_twice, on_raise_free,
}

module _ {O F : Type 0} where
  -- A store at rest, between two events.
  pub record Calm (st : Store O F) : Type 0 where
    pub awake : Awake st
    pub fill : st.fill_erase_vector ≡ []
    pub vector : st.consume_erase_vector ≡ []
    pub caching : st.cache_obj_idx_vec ≡ []
    pub waiting : st.exec_wait_vec ≡ []

  allocated :
      (o : O) (st : Store O F) (idx : ℕ) (stk : List ℕ)
      → st.cache_obj_idx_stk ≡ idx ∷ stk
      → do_allocate_index o st ≡ (record st { cache_obj_idx_stk = stk }, idx)
  unfolding do_allocate_index
  allocated o st idx stk e =
      subst
        (λ s.
          do_allocate_index o (record st { cache_obj_idx_stk = s })
          ≡ (record st { cache_obj_idx_stk = stk }, idx))
        (sym e) refl

  -- The pointer that is inserted at the free index, and what is left.
  inserted :
      (o : O) (st : Store O F) (idx : ℕ) (stk : List ℕ)
      → st.cache_obj_idx_stk ≡ idx ∷ stk
      → insert_alive o st ≡ (
        put_stub idx
            (do_try_get_alive idx (st.stubs idx)).0
            (record st { cache_obj_idx_stk = stk }),
        (do_try_get_alive idx (st.stubs idx)).1,
      )
  unfolding insert
  inserted o st idx stk e =
      ap (λ a. at_stub a.1 (do_try_get_alive a.1) a.0) (allocated o st idx stk e)

  inserted_twice :
      (o : O) (st : Store O F) (idx : ℕ) (stk : List ℕ)
      → st.cache_obj_idx_stk ≡ idx ∷ idx ∷ stk
      → ((insert_alive o st).1.uid ≡ record { index = idx; unique = (st.stubs idx).uid })
        × ((insert_alive o (insert_alive o st).0).1.uid
            ≡ record { index = idx; unique = (st.stubs idx).uid })
  unfolding do_try_get_alive
  inserted_twice o st idx stk e =
      let s1 = (do_try_get_alive idx (st.stubs idx)).0 in
      let rest = record st { cache_obj_idx_stk = idx ∷ stk } in
      let one = inserted o st idx (idx ∷ stk) e in
      let two = inserted o (put_stub idx s1 rest) idx stk (put_stub_free idx s1 rest) in
      (
        ap (λ r. r.1.uid) one,
        ap (λ r. (insert_alive o r.0).1.uid) one
            ∙ ap (λ r. r.1.uid) two
            ∙ ap (λ s. record { index = idx; unique = s.uid }) (put_stub_here idx s1 rest),
      )

  module _ {W : Type 0} (ctl : Controller O F W) where
    -- For a controller whose `executeBeforeErase` adds no ids, which the one of the file store does, and whose functions
    -- work on the store by its operations only; a store between two events, with nothing to look at; and an object with
    -- two pointers that are not alive ones, and nobody waiting for it: when both pointers are dropped before the next
    -- event and nothing else happens, the index of the object is free twice after it. Two insertions that follow get that
    -- index both, and pointers with the same id.
    pub drop_twice_reuses :
        (o : O) (id : UniqueId) (st : Store O F) (w : W)
        → Polite ctl
        → ((a : Access W)
            → (ctl.execute_before_erase a).1.consume_erase_vector ≡ a.consume_erase_vector)
        → Calm st
        → HeldTwice id st
        → let dropped = erase_pointer id false (erase_pointer id false st) in
          let later = (on_raise ctl dropped w).0 in
          ((insert_alive o later).1.uid.index ≡ id.index)
          × ((insert_alive o (insert_alive o later).0).1.uid ≡ (insert_alive o later).1.uid)
    drop_twice_reuses o id st w polite none calm held =
        let dropped = erase_pointer id false (erase_pointer id false st) in
        let left = drop_twice-Left id st held in
        let fill : dropped.fill_erase_vector ≡ id ∷ id ∷ [] =
          left.fill ∙ ap (λ l. (l ++ id ∷ []) ++ id ∷ []) calm.fill in
        let one = erase_pointer-Keeps id false st in
        let two = erase_pointer-Keeps id false (erase_pointer id false st) in
        let awake : Awake dropped = two.awake (one.awake calm.awake) in
        let vector : dropped.consume_erase_vector ≡ [] = two.vector ∙ one.vector ∙ calm.vector in
        let grabbed = grab_signals-Grabbed ctl polite dropped w awake.told vector in
        let ready : Ready id [] st.cache_obj_idx_stk dropped = record {
          current = left.current;
          clears = left.clears;
          caching = left.caching ∙ calm.caching;
          free = left.free;
          waiting = left.waiting ∙ calm.waiting;
        } in
        let done =
          do_execute_twice ctl id st.cache_obj_idx_stk (grab_signals ctl dropped w).0
            (grab_signals ctl dropped w).1 (none _) (grabbed.taken ∙ fill)
            (grab_signals-Ready ctl id [] st.cache_obj_idx_stk dropped w ready) in
        let later = (on_raise ctl dropped w).0 in
        let same = inserted_twice o later id.index _ (on_raise_free ctl dropped w ∙ done) in
        (ap (λ u. u.index) same.0, same.1 ∙ sym same.0)
