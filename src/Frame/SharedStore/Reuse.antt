-- ===== src/Frame/SharedStore/Reuse.antt =====
-- The free indices of sharedstore.hpp: an object whose pointers are dropped one soon after the other.
pub mod Event
pub mod Twice
use solidframe.Prelude.{
  ℕ, suc, ◌+◌, ◌-◌, ◌≤◌, ◌<◌, ◌^◌, ◌≡◌, ◌≢◌, refl, sym, ap, subst, ◌∙◌, Bool, true, false,
  Bool-cases, ◌⊎◌, inl, inr, not, ◌&&◌, ◌||◌, List, [], ◌∷◌, ◌++◌, ◌==◌, ltb, leb, lt→ltb,
  if◌then◌else◌, arith,
}
use solidframe.Prelude.Lists.{length}
use solidframe.Frame.Common.{UniqueId}
use solidframe.Frame.SharedStore.{
  Stub, WaitStub, Pointer, decrement_count, no_waits, can_clear, clear_stub,
  do_decrement_object_use_count,
}
use solidframe.Frame.SharedStore.Store.{
  Store, Access, Controller, put_stub, do_allocate_index, s_raise, notify, raise, notify_object,
  erase_pointer, in_range, is_id_current, accessing, accessed, at_stub,
}
use solidframe.Frame.SharedStore.Store.Execute.{
  execute_id, execute_ids, do_execute_cache, execute_waits, cache_index, cache_indices,
  execute_vector, do_execute, grab_signals, on_raise,
}

same_number : (n : ℕ) → (n == n) ≡ true
same_number n = ground arith

module _ {O F : Type 0} where
  pub put_stub_here : (idx : ℕ) (s : Stub O F) (st : Store O F) → (put_stub idx s st).stubs idx ≡ s
  unfolding put_stub
  put_stub_here idx s st = rw (same_number idx) refl

  pub put_stub_free :
      (idx : ℕ) (s : Stub O F) (st : Store O F)
      → (put_stub idx s st).cache_obj_idx_stk ≡ st.cache_obj_idx_stk
  unfolding put_stub
  put_stub_free idx s st = refl

  -- What dropping a pointer that is not an alive one does to the store.
  record Dropped (id : UniqueId) (st st' : Store O F) : Type 0 where
    stub : st'.stubs id.index ≡ (do_decrement_object_use_count id false (st.stubs id.index)).0
    fill : st'.fill_erase_vector ≡ st.fill_erase_vector ++ id ∷ []
    range : st'.objmaxcnt ≡ st.objmaxcnt
    free : st'.cache_obj_idx_stk ≡ st.cache_obj_idx_stk
    caching : st'.cache_obj_idx_vec ≡ st.cache_obj_idx_vec
    waiting : st'.exec_wait_vec ≡ st.exec_wait_vec

  notify_object-Dropped :
      (id : UniqueId) (st : Store O F)
      → let s = (do_decrement_object_use_count id false (st.stubs id.index)).0 in
        Dropped id st (notify_object id (put_stub id.index s st))
  unfolding notify_object notify put_stub
  notify_object-Dropped id st = elim (Bool-cases (length (st.fill_erase_vector ++ id ∷ []) == 1)) [
    | inl e ↦ rw e (by_told _)
    | inr e ↦ rw e here
  ]
    where
      s : Stub O F
      s = (do_decrement_object_use_count id false (st.stubs id.index)).0

      filled : Store O F
      filled = record (put_stub id.index s st) {
        fill_erase_vector = st.fill_erase_vector ++ id ∷ [];
      }

      told : Store O F
      told = (notify s_raise filled).0

      here : Dropped id st filled
      here = record {
        stub = put_stub_here id.index s st;
        fill = refl;
        range = refl;
        free = refl;
        caching = refl;
        waiting = refl;
      }

      by_told : (b : Bool) → Dropped id st (if b then raise told else told)
      by_told true = record {
        stub = put_stub_here id.index s st;
        fill = refl;
        range = refl;
        free = refl;
        caching = refl;
        waiting = refl;
      }
      by_told false = record {
        stub = put_stub_here id.index s st;
        fill = refl;
        range = refl;
        free = refl;
        caching = refl;
        waiting = refl;
      }

  erase_pointer-Dropped :
      (id : UniqueId) (st : Store O F)
      → id.index < st.objmaxcnt
      → Dropped id st (erase_pointer id false st)
  unfolding erase_pointer
  erase_pointer-Dropped id st h = rw (lt→ltb _ _ h) (notify_object-Dropped id st)

  dropped_stub :
      (id : UniqueId) (s : Stub O F)
      → s.uid ≡ id.unique
      → (do_decrement_object_use_count id false s).0
        ≡ record s { usecnt = decrement_count s.usecnt }
  unfolding do_decrement_object_use_count
  dropped_stub id s e = let same : (s.uid == id.unique) ≡ true = ground (arith, e) in rw same refl

  -- An object with two holders and none waiting.
  pub record HeldTwice (id : UniqueId) (st : Store O F) : Type 0 where
    pub range : id.index < st.objmaxcnt
    pub current : (st.stubs id.index).uid ≡ id.unique
    pub uses : (st.stubs id.index).usecnt ≡ 2
    pub lives : (st.stubs id.index).alivecnt ≡ 0
    pub waits : (st.stubs id.index).waits ≡ []

  drop_twice_clears :
      (id : UniqueId) (s : Stub O F)
      → s.usecnt ≡ 2
      → s.alivecnt ≡ 0
      → s.waits ≡ []
      → can_clear (record s { usecnt = decrement_count (decrement_count s.usecnt) }) ≡ true
  unfolding can_clear decrement_count
  drop_twice_clears id s u a w = rw (u, a, w) refl

  -- What the two drops leave.
  pub record Left (id : UniqueId) (st st' : Store O F) : Type 0 where
    pub current : (st'.stubs id.index).uid ≡ id.unique
    pub clears : can_clear (st'.stubs id.index) ≡ true
    pub fill : st'.fill_erase_vector ≡ (st.fill_erase_vector ++ id ∷ []) ++ id ∷ []
    pub free : st'.cache_obj_idx_stk ≡ st.cache_obj_idx_stk
    pub caching : st'.cache_obj_idx_vec ≡ st.cache_obj_idx_vec
    pub waiting : st'.exec_wait_vec ≡ st.exec_wait_vec

  pub drop_twice-Left :
      (id : UniqueId) (st : Store O F)
      → HeldTwice id st
      → Left id st (erase_pointer id false (erase_pointer id false st))
  drop_twice-Left id st h = record {
    current = ap (λ s. s.uid) stub ∙ h.current;
    clears = ap can_clear stub ∙ drop_twice_clears id (st.stubs id.index) h.uses h.lives h.waits;
    fill = two.fill ∙ ap (λ l. l ++ id ∷ []) one.fill;
    free = two.free ∙ one.free;
    caching = two.caching ∙ one.caching;
    waiting = two.waiting ∙ one.waiting;
  }
    where
      one : Dropped id st (erase_pointer id false st)
      one = erase_pointer-Dropped id st h.range

      two :
          Dropped id
            (erase_pointer id false st)
            (erase_pointer id false (erase_pointer id false st))
      two = erase_pointer-Dropped id _ (omega (arith, one.range, h.range))

      s0 : Stub O F
      s0 = st.stubs id.index

      stub1 :
          (erase_pointer id false st).stubs id.index
          ≡ record s0 { usecnt = decrement_count s0.usecnt }
      stub1 = one.stub ∙ dropped_stub id s0 h.current

      stub :
          (erase_pointer id false (erase_pointer id false st)).stubs id.index
          ≡ record s0 { usecnt = decrement_count (decrement_count s0.usecnt) }
      stub =
          two.stub
          ∙ ap (λ s. (do_decrement_object_use_count id false s).0) stub1
          ∙ dropped_stub id _ h.current
