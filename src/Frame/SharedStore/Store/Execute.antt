-- ===== src/Frame/SharedStore/Store/Execute.antt =====
-- What the store of solid/frame/src/sharedstore.cpp does on an event: `onEvent`, with `doExecute` of sharedstore.hpp.
-- The locks and the choice of the mutexes are not modelled.
use solidframe.Prelude.{
  ℕ, ◌+◌, Bool, true, ◌||◌, some, List, [], ◌∷◌, ◌++◌, ◌==◌, leb, if◌then◌else◌, bit_and,
}
use solidframe.Prelude.Lists.{length}
use solidframe.Frame.Common.{UniqueId}
use solidframe.Frame.SharedStore.{
  Pointer, ExecWaitStub, decrement_count, can_clear, clear_stub, no_waits, do_execute_erase,
}
use solidframe.Frame.SharedStore.Store.{
  Store, Controller, put_stub, raise, s_raise, is_id_current, accessing, accessed,
}
use solidframe.Frame.SharedStore.Store.Requests.{call_function}

-- The nodes that can be used again.
abbrev pub nodes : {F : Type 0} → List (ExecWaitStub F) → List ℕ → List ℕ
nodes [] stk = stk
nodes (x ∷ xs) stk = nodes xs (x.pw.node ∷ stk)

module _ {O F : Type 0} where
  -- An id of the vector; `added` if `executeBeforeErase` put it there.
  unfoldable pub execute_id : Bool → UniqueId → Store O F → Store O F
  execute_id added id st =
      let s0 = st.stubs id.index in
      let s = if added then record s0 { usecnt = decrement_count s0.usecnt } else s0 in
      let st1 = put_stub id.index s st in
      let r = do_execute_erase id.index s st1.exec_wait_vec in
      if is_id_current id st
      then if can_clear s
        then record st1 { cache_obj_idx_vec = st1.cache_obj_idx_vec ++ id.index ∷ [] }
        else put_stub id.index r.0 (record st1 { exec_wait_vec = r.1 })
      else st

  -- The ids from a position on; `size` ids were there before `executeBeforeErase`.
  unfoldable pub execute_ids : ℕ → ℕ → List UniqueId → Store O F → Store O F
  execute_ids size pos [] st = st
  execute_ids size pos (id ∷ ids) st =
      execute_ids size (pos + 1) ids (execute_id (leb size pos) id st)

  unfoldable pub do_execute_cache : Store O F → Store O F
  do_execute_cache st = record st {
    cache_wait_stk = nodes st.exec_wait_vec st.cache_wait_stk;
    cache_obj_idx_vec = [];
    exec_wait_vec = [];
  }

  abbrev pub do_cache_object_index : ℕ → Store O F → Store O F
  do_cache_object_index idx st = record st { cache_obj_idx_stk = idx ∷ st.cache_obj_idx_stk }

  module _ {W : Type 0} (ctl : Controller O F W) where
    abbrev pub pointer_for : ExecWaitStub F → Pointer
    pointer_for x = record { uid = x.uid; psb = true; pt = some x.pt }

    unfoldable pub execute_waits : List (ExecWaitStub F) → Store O F → W → Store O F × W
    execute_waits [] st w = (st, w)
    execute_waits (x ∷ xs) st w =
        let c = call_function ctl x.pw.fnc (pointer_for x) 0 st w in execute_waits xs c.0 c.1

    -- An index of the vector of those to cache.
    unfoldable pub cache_index : ℕ → Store O F → W → Bool → Store O F × W × Bool
    cache_index idx st w must =
        let s = clear_stub (st.stubs idx) in
        let st1 = put_stub idx s st in
        let r = ctl.clear s.obj idx (accessing st1 w) in
        let st2 = put_stub idx (record s { obj = r.1 }) (accessed r.2 st1) in
        if can_clear (st.stubs idx)
        then (do_cache_object_index idx st2, r.2.world, r.0 || must)
        else (st, w, must)

    unfoldable pub cache_indices : List ℕ → Store O F → W → Bool → Store O F × W × Bool
    cache_indices [] st w must = (st, w, must)
    cache_indices (idx ∷ is) st w must =
        let c = cache_index idx st w must in cache_indices is c.0 c.1 c.2

    -- `doExecute` behind `executeBeforeErase`.
    unfoldable pub execute_vector : ℕ → Bool → Store O F → W → Store O F × W × Bool
    execute_vector size must st w =
        let looked = execute_ids size 0 st.consume_erase_vector st in
        let called = execute_waits looked.exec_wait_vec looked w in
        let cached = cache_indices called.0.cache_obj_idx_vec called.0 called.1 must in
        if no_waits st.consume_erase_vector
        then (st, w, must)
        else (do_execute_cache cached.0, cached.1, cached.2)

    -- The result is whether the object has to be raised again.
    unfoldable pub do_execute : Store O F → W → Store O F × W × Bool
    do_execute st w =
        let b = ctl.execute_before_erase (accessing st w) in
        execute_vector (length st.consume_erase_vector) b.0 (accessed b.1 st) b.1.world

    -- The signals, with the mutex locked.
    unfoldable pub grab_signals : Store O F → W → Store O F × W
    grab_signals st w =
        let grabbed = record st { smask = 0 } in
        let exchanged = if no_waits st.fill_erase_vector then grabbed else record grabbed {
          fill_erase_vector = st.consume_erase_vector;
          consume_erase_vector = st.fill_erase_vector;
        } in
        let a = ctl.execute_on_signal st.smask (accessing exchanged w) in
        if bit_and st.smask s_raise == 0 then (grabbed, w) else (accessed a exchanged, a.world)

    -- `onEvent` for the event to raise.
    unfoldable pub on_raise : Store O F → W → Store O F × W
    on_raise st w =
        let g = grab_signals st w in
        let x = do_execute g.0 g.1 in
        let posted = if x.2 then raise x.0 else x.0 in
        (record posted { consume_erase_vector = [] }, x.1)
