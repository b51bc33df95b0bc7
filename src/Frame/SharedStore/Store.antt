-- ===== src/Frame/SharedStore/Store.antt =====
-- The store of solid/frame/sharedstore.hpp and src/sharedstore.cpp: its stubs, its free indices, the ids to look
-- at, the signals to the object that the store is, and the operations of its users. `W` is the type of the states of
-- the user's functions; the functions of the controller, which the store calls, are a record. `objmaxcnt` is the size
-- of the vector of stubs too. The nodes of the waiting functions are numbered in the order in which they are made.
pub mod Requests
pub mod Execute
use solidframe.Prelude.{
  ℕ, zero, suc, ◌+◌, Bool, true, false, not, ◌&&◌, ◌||◌, Option, none, some, List, [], ◌∷◌, ◌++◌,
  ◌==◌, ltb, if◌then◌else◌, bit_or,
}
use solidframe.Prelude.Lists.{length}
use solidframe.Frame.Common.{UniqueId, no_unique_id}
use solidframe.Frame.SharedStore.{
  WaitKind, shared_wait, reinit_wait, unique_wait, is_shared_wait, WaitStub, Stub, Pointer,
  no_pointer, empty_pointer, alive, ExecWaitStub, new_stub, do_try_get_alive, do_try_get_shared,
  do_try_get_unique, do_try_get_reinit, do_switch_unique_to_shared, push_wait,
  do_decrement_object_use_count,
}

-- `StoreBase::Data` with the stubs, and the signal mask of the object. `raised` is the number of the events that
-- are sent to the object to raise it.
pub record Store (O F : Type 0) : Type 0 where
  pub stubs : ℕ → Stub O F
  pub objmaxcnt : ℕ
  pub fill_erase_vector : List UniqueId
  pub consume_erase_vector : List UniqueId
  pub cache_obj_idx_vec : List ℕ
  pub cache_obj_idx_stk : List ℕ
  pub exec_wait_vec : List (ExecWaitStub F)
  pub cache_wait_stk : List ℕ
  pub waitdq_size : ℕ
  pub smask : ℕ
  pub raised : ℕ

-- What the controller sees and changes through an `Accessor`: the ids to look at, and events; and its own state.
pub record Access (W : Type 0) : Type 0 where
  pub consume_erase_vector : List UniqueId
  pub raised : ℕ
  pub world : W

-- An error code: 0 is no error.
pub record Prepared (F W : Type 0) : Type 0 where
  pub found : Bool
  pub fnc : F
  pub idx : ℕ
  pub err : ℕ
  pub access : Access W

pub record Preparing (F W : Type 0) : Type 0 where
  pub done : Bool
  pub fnc : F
  pub ptr : Pointer
  pub err : ℕ
  pub access : Access W

-- What a function leaves of the pointer it is called with, of the store, on which it can call operations, and of its
-- own state.
pub record Called (O F W : Type 0) : Type 0 where
  pub ptr : Pointer
  pub store : Store O F
  pub world : W

-- The controller and the functions that it is called with.
pub record Controller (O F W : Type 0) : Type 0 where
  pub call : F → Pointer → ℕ → Store O F → W → Called O F W
  pub prepare_index : F → ℕ → Access W → Prepared F W
  pub prepare_pointer : F → Pointer → ℕ → Access W → Preparing F W
  pub execute_on_signal : ℕ → Access W → Access W
  pub execute_before_erase : Access W → Bool × Access W
  pub clear : O → ℕ → Access W → Bool × O × Access W

abbrev pub s_raise : ℕ
s_raise = 1

-- `for(i = objcnt + n; i > objcnt; --i) push(i)`.
unfoldable pub push_indices : ℕ → ℕ → List ℕ → List ℕ
push_indices objcnt zero stk = stk
push_indices objcnt (suc n) stk = push_indices objcnt n ((objcnt + suc n) ∷ stk)

-- `Pointer::release`: the object's address, and what is left.
abbrev pub release_pointer : Pointer → Option ℕ × Pointer
release_pointer p = (p.pt, no_pointer)

-- The copy of a pointer leaves an empty one behind.
abbrev pub copy_pointer : Pointer → Pointer × Pointer
copy_pointer from = let freed = release_pointer from in (record from { pt = freed.0 }, freed.1)

-- Whether the first to wait waits for a shared pointer.
abbrev pub waits_for_shared : {F : Type 0} → List (WaitStub F) → Bool
waits_for_shared [] = false
waits_for_shared (w ∷ ws) = is_shared_wait w.kind

module _ {O F : Type 0} where
  abbrev pub new_shared_store : O → Store O F
  new_shared_store o = record {
    stubs = λ i. new_stub o;
    objmaxcnt = 0;
    fill_erase_vector = [];
    consume_erase_vector = [];
    cache_obj_idx_vec = [];
    cache_obj_idx_stk = [];
    exec_wait_vec = [];
    cache_wait_stk = [];
    waitdq_size = 0;
    smask = 0;
    raised = 0;
  }

  unfoldable pub put_stub : ℕ → Stub O F → Store O F → Store O F
  put_stub idx s st = record st { stubs = λ i. if i == idx then s else st.stubs i }

  -- An operation on a stub of the store.
  abbrev pub at_stub : {A : Type 0} → ℕ → (Stub O F → Stub O F × A) → Store O F → Store O F × A
  at_stub idx f st = let r = f (st.stubs idx) in (put_stub idx r.0 st, r.1)

  -- `doAllocateIndex`. The objects that the vector of stubs gets are copies of `o`.
  unfoldable pub do_allocate_index : O → Store O F → Store O F × ℕ
  do_allocate_index o st = elim st.cache_obj_idx_stk [
    | [] ↦ (
      record st {
        stubs = λ i. if ltb i st.objmaxcnt then st.stubs i else new_stub o;
        cache_obj_idx_stk = push_indices st.objmaxcnt 1023 [];
        objmaxcnt = st.objmaxcnt + 1024;
      },
      st.objmaxcnt,
    )
    | rv ∷ stk ↦ (record st { cache_obj_idx_stk = stk }, rv)
  ]

  -- `notify` of the object: the result is whether a bit of the mask was not set.
  unfoldable pub notify : ℕ → Store O F → Store O F × Bool
  notify mask st =
      (record st { smask = bit_or mask st.smask }, not (bit_or mask st.smask == st.smask))

  abbrev pub raise : Store O F → Store O F
  raise st = record st { raised = st.raised + 1 }

  unfoldable pub notify_object : UniqueId → Store O F → Store O F
  notify_object id st =
      let filled = record st { fill_erase_vector = st.fill_erase_vector ++ id ∷ [] } in
      let told = notify s_raise filled in
      if length filled.fill_erase_vector == 1
      then if told.1 then raise told.0 else told.0
      else filled

  unfoldable pub erase_pointer : UniqueId → Bool → Store O F → Store O F
  erase_pointer id isalive st =
      if ltb id.index st.objmaxcnt
      then notify_object id (at_stub id.index (do_decrement_object_use_count id isalive) st).0
      else st

  -- `Pointer::clear`, which the destructor calls, with `PointerBase::doClear`.
  unfoldable pub clear_pointer : Pointer → Store O F → Pointer × Store O F
  clear_pointer p st =
      if empty_pointer p
      then (p, st)
      else if p.psb
      then (no_pointer, erase_pointer p.uid (alive p) st)
      else (record p { pt = none }, st)

  -- The assignment of a pointer, which leaves an empty one behind.
  unfoldable pub assign_pointer : Pointer → Pointer → Store O F → Pointer × Pointer × Store O F
  assign_pointer p from st =
      let freed = release_pointer from in
      (record from { pt = freed.0 }, freed.1, (clear_pointer p st).1)

  -- `reset` sets the address only.
  unfoldable pub reset_pointer : Pointer → Option ℕ → Store O F → Pointer × Store O F
  reset_pointer p pt st = let r = clear_pointer p st in (record r.0 { pt = pt }, r.1)

  -- What `insertAlive`, `insertShared` and `insertUnique` have in common.
  unfoldable pub insert :
      O
      → (Stub O F → Stub O F)
      → (ℕ → Stub O F → Stub O F × Pointer)
      → Store O F
      → Store O F × Pointer
  insert o put try st =
      let fresh = do_allocate_index o st in at_stub fresh.1 (λ s. try fresh.1 (put s)) fresh.0

  abbrev put_object : O → Stub O F → Stub O F
  put_object o s = record s { obj = o }

  abbrev pub insert_alive_object : O → O → Store O F → Store O F × Pointer
  insert_alive_object o rt st = insert o (put_object rt) do_try_get_alive st

  abbrev pub insert_shared_object : O → O → Store O F → Store O F × Pointer
  insert_shared_object o rt st = insert o (put_object rt) do_try_get_shared st

  abbrev pub insert_unique_object : O → O → Store O F → Store O F × Pointer
  insert_unique_object o rt st = insert o (put_object rt) do_try_get_unique st

  abbrev pub insert_alive : O → Store O F → Store O F × Pointer
  insert_alive o st = insert o (λ s. s) do_try_get_alive st

  abbrev pub insert_shared : O → Store O F → Store O F × Pointer
  insert_shared o st = insert o (λ s. s) do_try_get_shared st

  abbrev pub insert_unique : O → Store O F → Store O F × Pointer
  insert_unique o st = insert o (λ s. s) do_try_get_unique st

  -- `idx < atomicMaxCount()`, and `rs.uid == _ruid.unique`.
  abbrev pub in_range : UniqueId → Store O F → Bool
  in_range id st = ltb id.index st.objmaxcnt

  abbrev pub is_id_current : UniqueId → Store O F → Bool
  is_id_current id st = (st.stubs id.index).uid == id.unique

  -- What `alive`, `unique` and `shared` have in common. They leave the error code alone.
  unfoldable pub get :
      (ℕ → Stub O F → Stub O F × Pointer) → UniqueId → Store O F → Store O F × Pointer
  get try id st =
      if in_range id st && is_id_current id st
      then at_stub id.index (try id.index) st
      else (st, no_pointer)

  abbrev pub get_alive : UniqueId → Store O F → Store O F × Pointer
  get_alive id st = get do_try_get_alive id st

  abbrev pub get_unique : UniqueId → Store O F → Store O F × Pointer
  get_unique id st = get do_try_get_unique id st

  abbrev pub get_shared : UniqueId → Store O F → Store O F × Pointer
  get_shared id st = get do_try_get_shared id st

  unfoldable pub unique_to_shared : Pointer → Store O F → Store O F × Bool
  unique_to_shared p st =
      let r = at_stub p.uid.index do_switch_unique_to_shared st in
      if not (empty_pointer p) && (in_range p.uid st && is_id_current p.uid st)
      then if r.1 && waits_for_shared (st.stubs p.uid.index).waits
        then (notify_object p.uid r.0, true)
        else r
      else (st, false)

  -- `doTryAllocateWait`, or a new node.
  unfoldable pub allocate_wait : Store O F → Store O F × ℕ
  allocate_wait st = elim st.cache_wait_stk [
    | [] ↦ (record st { waitdq_size = st.waitdq_size + 1 }, st.waitdq_size)
    | node ∷ stk ↦ (record st { cache_wait_stk = stk }, node)
  ]

  unfoldable pub do_push_wait : ℕ → F → WaitKind → Store O F → Store O F
  do_push_wait idx f k st =
      let fresh = allocate_wait st in
      put_stub idx (push_wait fresh.1 f k (fresh.0.stubs idx)) fresh.0

  abbrev pub accessing : {W : Type 0} → Store O F → W → Access W
  accessing st w = record {
    consume_erase_vector = st.consume_erase_vector;
    raised = st.raised;
    world = w;
  }

  abbrev pub accessed : {W : Type 0} → Access W → Store O F → Store O F
  accessed a st = record st { consume_erase_vector = a.consume_erase_vector; raised = a.raised }
