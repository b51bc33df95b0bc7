-- ===== src/Frame/SharedStore.antt =====
-- The objects of solid/frame/sharedstore.hpp: the stubs of a store, the pointers to them, and the operations on one
-- stub, each of which the code runs with the stub's mutex locked. The list of the waiting functions is a list, from
-- its first to its last; a node of it has a number, as the code keeps the nodes for reuse. The address of an
-- object is its index. Counts have 64 bits and wrap around.
pub mod Locks
pub mod Exclusive
pub mod Waits
pub mod Store
pub mod Wake
pub mod Reuse
pub mod Indices
use solidframe.Prelude.{
  ℕ, ◌+◌, ◌-◌, ◌%◌, ◌^◌, Bool, true, false, not, ◌&&◌, ◌||◌, Option, none, some, List, [], ◌∷◌,
  ◌++◌, ◌==◌, if◌then◌else◌,
}
use solidframe.Frame.Common.{UniqueId, no_unique_id, is_invalid}

pub data WaitKind : Type 0 where
  unique_wait : WaitKind
  shared_wait : WaitKind
  reinit_wait : WaitKind

pub data StubState : Type 0 where
  unlocked_state : StubState
  unique_lock_state : StubState
  shared_lock_state : StubState

abbrev pub is_unique_lock : StubState → Bool
is_unique_lock unlocked_state = false
is_unique_lock unique_lock_state = true
is_unique_lock shared_lock_state = false

abbrev pub is_shared_lock : StubState → Bool
is_shared_lock unlocked_state = false
is_shared_lock unique_lock_state = false
is_shared_lock shared_lock_state = true

abbrev pub is_shared_wait : WaitKind → Bool
is_shared_wait unique_wait = false
is_shared_wait shared_wait = true
is_shared_wait reinit_wait = false

-- The state in which a waiting function is given its pointer.
abbrev pub locked_by : WaitKind → StubState
locked_by unique_wait = unique_lock_state
locked_by shared_wait = shared_lock_state
locked_by reinit_wait = unique_lock_state

-- `WaitStub`. `F` is the type of the functions to call.
pub record WaitStub (F : Type 0) : Type 0 where
  pub node : ℕ
  pub kind : WaitKind
  pub fnc : F

-- `Stub`. `O` is the type of the objects.
pub record Stub (O F : Type 0) : Type 0 where
  pub obj : O
  pub uid : ℕ
  pub alivecnt : ℕ
  pub usecnt : ℕ
  pub state : StubState
  pub waits : List (WaitStub F)

-- `PointerBase` and `Pointer`. There is one store, so `psb` says whether it is not null.
pub record Pointer : Type 0 where
  pub uid : UniqueId
  pub psb : Bool
  pub pt : Option ℕ

-- `PointerT()`.
abbrev pub no_pointer : Pointer
no_pointer = record { uid = no_unique_id; psb = false; pt = none }

abbrev pub empty_pointer : Pointer → Bool
empty_pointer p = is_invalid p.uid

abbrev pub is_none {ℓ} : {A : Type ℓ} → Option A → Bool
is_none none = true
is_none (some x) = false

abbrev pub alive : Pointer → Bool
alive p = is_none p.pt

-- `ExecWaitStub`: a pointer to hand out, and the node with the function that gets it.
pub record ExecWaitStub (F : Type 0) : Type 0 where
  pub uid : UniqueId
  pub pt : ℕ
  pub pw : WaitStub F

unfoldable pub increment_count : ℕ → ℕ
increment_count n = (n + 1) % 2 ^ 64

unfoldable pub decrement_count : ℕ → ℕ
decrement_count n = (n + (2 ^ 64 - 1)) % 2 ^ 64

abbrev pub no_waits {ℓ} : {A : Type ℓ} → List A → Bool
no_waits [] = true
no_waits (x ∷ xs) = false

module _ {O F : Type 0} where
  -- `Stub()`, around an object.
  abbrev pub new_stub : O → Stub O F
  new_stub o = record {
    obj = o;
    uid = 0;
    alivecnt = 0;
    usecnt = 0;
    state = unlocked_state;
    waits = [];
  }

  -- `Stub::clear`.
  abbrev pub clear_stub : Stub O F → Stub O F
  clear_stub s = record s { uid = (s.uid + 1) % 2 ^ 32; state = unlocked_state }

  unfoldable pub can_clear : Stub O F → Bool
  can_clear s = (s.usecnt == 0) && ((s.alivecnt == 0) && no_waits s.waits)

  unfoldable pub do_try_get_alive : ℕ → Stub O F → Stub O F × Pointer
  do_try_get_alive idx s = (
    record s { alivecnt = increment_count s.alivecnt; state = unique_lock_state },
    record { uid = record { index = idx; unique = s.uid }; psb = true; pt = none },
  )

  -- `PointerT(&rs.obj, this, UniqueId(_idx, rs.uid))`.
  abbrev pub pointer_to : ℕ → Stub O F → Pointer
  pointer_to idx s = record {
    uid = record { index = idx; unique = s.uid };
    psb = true;
    pt = some idx;
  }

  unfoldable pub do_try_get_shared : ℕ → Stub O F → Stub O F × Pointer
  do_try_get_shared idx s =
      if is_shared_lock s.state && no_waits s.waits
      then (record s { usecnt = increment_count s.usecnt }, pointer_to idx s)
      else (s, no_pointer)

  -- The assertion that nothing waits is not there outside of debugging.
  unfoldable pub do_try_get_unique : ℕ → Stub O F → Stub O F × Pointer
  do_try_get_unique idx s =
      if s.usecnt == 0
      then (
        record s { usecnt = increment_count s.usecnt; state = unique_lock_state },
        pointer_to idx s,
      )
      else (s, no_pointer)

  unfoldable pub do_try_get_reinit : ℕ → Stub O F → Stub O F × Pointer
  do_try_get_reinit idx s =
      if can_clear s
      then (
        record s { usecnt = increment_count s.usecnt; state = unique_lock_state },
        pointer_to idx s,
      )
      else (s, no_pointer)

  -- The assertion that the use count is 1 is not there outside of debugging.
  unfoldable pub do_switch_unique_to_shared : Stub O F → Stub O F × Bool
  do_switch_unique_to_shared s =
      if is_unique_lock s.state then (record s { state = shared_lock_state }, true) else (s, false)

  -- `doPushWait`, with the node that it takes.
  abbrev pub push_wait : ℕ → F → WaitKind → Stub O F → Stub O F
  push_wait node f k s = record s {
    waits = s.waits ++ record { node = node; kind = k; fnc = f } ∷ [];
  }

  -- The test whether the last pointer is gone is not used by the caller.
  unfoldable pub do_decrement_object_use_count : UniqueId → Bool → Stub O F → Stub O F × Bool
  do_decrement_object_use_count id isalive s =
      let fewer_alive = record s { alivecnt = decrement_count s.alivecnt } in
      let fewer_uses = record s { usecnt = decrement_count s.usecnt } in
      if s.uid == id.unique
      then if isalive
        then (fewer_alive, (fewer_alive.usecnt == 0) && (fewer_alive.alivecnt == 0))
        else (fewer_uses, fewer_uses.usecnt == 0)
      else (s, false)

  -- The conditions of the switch in `doExecuteErase`, and what it sets.
  unfoldable pub can_deliver : WaitKind → Stub O F → Bool
  can_deliver unique_wait s = s.usecnt == 0
  can_deliver shared_wait s = (s.usecnt == 0) || is_shared_lock s.state
  can_deliver reinit_wait s = (s.usecnt == 0) && (s.alivecnt == 0)

  unfoldable pub delivered : WaitStub F → List (WaitStub F) → Stub O F → Stub O F
  delivered w ws s = record s {
    state = locked_by w.kind;
    usecnt = increment_count s.usecnt;
    waits = ws;
  }

  abbrev pub exec_wait : ℕ → Stub O F → WaitStub F → ExecWaitStub F
  exec_wait idx s w = record { uid = record { index = idx; unique = s.uid }; pt = idx; pw = w }

  -- The loop of `doExecuteErase`; the functions to call are behind those that are there already.
  unfoldable pub deliver_waits :
      ℕ → List (WaitStub F) → Stub O F → List (ExecWaitStub F) → Stub O F × List (ExecWaitStub F)
  deliver_waits idx [] s xs = (s, xs)
  deliver_waits idx (w ∷ ws) s xs =
      let rest = deliver_waits idx ws (delivered w ws s) (xs ++ exec_wait idx s w ∷ []) in
      if can_deliver w.kind s then rest else (s, xs)

  unfoldable pub do_execute_erase :
      ℕ → Stub O F → List (ExecWaitStub F) → Stub O F × List (ExecWaitStub F)
  do_execute_erase idx s xs = deliver_waits idx s.waits s xs
