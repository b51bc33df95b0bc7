-- ===== src/Frame/SharedStore/Locks.antt =====
-- The stubs of sharedstore.hpp with the pointers that are held: what the operations on one stub lead to, in any
-- order.
use solidframe.Prelude.{ℕ, ◌+◌, ◌-◌, ◌^◌, ◌≤◌, ◌<◌, ◌≡◌, ◌≢◌, Bool, true, false, List, [], ◌∷◌}
use solidframe.Frame.Common.{UniqueId}
use solidframe.Frame.SharedStore.{
  WaitKind, unique_wait, shared_wait, reinit_wait, unique_lock_state, Stub, empty_pointer,
  ExecWaitStub, new_stub, clear_stub, can_clear, do_try_get_alive, do_try_get_shared,
  do_try_get_unique, do_try_get_reinit, do_switch_unique_to_shared, push_wait,
  do_decrement_object_use_count, do_execute_erase,
}

-- The numbers of the pointers that are held to an object.
pub record Holders : Type 0 where
  pub alive : ℕ
  pub shared : ℕ
  pub unique : ℕ

abbrev pub nobody : Holders
nobody = record { alive = 0; shared = 0; unique = 0 }

abbrev pub total : Holders → ℕ
total h = h.alive + h.shared + h.unique

abbrev pub one_alive : Holders → Holders
one_alive h = record h { alive = h.alive + 1 }

abbrev pub one_shared : Holders → Holders
one_shared h = record h { shared = h.shared + 1 }

abbrev pub one_unique : Holders → Holders
one_unique h = record h { unique = h.unique + 1 }

abbrev pub less_alive : Holders → Holders
less_alive h = record h { alive = h.alive - 1 }

abbrev pub less_shared : Holders → Holders
less_shared h = record h { shared = h.shared - 1 }

abbrev pub less_unique : Holders → Holders
less_unique h = record h { unique = h.unique - 1 }

abbrev pub share_unique : Holders → Holders
share_unique h = record h { unique = h.unique - 1; shared = h.shared + 1 }

abbrev pub with_kind : WaitKind → Holders → Holders
with_kind unique_wait h = one_unique h
with_kind shared_wait h = one_shared h
with_kind reinit_wait h = one_unique h

-- The holders after a try, which gives a pointer or none.
abbrev pub taken : (Holders → Holders) → Bool → Holders → Holders
taken more true h = h
taken more false h = more h

abbrev pub switched : Bool → Holders → Holders
switched true h = share_unique h
switched false h = h

-- The holders after pointers are handed out to waiting functions.
unfoldable pub given : {F : Type 0} → List (ExecWaitStub F) → Holders → Holders
given [] h = h
given (x ∷ xs) h = given xs (with_kind x.pw.kind h)

module _ {O F : Type 0} where
  -- One holder of a unique pointer and none of shared ones, or any number of these.
  pub record Exclusive (s : Stub O F) (h : Holders) : Type 0 where
    pub uses : s.usecnt ≡ h.shared + h.unique
    pub lives : s.alivecnt ≡ h.alive
    pub one : h.unique ≤ 1
    pub alone : 1 ≤ h.unique → h.shared ≡ 0
    pub locked : 1 ≤ h.unique → s.state ≡ unique_lock_state
    pub few : total h < 2 ^ 64

module _ {O F : Type 0} (idx : ℕ) where
  -- What can happen to a stub and the holders of its pointers. A pointer that is dropped is held before; or its id is
  -- not the stub's any more. `uniqueToShared` is called with the unique pointer, or while there is none; the code
  -- tests only the id and the state.
  pub data StubStep (s : Stub O F) (h : Holders) : Stub O F → Holders → Type 0 where
    got_alive : StubStep s h (do_try_get_alive idx s).0 (one_alive h)
    tried_shared :
        StubStep s h
          (do_try_get_shared idx s).0
          (taken one_shared (empty_pointer (do_try_get_shared idx s).1) h)
    tried_unique :
        StubStep s h
          (do_try_get_unique idx s).0
          (taken one_unique (empty_pointer (do_try_get_unique idx s).1) h)
    tried_reinit :
        StubStep s h
          (do_try_get_reinit idx s).0
          (taken one_unique (empty_pointer (do_try_get_reinit idx s).1) h)
    waited : (node : ℕ) (f : F) (k : WaitKind) → StubStep s h (push_wait node f k s) h
    shared_by_unique :
        1 ≤ h.unique
        → StubStep s h
            (do_switch_unique_to_shared s).0
            (switched (do_switch_unique_to_shared s).1 h)
    shared_by_other : h.unique ≡ 0 → StubStep s h (do_switch_unique_to_shared s).0 h
    dropped_alive :
        1 ≤ h.alive
        → StubStep s h
            (do_decrement_object_use_count (record { index = idx; unique = s.uid }) true s).0
            (less_alive h)
    dropped_shared :
        1 ≤ h.shared
        → StubStep s h
            (do_decrement_object_use_count (record { index = idx; unique = s.uid }) false s).0
            (less_shared h)
    dropped_unique :
        1 ≤ h.unique
        → StubStep s h
            (do_decrement_object_use_count (record { index = idx; unique = s.uid }) false s).0
            (less_unique h)
    dropped_stale :
        (id : UniqueId) (isalive : Bool)
        → s.uid ≢ id.unique
        → StubStep s h (do_decrement_object_use_count id isalive s).0 h
    erased : StubStep s h (do_execute_erase idx s []).0 (given (do_execute_erase idx s []).1 h)
    reused : (o : O) → can_clear s ≡ true → StubStep s h (record (clear_stub s) { obj = o }) h

  -- The stubs and holders that steps lead to, with less than 2^64 pointers to an object at any time.
  pub data Reached (o : O) : Stub O F → Holders → Type 0 where
    start : Reached o (new_stub o) nobody
    next :
        (s : Stub O F) (h : Holders) (s' : Stub O F) (h' : Holders)
        → Reached o s h
        → StubStep s h s' h'
        → total h' < 2 ^ 64
        → Reached o s' h'
