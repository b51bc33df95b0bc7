-- ===== src/Frame/SharedStore/Exclusive/Steps.antt =====
-- The steps of the stubs of sharedstore.hpp, and what any of them lead to.
use solidframe.Prelude.{
  ℕ, ◌+◌, ◌^◌, ◌≤◌, ◌<◌, ◌≡◌, refl, sym, ◌∙◌, Bool, true, false, ◌&&◌, [], ◌==◌, if◌then◌else◌,
  arith,
}
use solidframe.Utility.InnerList.{invalid_index}
use solidframe.Frame.SharedStore.{
  shared_lock_state, is_unique_lock, is_shared_lock, Stub, Pointer, pointer_to, no_pointer,
  empty_pointer, decrement_count, no_waits, can_clear, do_try_get_alive, do_try_get_shared,
  do_try_get_unique, do_try_get_reinit, do_switch_unique_to_shared, do_decrement_object_use_count,
  do_execute_erase,
}
use solidframe.Frame.SharedStore.Locks.{
  Holders, total, one_shared, one_unique, less_shared, less_unique, taken, switched, given,
  StubStep, got_alive, tried_shared, tried_unique, tried_reinit, waited, shared_by_unique,
  shared_by_other, dropped_alive, dropped_shared, dropped_unique, dropped_stale, erased, reused,
  Reached, start, next, Exclusive,
}
use solidframe.Frame.SharedStore.Exclusive.{
  up, down, same_uid, not_unique, unused, unique-Exclusive, shared-Exclusive, can_clear-unused,
  can_clear-nobody, deliver_waits-Exclusive,
}

module _ {O F : Type 0} (idx : ℕ) where
  down_uses :
      (s : Stub O F) (h h' : Holders)
      → Exclusive s h
      → h'.shared + h'.unique + 1 ≡ h.shared + h.unique
      → h'.alive ≡ h.alive
      → h'.shared ≤ h.shared
      → h'.unique ≤ h.unique
      → Exclusive (record s { usecnt = decrement_count s.usecnt }) h'
  down_uses s h h' x e a b c = record {
    uses =
        down s.usecnt (omega (arith, x.uses)) (omega (arith, x.uses, x.few))
        ∙ omega (arith, x.uses);
    lives = x.lives ∙ sym a;
    one = omega (arith, x.one);
    alone = λ l. omega (arith, x.alone (omega arith));
    locked = λ l. x.locked (omega arith);
    few = omega (arith, x.few);
  }

  tried-Exclusive :
      (b : Bool) (s s' : Stub O F) (h : Holders) (more : Holders → Holders)
      → idx < invalid_index
      → Exclusive s h
      → (b ≡ true → total (more h) < 2 ^ 64 → Exclusive s' (more h))
      → let r : Stub O F × Pointer = if b then (s', pointer_to idx s) else (s, no_pointer) in
        total (taken more (empty_pointer r.1) h) < 2 ^ 64
        → Exclusive r.0 (taken more (empty_pointer r.1) h)
  tried-Exclusive true s s' h more v x got =
      let valid : (idx == invalid_index) ≡ false = ground (arith, v) in rw valid (got refl)
  tried-Exclusive false s s' h more v x got = λ few. x

  switched-Exclusive :
      (b : Bool) (s : Stub O F) (h : Holders)
      → Exclusive s h
      → 1 ≤ h.unique
      → let r : Stub O F × Bool =
          if b then (record s { state = shared_lock_state }, true) else (s, false) in
        total (switched r.1 h) < 2 ^ 64 → Exclusive r.0 (switched r.1 h)
  switched-Exclusive true s h x l few = record {
    uses = omega (arith, x.uses);
    lives = x.lives;
    one = omega (arith, x.one);
    alone = λ m. absurd (omega (arith, x.one));
    locked = λ m. absurd (omega (arith, x.one));
    few = few;
  }
  switched-Exclusive false s h x l few = x

  -- The state of an object that no unique pointer holds does not matter.
  unheld_switched :
      (b : Bool) (s : Stub O F) (h : Holders)
      → Exclusive s h
      → h.unique ≡ 0
      → total h < 2 ^ 64
      → let r : Stub O F × Bool =
          if b then (record s { state = shared_lock_state }, true) else (s, false) in
        Exclusive r.0 h
  unheld_switched false s h x none few = x
  unheld_switched true s h x none few = record {
    uses = x.uses;
    lives = x.lives;
    one = x.one;
    alone = x.alone;
    locked = λ l. absurd (omega (arith, none, l));
    few = few;
  }

  StubStep-Exclusive :
      (s : Stub O F) (h : Holders) (s' : Stub O F) (h' : Holders)
      → idx < invalid_index
      → Exclusive s h
      → StubStep idx s h s' h'
      → total h' < 2 ^ 64
      → Exclusive s' h'
  unfolding do_try_get_alive do_try_get_shared do_try_get_unique do_try_get_reinit
      do_switch_unique_to_shared do_decrement_object_use_count do_execute_erase given
  StubStep-Exclusive s h _ _ v x got_alive = λ few. record {
    uses = x.uses;
    lives = up s.alivecnt (omega (arith, x.lives)) ∙ omega (arith, x.lives);
    one = x.one;
    alone = x.alone;
    locked = λ _. refl;
    few = few;
  }
  StubStep-Exclusive s h _ _ v x tried_shared =
      tried-Exclusive (is_shared_lock s.state && no_waits s.waits) s _ h one_shared v x
        (λ b few. shared-Exclusive s h s.waits s.state x (not_unique s h x (ground (arith, b))) few)
  StubStep-Exclusive s h _ _ v x tried_unique =
      tried-Exclusive (s.usecnt == 0) s _ h one_unique v x (unique-Exclusive s h s.waits x)
  StubStep-Exclusive s h _ _ v x tried_reinit =
      tried-Exclusive (can_clear s) s _ h one_unique v x
        (λ b. unique-Exclusive s h s.waits x (can_clear-unused s b))
  StubStep-Exclusive s h _ _ v x (waited node f k) = λ few. record {
    uses = x.uses;
    lives = x.lives;
    one = x.one;
    alone = x.alone;
    locked = x.locked;
    few = few;
  }
  StubStep-Exclusive s h _ _ v x (shared_by_unique l) =
      switched-Exclusive (is_unique_lock s.state) s h x l
  StubStep-Exclusive s h _ _ v x (shared_by_other none) =
      unheld_switched (is_unique_lock s.state) s h x none
  StubStep-Exclusive s h _ _ v x (dropped_alive l) = rw (same_uid s.uid) (λ few. record {
    uses = x.uses;
    lives =
        down s.alivecnt (omega (arith, x.lives)) (omega (arith, x.lives, x.few))
        ∙ omega (arith, x.lives);
    one = x.one;
    alone = x.alone;
    locked = x.locked;
    few = few;
  })
  StubStep-Exclusive s h _ _ v x (dropped_shared l) =
      rw (same_uid s.uid)
        (λ few. down_uses s h (less_shared h) x (omega arith) refl (omega arith) (omega arith))
  StubStep-Exclusive s h _ _ v x (dropped_unique l) =
      rw (same_uid s.uid)
        (λ few. down_uses s h (less_unique h) x (omega arith) refl (omega arith) (omega arith))
  StubStep-Exclusive s h _ _ v x (dropped_stale id b ne) =
      let other : (s.uid == id.unique) ≡ false = ground (arith, ne) in rw other (λ few. x)
  StubStep-Exclusive s h _ _ v x erased = λ few. deliver_waits-Exclusive idx s.waits s [] h x few
  StubStep-Exclusive s h _ _ v x (reused o c) = λ few.
      let n = unused s h x (can_clear-unused s c) in
      record {
        uses = x.uses;
        lives = x.lives;
        one = x.one;
        alone = x.alone;
        locked = λ l. absurd (omega (arith, n.0, l));
        few = few;
      }

  Reached-kept :
      (o : O) (s : Stub O F) (h : Holders) → idx < invalid_index → Reached idx o s h → Exclusive s h
  Reached-kept o _ _ v start = record {
    uses = refl;
    lives = refl;
    one = omega arith;
    alone = λ l. refl;
    locked = λ l. absurd (omega arith);
    few = omega arith;
  }
  Reached-kept o _ _ v (next s h s' h' r step few) =
      StubStep-Exclusive s h s' h' v (Reached-kept o s h v r) step few

  -- However the operations on an object of a valid index follow each other, with less than 2^64 pointers to it at any
  -- time, where a pointer that is dropped is held before or its id is not the object's any more, and `uniqueToShared`,
  -- while someone holds a unique pointer, is called with that pointer only: its counts are the numbers of the alive pointers and of the others that are held, the one who holds a unique
  -- pointer is the only one but for alive pointers, and an object that can be cleared has no pointer to it.
  pub Reached-Exclusive :
      (o : O) (s : Stub O F) (h : Holders)
      → idx < invalid_index
      → Reached idx o s h
      → Exclusive s h × (can_clear s ≡ true → total h ≡ 0)
  Reached-Exclusive o s h v r = let x = Reached-kept o s h v r in (x, can_clear-nobody s h x)
