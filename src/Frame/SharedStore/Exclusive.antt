-- ===== src/Frame/SharedStore/Exclusive.antt =====
-- The stubs of sharedstore.hpp with the pointers that are held: who holds what.
pub mod Steps
use solidframe.Prelude.{
  ℕ, zero, suc, ◌+◌, ◌-◌, ◌^◌, ◌≤◌, ◌<◌, ◌≡◌, refl, sym, ap, subst, ◌∙◌, Bool, true, false,
  Bool-cases, inl, inr, ◌&&◌, ◌||◌, List, [], ◌∷◌, ◌++◌, ◌==◌, ==_iff, if◌then◌else◌, arith,
}
use solidframe.Utility.InnerList.{invalid_index}
use solidframe.Frame.SharedStore.{
  WaitKind, unique_wait, shared_wait, reinit_wait, StubState, unique_lock_state, shared_lock_state,
  is_unique_lock, is_shared_lock, WaitStub, Stub, Pointer, pointer_to, no_pointer, empty_pointer,
  ExecWaitStub, increment_count, decrement_count, no_waits, can_clear, do_try_get_alive,
  do_try_get_shared, do_try_get_unique, do_try_get_reinit, do_switch_unique_to_shared,
  do_decrement_object_use_count, can_deliver, delivered, exec_wait, deliver_waits, do_execute_erase,
}
use solidframe.Frame.SharedStore.Locks.{
  Holders, total, one_shared, one_unique, less_shared, less_unique, with_kind, taken, switched,
  given, StubStep, got_alive, tried_shared, tried_unique, tried_reinit, waited, shared_by_unique,
  dropped_alive, dropped_shared, dropped_unique, dropped_stale, erased, reused, Reached, start,
  next, Exclusive,
}

pub up : (n : ℕ) → n + 1 < 2 ^ 64 → increment_count n ≡ n + 1
unfolding increment_count
up n h = omega arith

pub down : (n : ℕ) → 1 ≤ n → n < 2 ^ 64 → decrement_count n ≡ n - 1
unfolding decrement_count
down n h l = omega arith

given-append :
    {F : Type 0}
    → (xs : List (ExecWaitStub F)) (x : ExecWaitStub F) (h : Holders)
    → given (xs ++ x ∷ []) h ≡ with_kind x.pw.kind (given xs h)
unfolding given
given-append [] x h = refl
given-append (y ∷ xs) x h = given-append xs x (with_kind y.pw.kind h)

total-with_kind : (k : WaitKind) (h : Holders) → total (with_kind k h) ≡ total h + 1
total-with_kind unique_wait h = omega arith
total-with_kind shared_wait h = omega arith
total-with_kind reinit_wait h = omega arith

module _ {O F : Type 0} where
  pub not_unique :
      (s : Stub O F) (h : Holders) → Exclusive s h → is_shared_lock s.state ≡ true → h.unique ≡ 0
  not_unique s h x e = by_unique h.unique x.locked
    where
      by_unique : (u : ℕ) → (1 ≤ u → s.state ≡ unique_lock_state) → u ≡ 0
      by_unique zero l = refl
      by_unique (suc u) l =
          let clash : false ≡ true = ap is_shared_lock (sym (l (omega arith))) ∙ e in
          absurd (grind (arith, clash))

  pub unused :
      (s : Stub O F) (h : Holders)
      → Exclusive s h
      → (s.usecnt == 0) ≡ true
      → (h.unique ≡ 0) × (h.shared ≡ 0)
  unused s h x e =
      let z : s.usecnt ≡ 0 = (==_iff s.usecnt 0).0 e in
      (omega (arith, x.uses), omega (arith, x.uses))

  pub unique-Exclusive :
      (s : Stub O F) (h : Holders) (ws : List (WaitStub F))
      → Exclusive s h
      → (s.usecnt == 0) ≡ true
      → total (one_unique h) < 2 ^ 64
      → Exclusive
          (record s { usecnt = increment_count s.usecnt; state = unique_lock_state; waits = ws })
          (one_unique h)
  unique-Exclusive s h ws x e few =
      let n = unused s h x e in
      record {
        uses = up s.usecnt (omega (arith, x.uses)) ∙ omega (arith, x.uses);
        lives = x.lives;
        one = omega (arith, n.0);
        alone = λ _. n.1;
        locked = λ _. refl;
        few = few;
      }

  pub shared-Exclusive :
      (s : Stub O F) (h : Holders) (ws : List (WaitStub F)) (st : StubState)
      → Exclusive s h
      → h.unique ≡ 0
      → total (one_shared h) < 2 ^ 64
      → Exclusive
          (record s { usecnt = increment_count s.usecnt; state = st; waits = ws })
          (one_shared h)
  shared-Exclusive s h ws st x n few = record {
    uses = up s.usecnt (omega (arith, x.uses)) ∙ omega (arith, x.uses);
    lives = x.lives;
    one = omega (arith, n);
    alone = λ l. absurd (omega (arith, n, l));
    locked = λ l. absurd (omega (arith, n, l));
    few = few;
  }

  delivered-Exclusive :
      (w : WaitStub F) (ws : List (WaitStub F)) (s : Stub O F) (h : Holders)
      → Exclusive s h
      → can_deliver w.kind s ≡ true
      → total (with_kind w.kind h) < 2 ^ 64
      → Exclusive (delivered w ws s) (with_kind w.kind h)
  unfolding can_deliver delivered
  delivered-Exclusive w ws s h x = by_kind w.kind
    where
      by_kind :
          (k : WaitKind)
          → can_deliver k s ≡ true
          → total (with_kind k h) < 2 ^ 64
          → Exclusive (delivered (record w { kind = k }) ws s) (with_kind k h)
      by_kind unique_wait e few = unique-Exclusive s h ws x e few
      by_kind shared_wait e few = elim (Bool-cases (s.usecnt == 0)) [
        | inl z ↦ shared-Exclusive s h ws shared_lock_state x (unused s h x z).0 few
        | inr z ↦
            let l : is_shared_lock s.state ≡ true =
              ap (λ b. b || is_shared_lock s.state) (sym z) ∙ e in
            shared-Exclusive s h ws shared_lock_state x (not_unique s h x l) few
      ]
      by_kind reinit_wait e few = unique-Exclusive s h ws x (ground (arith, e)) few

  pub can_clear-unused : (s : Stub O F) → can_clear s ≡ true → (s.usecnt == 0) ≡ true
  unfolding can_clear
  can_clear-unused s e = ground (arith, e)

  pub can_clear-nobody :
      (s : Stub O F) (h : Holders) → Exclusive s h → can_clear s ≡ true → total h ≡ 0
  unfolding can_clear
  can_clear-nobody s h x e =
      let n = unused s h x (ground (arith, e)) in
      let z : s.alivecnt ≡ 0 = ground (arith, e) in omega (arith, n.0, n.1, z, x.lives)

pub same_uid : (n : ℕ) → (n == n) ≡ true
same_uid n = ground arith

module _ {O F : Type 0} (idx : ℕ) where
  more_given :
      (ws : List (WaitStub F)) (s : Stub O F) (xs : List (ExecWaitStub F)) (h : Holders)
      → total (given xs h) ≤ total (given (deliver_waits idx ws s xs).1 h)
  unfolding deliver_waits
  more_given [] s xs h = omega arith
  more_given (w ∷ ws) s xs h = elim (Bool-cases (can_deliver w.kind s)) [
    | inl e ↦
        let more = more_given ws (delivered w ws s) (xs ++ exec_wait idx s w ∷ []) h in
        rw e (
          omega (
            arith,
            more,
            ap total (given-append xs (exec_wait idx s w) h),
            total-with_kind w.kind (given xs h),
          ))
    | inr e ↦ rw e (omega arith)
  ]

  pub deliver_waits-Exclusive :
      (ws : List (WaitStub F)) (s : Stub O F) (xs : List (ExecWaitStub F)) (h : Holders)
      → Exclusive s (given xs h)
      → total (given (deliver_waits idx ws s xs).1 h) < 2 ^ 64
      → Exclusive (deliver_waits idx ws s xs).0 (given (deliver_waits idx ws s xs).1 h)
  unfolding deliver_waits
  deliver_waits-Exclusive [] s xs h x = λ few. x
  deliver_waits-Exclusive (w ∷ ws) s xs h x = elim (Bool-cases (can_deliver w.kind s)) [
    | inl e ↦
        let ys : List (ExecWaitStub F) = xs ++ exec_wait idx s w ∷ [] in
        let more = more_given ws (delivered w ws s) ys h in
        let same = given-append xs (exec_wait idx s w) h in
        rw e (λ few.
          deliver_waits-Exclusive ws (delivered w ws s) ys h
            (subst (Exclusive (delivered w ws s)) (sym same) (
              delivered-Exclusive w ws s (given xs h) x e
                (omega (arith, few, more, ap total same))))
            few)
    | inr e ↦ rw e (λ few. x)
  ]
