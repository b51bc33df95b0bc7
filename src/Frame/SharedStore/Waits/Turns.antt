-- ===== src/Frame/SharedStore/Waits/Turns.antt =====
-- `doExecuteErase` of sharedstore.hpp: everyone whose turn it is gets a pointer.
use solidframe.Prelude.{
  ℕ, ◌+◌, ◌≤◌, ◌<◌, ◌^◌, ◌≡◌, refl, sym, subst, true, false, Bool-cases, inl, inr, List, [], ◌∷◌,
  ◌++◌, ◌==◌, ==_iff, arith,
}
use solidframe.Prelude.Lists.{length}
use solidframe.Frame.SharedStore.{
  WaitKind, unique_wait, shared_wait, reinit_wait, is_shared_lock, WaitStub, Stub, ExecWaitStub,
  can_deliver, delivered, exec_wait, deliver_waits, do_execute_erase,
}
use solidframe.Frame.SharedStore.Waits.{
  sharers, turn, served, Delivers, increment_count-suc, none_delivered, deliver_waits-used,
  one_more, deliver_waits-shared, deliver_waits-alone,
}

module _ {O F : Type 0} where
  module _ (idx : ℕ) where
    deliver_waits-first :
        (w : WaitStub F) (ws : List (WaitStub F)) (s : Stub O F) (xs : List (ExecWaitStub F))
        → s.waits ≡ w ∷ ws
        → s.usecnt ≡ 0
        → length (w ∷ ws) < 2 ^ 64
        → Delivers idx s xs
            (deliver_waits idx (w ∷ ws) s xs)
            (turn s.alivecnt (w ∷ ws)).0
            (turn s.alivecnt (w ∷ ws)).1
    unfolding deliver_waits turn can_deliver delivered sharers
    deliver_waits-first w ws s xs e u few = by_kind w.kind e
      where
        z : (s.usecnt == 0) ≡ true
        z = (==_iff s.usecnt 0).1 u

        by_kind :
            (k : WaitKind)
            → s.waits ≡ record w { kind = k } ∷ ws
            → Delivers idx s xs
                (deliver_waits idx (record w { kind = k } ∷ ws) s xs)
                (turn s.alivecnt (record w { kind = k } ∷ ws)).0
                (turn s.alivecnt (record w { kind = k } ∷ ws)).1
        by_kind unique_wait e =
            deliver_waits-alone idx (record w { kind = unique_wait }) ws s xs refl z
              (omega (arith, u))
        by_kind shared_wait e =
            let v = record w { kind = shared_wait } in
            let inc = increment_count-suc s.usecnt (omega (arith, u)) in
            rw z (
              one_more idx v ws s xs _ _ _ (omega (arith, u)) (
                deliver_waits-shared idx ws (delivered v ws s) (xs ++ exec_wait idx s v ∷ []) refl
                  (omega (arith, inc)) refl (omega (arith, inc, u, few))))
        by_kind reinit_wait e = elim (Bool-cases (s.alivecnt == 0)) [
          | inl a ↦
              let v = record w { kind = reinit_wait } in
              let c : can_deliver reinit_wait s ≡ true = rw (z, a) refl in
              let mine : turn s.alivecnt (v ∷ ws) ≡ (v ∷ [], ws) = rw a refl in
              subst (λ p. Delivers idx s xs (deliver_waits idx (v ∷ ws) s xs) p.0 p.1) (sym mine)
                (deliver_waits-alone idx v ws s xs refl c (omega (arith, u)))
          | inr a ↦ rw (z, a) (none_delivered idx s xs (record w { kind = reinit_wait } ∷ ws) e)
        ]

    deliver_waits-turn :
        (ws : List (WaitStub F)) (s : Stub O F) (xs : List (ExecWaitStub F))
        → s.waits ≡ ws
        → s.usecnt ≡ 0
        → length ws < 2 ^ 64
        → Delivers idx s xs
            (deliver_waits idx ws s xs)
            (turn s.alivecnt ws).0
            (turn s.alivecnt ws).1
    unfolding deliver_waits turn
    deliver_waits-turn [] s xs e u few = none_delivered idx s xs [] e
    deliver_waits-turn (w ∷ ws) s xs e u few = deliver_waits-first w ws s xs e u few

    served_unused : (s : Stub O F) → (s.usecnt == 0) ≡ true → served s ≡ turn s.alivecnt s.waits
    unfolding served
    served_unused s z = rw z refl

    served_shared :
        (s : Stub O F)
        → (s.usecnt == 0) ≡ false
        → is_shared_lock s.state ≡ true
        → served s ≡ sharers s.waits
    unfolding served
    served_shared s z l = rw (z, l) refl

    served_locked :
        (s : Stub O F)
        → (s.usecnt == 0) ≡ false
        → is_shared_lock s.state ≡ false
        → served s ≡ ([], s.waits)
    unfolding served
    served_locked s z l = rw (z, l) refl

    -- With less than 2^64 pointers to the object, those in use and those waited for: `doExecuteErase` hands pointers to
    -- those whose turn it is, and to no others, in the order in which they wait. If nobody uses the object that is the
    -- first who waits, and with a first who would share all who would share up to the first other one; a first who waits
    -- for the object to have no alive pointers gets none while there are some. If the object is shared it is those who
    -- would share up to the first other one, and under a unique lock nobody. The others go on waiting in their order, and
    -- the use count grows by the number of the pointers.
    pub do_execute_erase-Delivers :
        (s : Stub O F) (xs : List (ExecWaitStub F))
        → s.usecnt + length s.waits < 2 ^ 64
        → Delivers idx s xs (do_execute_erase idx s xs) (served s).0 (served s).1
    unfolding do_execute_erase
    do_execute_erase-Delivers s xs few = elim (Bool-cases (s.usecnt == 0)) [
      | inl z ↦
          let u : s.usecnt ≡ 0 = (==_iff s.usecnt 0).0 z in
          subst is_outcome (sym (served_unused s z))
            (deliver_waits-turn s.waits s xs refl u (omega (arith, u, few)))
      | inr z ↦
          let u : 1 ≤ s.usecnt = ground (arith, z) in
          elim (Bool-cases (is_shared_lock s.state)) [
            | inl l ↦
                subst is_outcome (sym (served_shared s z l))
                  (deliver_waits-shared idx s.waits s xs refl u l few)
            | inr l ↦ subst is_outcome (sym (served_locked s z l)) (
                subst (λ r. Delivers idx s xs r [] s.waits)
                  (sym (deliver_waits-used idx s.waits s xs u l))
                  (none_delivered idx s xs s.waits refl))
          ]
    ]
      where
        is_outcome : List (WaitStub F) × List (WaitStub F) → Type 0
        is_outcome p = Delivers idx s xs (deliver_waits idx s.waits s xs) p.0 p.1
