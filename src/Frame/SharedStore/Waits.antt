-- ===== src/Frame/SharedStore/Waits.antt =====
-- `doExecuteErase` of sharedstore.hpp: which of the waiting functions get a pointer.
pub mod Turns
use solidframe.Prelude.{
  ℕ, ◌+◌, ◌≤◌, ◌<◌, ◌^◌, ◌≡◌, refl, sym, subst, ◌∙◌, true, false, Bool-cases, inl, inr, List, [],
  ◌∷◌, ◌++◌, append-nil, append_assoc, ◌==◌, ==_iff, if◌then◌else◌, arith,
}
use solidframe.Prelude.Lists.{length}
use solidframe.Frame.SharedStore.{
  WaitKind, unique_wait, shared_wait, reinit_wait, is_shared_lock, is_shared_wait, locked_by,
  WaitStub, Stub, ExecWaitStub, increment_count, can_deliver, delivered, exec_wait, deliver_waits,
  do_execute_erase,
}

pub positive : (n : ℕ) → 1 ≤ n → (n == 0) ≡ false
positive n h = ground arith

pub increment_count-suc : (n : ℕ) → n + 1 < 2 ^ 64 → increment_count n ≡ n + 1
unfolding increment_count
increment_count-suc n h = omega arith

locked_shared : (k : WaitKind) → is_shared_wait k ≡ true → is_shared_lock (locked_by k) ≡ true
locked_shared unique_wait e = absurd (grind (arith, e))
locked_shared shared_wait e = refl
locked_shared reinit_wait e = absurd (grind (arith, e))

locked_other : (k : WaitKind) → is_shared_wait k ≡ false → is_shared_lock (locked_by k) ≡ false
locked_other unique_wait e = refl
locked_other shared_wait e = absurd (grind (arith, e))
locked_other reinit_wait e = refl

module _ {F : Type 0} where
  -- The shared waits up to the first other one, and the waits from there on.
  unfoldable pub sharers : List (WaitStub F) → List (WaitStub F) × List (WaitStub F)
  sharers [] = ([], [])
  sharers (w ∷ ws) =
      let rest = sharers ws in if is_shared_wait w.kind then (w ∷ rest.0, rest.1) else ([], w ∷ ws)

  -- Whose turn it is when nobody uses the object: the first one's, unless it waits for the alive pointers, and
  -- if it is a shared wait that of the shared waits behind it too.
  unfoldable pub turn : ℕ → List (WaitStub F) → List (WaitStub F) × List (WaitStub F)
  turn alivecnt [] = ([], [])
  turn alivecnt (w ∷ ws) = elim w.kind [
    | unique_wait ↦ (w ∷ [], ws)
    | shared_wait ↦ sharers (w ∷ ws)
    | reinit_wait ↦ if alivecnt == 0 then (w ∷ [], ws) else ([], w ∷ ws)
  ]

  abbrev pub handed : ℕ → ℕ → List (WaitStub F) → List (ExecWaitStub F)
  handed idx uid [] = []
  handed idx uid (w ∷ ws) =
      record { uid = record { index = idx; unique = uid }; pt = idx; pw = w } ∷ handed idx uid ws

module _ {O F : Type 0} where
  -- Those who get a pointer, and those who go on waiting.
  unfoldable pub served : Stub O F → List (WaitStub F) × List (WaitStub F)
  served s =
      if s.usecnt == 0
      then turn s.alivecnt s.waits
      else if is_shared_lock s.state
      then sharers s.waits
      else ([], s.waits)

  -- What is left of the stub, and what is handed out behind the functions that are there already.
  pub record Delivers (idx : ℕ) (s : Stub O F) (xs : List (ExecWaitStub F))
      (r : Stub O F × List (ExecWaitStub F)) (now : List (WaitStub F)) (later : List (WaitStub F))
      : Type 0 where
    pub calls : r.1 ≡ xs ++ handed idx s.uid now
    pub left : r.0.waits ≡ later
    pub uses : r.0.usecnt ≡ s.usecnt + length now
    pub same : r.0.uid ≡ s.uid
    pub lives : r.0.alivecnt ≡ s.alivecnt

  module _ (idx : ℕ) where
    shared_delivers :
        (k : WaitKind) (s : Stub O F)
        → is_shared_wait k ≡ true
        → is_shared_lock s.state ≡ true
        → can_deliver k s ≡ true
    unfolding can_deliver
    shared_delivers unique_wait s e l = absurd (grind (arith, e))
    shared_delivers shared_wait s e l = elim (Bool-cases (s.usecnt == 0)) [
      | inl z ↦ rw z refl
      | inr z ↦ rw z l
    ]
    shared_delivers reinit_wait s e l = absurd (grind (arith, e))

    other_waits :
        (k : WaitKind) (s : Stub O F)
        → 1 ≤ s.usecnt
        → is_shared_wait k ≡ false
        → can_deliver k s ≡ false
    unfolding can_deliver
    other_waits unique_wait s u e = positive s.usecnt u
    other_waits shared_wait s u e = absurd (grind (arith, e))
    other_waits reinit_wait s u e = rw (positive s.usecnt u) refl

    used_waits :
        (k : WaitKind) (s : Stub O F)
        → 1 ≤ s.usecnt
        → is_shared_lock s.state ≡ false
        → can_deliver k s ≡ false
    unfolding can_deliver
    used_waits unique_wait s u e = positive s.usecnt u
    used_waits shared_wait s u e = rw (positive s.usecnt u) e
    used_waits reinit_wait s u e = rw (positive s.usecnt u) refl

    pub none_delivered :
        (s : Stub O F) (xs : List (ExecWaitStub F)) (ws : List (WaitStub F))
        → s.waits ≡ ws
        → Delivers idx s xs (s, xs) [] ws
    none_delivered s xs ws e = record {
      calls = sym (append-nil xs);
      left = e;
      uses = omega arith;
      same = refl;
      lives = refl;
    }

    -- A unique pointer keeps all others waiting.
    pub deliver_waits-used :
        (ws : List (WaitStub F)) (s : Stub O F) (xs : List (ExecWaitStub F))
        → 1 ≤ s.usecnt
        → is_shared_lock s.state ≡ false
        → deliver_waits idx ws s xs ≡ (s, xs)
    unfolding deliver_waits
    deliver_waits-used [] s xs u e = refl
    deliver_waits-used (w ∷ ws) s xs u e = rw (used_waits w.kind s u e) refl

    -- One is delivered, and others after it.
    pub one_more :
        (w : WaitStub F) (ws : List (WaitStub F)) (s : Stub O F) (xs : List (ExecWaitStub F))
        (r : Stub O F × List (ExecWaitStub F)) (now later : List (WaitStub F))
        → s.usecnt + 1 < 2 ^ 64
        → Delivers idx (delivered w ws s) (xs ++ exec_wait idx s w ∷ []) r now later
        → Delivers idx s xs r (w ∷ now) later
    unfolding delivered
    one_more w ws s xs r now later u d = record {
      calls = d.calls ∙ append_assoc xs (exec_wait idx s w ∷ []) (handed idx s.uid now);
      left = d.left;
      uses = omega (arith, d.uses, increment_count-suc s.usecnt u);
      same = d.same;
      lives = d.lives;
    }

    pub deliver_waits-shared :
        (ws : List (WaitStub F)) (s : Stub O F) (xs : List (ExecWaitStub F))
        → s.waits ≡ ws
        → 1 ≤ s.usecnt
        → is_shared_lock s.state ≡ true
        → s.usecnt + length ws < 2 ^ 64
        → Delivers idx s xs (deliver_waits idx ws s xs) (sharers ws).0 (sharers ws).1
    unfolding deliver_waits sharers delivered
    deliver_waits-shared [] s xs e u l few = none_delivered s xs [] e
    deliver_waits-shared (w ∷ ws) s xs e u l few = elim (Bool-cases (is_shared_wait w.kind)) [
      | inl k ↦
          let inc = increment_count-suc s.usecnt (omega (arith, few)) in
          rw (shared_delivers w.kind s k l, k)
            (one_more w ws s xs _ _ _ (omega (arith, few)) (
              deliver_waits-shared ws (delivered w ws s) (xs ++ exec_wait idx s w ∷ []) refl
                (omega (arith, inc)) (locked_shared w.kind k) (omega (arith, inc, few))))
      | inr k ↦ rw (other_waits w.kind s u k, k) (none_delivered s xs (w ∷ ws) e)
    ]

    -- A unique pointer is handed out alone.
    pub deliver_waits-alone :
        (w : WaitStub F) (ws : List (WaitStub F)) (s : Stub O F) (xs : List (ExecWaitStub F))
        → is_shared_wait w.kind ≡ false
        → can_deliver w.kind s ≡ true
        → s.usecnt + 1 < 2 ^ 64
        → Delivers idx s xs (deliver_waits idx (w ∷ ws) s xs) (w ∷ []) ws
    unfolding deliver_waits delivered
    deliver_waits-alone w ws s xs k c few =
        let inc = increment_count-suc s.usecnt few in
        rw
          (
            c,
            deliver_waits-used ws (delivered w ws s) (xs ++ exec_wait idx s w ∷ [])
                (omega (arith, inc)) (locked_other w.kind k),
          )
          (one_more w ws s xs _ [] ws few (none_delivered (delivered w ws s) _ ws refl))
