-- ===== src/Frame/SharedStore/Wake/Serve.antt =====
-- `onEvent` of solid/frame/src/sharedstore.cpp, and the stores that its users' operations and events lead to.
use solidframe.Prelude.{
  ℕ, ◌+◌, ◌≤◌, ◌≡◌, refl, sym, ap, ◌∙◌, Bool, true, false, Bool-cases, ◌⊎◌, inl, inr, not, ◌&&◌,
  ◌||◌, List, [], ◌∷◌, append-nil, ◌==◌, leb, if◌then◌else◌, arith, bit_and,
}
use solidframe.Frame.Common.{UniqueId}
use solidframe.Frame.SharedStore.{
  WaitKind, reinit_wait, Stub, Pointer, ExecWaitStub, no_waits, empty_pointer, no_pointer,
  can_clear, clear_stub, do_try_get_reinit,
}
use solidframe.Frame.SharedStore.Store.{
  Store, Access, Controller, do_allocate_index, s_raise, raise, in_range, is_id_current,
  do_push_wait, accessing, accessed, at_stub,
}
use solidframe.Frame.SharedStore.Store.Requests.{call_function, request, reinit_at, request_reinit}
use solidframe.Frame.SharedStore.Store.Execute.{
  execute_id, execute_ids, do_execute_cache, execute_waits, cache_index, cache_indices,
  execute_vector, do_execute, grab_signals, on_raise,
}
use solidframe.Frame.SharedStore.Wake.{
  flagged, Awake, Keeps, Keeps-refl, Keeps-trans, Same-Awake, put_stub-Keeps, either_Keeps,
  either_Keeps₂, fields_Keeps, raise-Keeps, clear_pointer-Keeps, do_allocate_index-Keeps,
  do_push_wait-Keeps,
}

-- What a controller may do with its access in passing: send events.
pub record Quiet {W : Type 0} (a b : Access W) : Type 0 where
  pub more : a.raised ≤ b.raised
  pub vector : b.consume_erase_vector ≡ a.consume_erase_vector

module _ {O F : Type 0} where
  -- What the event leaves of the signals: none, and the ids are those to look at.
  pub record Grabbed (st st' : Store O F) : Type 0 where
    pub calm : (st'.fill_erase_vector ≡ []) × (st'.smask ≡ 0)
    pub taken : st'.consume_erase_vector ≡ st.fill_erase_vector

module _ {O F W : Type 0} where
  -- The functions called work on the store by its operations; only `executeBeforeErase` adds ids.
  pub record Polite (ctl : Controller O F W) : Type 0 where
    pub calls :
        (f : F) (p : Pointer) (err : ℕ) (st : Store O F) (w : W)
        → Keeps st (ctl.call f p err st w).store
    pub prepares_index :
        (f : F) (flags : ℕ) (a : Access W) → Quiet a (ctl.prepare_index f flags a).access
    pub prepares_pointer :
        (f : F) (p : Pointer) (flags : ℕ) (a : Access W)
        → Quiet a (ctl.prepare_pointer f p flags a).access
    pub signals : (sm : ℕ) (a : Access W) → Quiet a (ctl.execute_on_signal sm a)
    pub erases : (a : Access W) → a.raised ≤ (ctl.execute_before_erase a).1.raised
    pub clears : (o : O) (idx : ℕ) (a : Access W) → Quiet a (ctl.clear o idx a).2

  accessed-Keeps :
      (a : Access W) (st : Store O F) (w : W) → Quiet (accessing st w) a → Keeps st (accessed a st)
  accessed-Keeps a st w q = record {
    awake = Same-Awake st (accessed a st) refl refl q.more;
    vector = q.vector;
    ids = [];
    grows = sym (append-nil st.fill_erase_vector);
  }

  module _ (ctl : Controller O F W) (polite : Polite ctl) where
    pub call_function-Keeps :
        (f : F) (p : Pointer) (err : ℕ) (st : Store O F) (w : W)
        → Keeps st (call_function ctl f p err st w).0
    unfolding call_function
    call_function-Keeps f p err st w =
        Keeps-trans st _ _ (polite.calls f p err st w) (clear_pointer-Keeps _ _)

    pub request-Keeps :
        (try : ℕ → Stub O F → Stub O F × Pointer) (k : WaitKind) (f : F) (id : UniqueId)
        (st : Store O F) (w : W)
        → Keeps st (request ctl try k f id st w).0
    unfolding request
    request-Keeps try k f id st w =
        let tried = put_stub-Keeps id.index _ st in
        either_Keeps₂ (in_range id st && is_id_current id st) st _ _
          (either_Keeps₂ _ st _ _ (Keeps-trans st _ _ tried (do_push_wait-Keeps id.index f k _))
            (Keeps-trans st _ _ tried (call_function-Keeps f _ 0 _ w)))
          (call_function-Keeps f no_pointer 1 st w)

    reinit_at-Keeps :
        (idx : ℕ) (f : F) (flags : ℕ) (st : Store O F) (w : W)
        → Keeps st (reinit_at ctl idx f flags st w).0
    unfolding reinit_at
    reinit_at-Keeps idx f flags st w =
        let r = at_stub idx (do_try_get_reinit idx) st in
        let q = ctl.prepare_pointer f r.1 flags (accessing r.0 w) in
        let tried : Keeps st r.0 = put_stub-Keeps idx _ st in
        let prepared : Keeps st (accessed q.access r.0) =
          Keeps-trans st r.0 _ tried
            (accessed-Keeps q.access r.0 w (polite.prepares_pointer f r.1 flags _)) in
        let waits = Keeps-trans st _ _ prepared (do_push_wait-Keeps idx q.fnc reinit_wait _) in
        let after = either_Keeps q.done st _ _ prepared waits in
        either_Keeps₂ (empty_pointer r.1) st (do_push_wait idx f reinit_wait r.0, w, false) _
          (Keeps-trans st r.0 _ tried (do_push_wait-Keeps idx f reinit_wait r.0))
          (either_Keeps₂ (not (empty_pointer q.ptr) || not (q.err == 0)) st _
            (_, q.access.world, false)
            (Keeps-trans st _ _ after (call_function-Keeps q.fnc q.ptr q.err _ q.access.world))
            after)

    pub request_reinit-Keeps :
        (o : O) (f : F) (flags : ℕ) (st : Store O F) (w : W)
        → Keeps st (request_reinit ctl o f flags st w).0
    unfolding request_reinit
    request_reinit-Keeps o f flags st w =
        let p = ctl.prepare_index f flags (accessing st w) in
        let st1 = accessed p.access st in
        let fresh = do_allocate_index o st1 in
        let prepared : Keeps st st1 =
          accessed-Keeps p.access st w (polite.prepares_index f flags _) in
        let failed = call_function-Keeps p.fnc _ p.err st1 p.access.world in
        either_Keeps₂ (p.err == 0) st _ (_, _, true)
          (either_Keeps₂ p.found st _ _
            (Keeps-trans st st1 _ prepared (reinit_at-Keeps p.idx p.fnc flags st1 _))
            (Keeps-trans st fresh.0 _
              (Keeps-trans st st1 _ prepared (do_allocate_index-Keeps o st1))
              (reinit_at-Keeps fresh.1 p.fnc flags fresh.0 p.access.world)))
          (Keeps-trans st st1 _ prepared failed)

    execute_id-Keeps :
        (added : Bool) (id : UniqueId) (st : Store O F) → Keeps st (execute_id added id st)
    unfolding execute_id
    execute_id-Keeps added id st =
        let looked = put_stub-Keeps id.index _ st in
        either_Keeps (is_id_current id st) st _ st
          (either_Keeps _ st _ _ (Keeps-trans st _ _ looked (fields_Keeps _ _ _ _ _)) (
            Keeps-trans st _ _ (Keeps-trans st _ _ looked (fields_Keeps _ _ _ _ _))
              (put_stub-Keeps id.index _ _)))
          (Keeps-refl st)

    execute_ids-Keeps :
        (size pos : ℕ) (ids : List UniqueId) (st : Store O F)
        → Keeps st (execute_ids size pos ids st)
    unfolding execute_ids
    execute_ids-Keeps size pos [] st = Keeps-refl st
    execute_ids-Keeps size pos (id ∷ ids) st =
        Keeps-trans st _ _ (execute_id-Keeps (leb size pos) id st)
          (execute_ids-Keeps size (pos + 1) ids _)

    execute_waits-Keeps :
        (xs : List (ExecWaitStub F)) (st : Store O F) (w : W)
        → Keeps st (execute_waits ctl xs st w).0
    unfolding execute_waits
    execute_waits-Keeps [] st w = Keeps-refl st
    execute_waits-Keeps (x ∷ xs) st w =
        Keeps-trans st _ _ (call_function-Keeps x.pw.fnc _ 0 st w) (execute_waits-Keeps xs _ _)

    cache_index-Keeps :
        (idx : ℕ) (st : Store O F) (w : W) (must : Bool)
        → Keeps st (cache_index ctl idx st w must).0
    unfolding cache_index
    cache_index-Keeps idx st w must =
        let s = put_stub-Keeps idx (clear_stub (st.stubs idx)) st in
        either_Keeps₂ (can_clear (st.stubs idx)) st _ (st, w, must)
          (Keeps-trans st _ _
            (Keeps-trans st _ _
              (Keeps-trans st _ _ s (accessed-Keeps _ _ w (polite.clears _ idx _)))
              (put_stub-Keeps idx _ _))
            (fields_Keeps _ _ _ _ _))
          (Keeps-refl st)

    cache_indices-Keeps :
        (is : List ℕ) (st : Store O F) (w : W) (must : Bool)
        → Keeps st (cache_indices ctl is st w must).0
    unfolding cache_indices
    cache_indices-Keeps [] st w must = Keeps-refl st
    cache_indices-Keeps (idx ∷ is) st w must =
        Keeps-trans st _ _ (cache_index-Keeps idx st w must) (cache_indices-Keeps is _ _ _)

    execute_vector-Keeps :
        (size : ℕ) (must : Bool) (st : Store O F) (w : W)
        → Keeps st (execute_vector ctl size must st w).0
    unfolding execute_vector do_execute_cache
    execute_vector-Keeps size must st w =
        either_Keeps₂ (no_waits st.consume_erase_vector) st (st, w, must) _ (Keeps-refl st)
          (Keeps-trans st _ _
            (Keeps-trans st _ _
              (Keeps-trans st _ _ (execute_ids-Keeps size 0 _ st) (execute_waits-Keeps _ _ w))
              (cache_indices-Keeps _ _ _ must))
            (fields_Keeps _ _ _ _ _))

    do_execute-Awake : (st : Store O F) (w : W) → Awake st → Awake (do_execute ctl st w).0
    unfolding do_execute
    do_execute-Awake st w a =
        (execute_vector-Keeps _ _ _ _).awake
          (Same-Awake st _ refl refl (polite.erases (accessing st w)) a)

    exchange_Grabbed :
        (ids : List UniqueId) (st : Store O F)
        → st.fill_erase_vector ≡ ids
        → st.consume_erase_vector ≡ []
        → Grabbed st (
            if no_waits ids then record st { smask = 0 } else record st {
              smask = 0;
              fill_erase_vector = st.consume_erase_vector;
              consume_erase_vector = st.fill_erase_vector;
            })
    exchange_Grabbed [] st e none = record { calm = (e, refl); taken = none ∙ sym e }
    exchange_Grabbed (id ∷ ids) st e none = record { calm = (none, refl); taken = refl }

    pub grab_signals-Grabbed :
        (st : Store O F) (w : W)
        → (st.fill_erase_vector ≡ []) ⊎ (flagged st.smask ≡ true)
        → st.consume_erase_vector ≡ []
        → Grabbed st (grab_signals ctl st w).0
    unfolding grab_signals
    grab_signals-Grabbed st w told none = elim (Bool-cases (bit_and st.smask s_raise == 0)) [
      | inl e ↦ rw e (elim told [
        | inl f ↦ record { calm = (f, refl); taken = none ∙ sym f }
        | inr f ↦ absurd (ground (arith, e, f))
      ])
      | inr e ↦
          let x = exchange_Grabbed st.fill_erase_vector st refl none in
          let exchanged =
            if no_waits st.fill_erase_vector then record st { smask = 0 } else record st {
              smask = 0;
              fill_erase_vector = st.consume_erase_vector;
              consume_erase_vector = st.fill_erase_vector;
            } in
          let q = polite.signals st.smask (accessing exchanged w) in
          rw e (record { calm = x.calm; taken = q.vector ∙ x.taken })
    ]

    Grabbed-Awake : (st st' : Store O F) → Grabbed st st' → Awake st'
    Grabbed-Awake st st' g = record {
      told = inl g.calm.0;
      sent = λ f.
          let clash : false ≡ true = sym (ap flagged g.calm.1) ∙ f in absurd (grind (arith, clash));
    }

    pub on_raise-Awake :
        (st : Store O F) (w : W)
        → Grabbed st (grab_signals ctl st w).0
        → Awake (on_raise ctl st w).0
    unfolding on_raise
    on_raise-Awake st w g =
        let x = do_execute ctl (grab_signals ctl st w).0 (grab_signals ctl st w).1 in
        let a : Awake x.0 = do_execute-Awake _ _ (Grabbed-Awake st _ g) in
        Same-Awake (if x.2 then raise x.0 else x.0) _ refl refl (omega arith)
          ((either_Keeps x.2 x.0 (raise x.0) x.0 (raise-Keeps x.0) (Keeps-refl x.0)).awake a)
