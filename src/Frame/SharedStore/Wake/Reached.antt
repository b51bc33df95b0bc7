-- ===== src/Frame/SharedStore/Wake/Reached.antt =====
-- The stores of solid/frame/src/sharedstore.cpp that its users' operations and events lead to: what wakes them.
use solidframe.Prelude.{
  ℕ, ◌-◌, ◌≤◌, ◌<◌, ◌≡◌, refl, sym, ap, ◌∙◌, true, false, ◌&&◌, inl, inr, List, [], ◌∷◌, ◌++◌,
  lt→ltb, arith,
}
use solidframe.Prelude.Lists.{length, length-append}
use solidframe.Frame.Common.{UniqueId}
use solidframe.Frame.SharedStore.{
  WaitKind, Stub, Pointer, empty_pointer, is_unique_lock, do_switch_unique_to_shared,
}
use solidframe.Frame.SharedStore.Store.{
  Store, Controller, new_shared_store, clear_pointer, erase_pointer, insert, get, unique_to_shared,
  in_range, is_id_current, put_stub, waits_for_shared,
}
use solidframe.Frame.SharedStore.Store.Requests.{request, request_reinit}
use solidframe.Frame.SharedStore.Store.Execute.{grab_signals, on_raise}
use solidframe.Frame.SharedStore.Wake.{
  Awake, Keeps, Keeps-refl, Keeps-trans, notify_object-fill, clear_pointer-Keeps, insert-Keeps,
  get-Keeps, unique_to_shared-Keeps,
}
use solidframe.Frame.SharedStore.Wake.Serve.{
  Polite, request-Keeps, request_reinit-Keeps, Grabbed, grab_signals-Grabbed, on_raise-Awake,
}

module _ {O F : Type 0} where
  -- Ids that the store `st'` has to look at: those that wait in `st`; or, behind them, the id of a pointer that is dropped, or
  -- that of a unique pointer that is made a shared one when the first that waits wants to share.
  pub data Tells (st : Store O F) : List UniqueId → Store O F → Type 0 where
    waiting : 1 ≤ length st.fill_erase_vector → Tells st st.fill_erase_vector st
    by_drop :
        (p : Pointer)
        → empty_pointer p ≡ false
        → p.psb ≡ true
        → p.uid.index < st.objmaxcnt
        → Tells st (st.fill_erase_vector ++ p.uid ∷ []) (clear_pointer p st).1
    by_switch :
        (p : Pointer)
        → empty_pointer p ≡ false
        → (in_range p.uid st && is_id_current p.uid st) ≡ true
        → is_unique_lock (st.stubs p.uid.index).state ≡ true
        → waits_for_shared (st.stubs p.uid.index).waits ≡ true
        → Tells st (st.fill_erase_vector ++ p.uid ∷ []) (unique_to_shared p st).0

  Tells-fill :
      (st st' : Store O F) (ids : List UniqueId) → Tells st ids st' → st'.fill_erase_vector ≡ ids
  unfolding clear_pointer erase_pointer unique_to_shared do_switch_unique_to_shared put_stub
  Tells-fill st _ _ (waiting some) = refl
  Tells-fill st _ _ (by_drop p full there low) =
      rw (full, there, lt→ltb _ _ low) (notify_object-fill p.uid _)
  Tells-fill st _ _ (by_switch p full current unique waits) =
      rw (full, current, unique, waits) (notify_object-fill p.uid _)

  Tells-some : (st st' : Store O F) (ids : List UniqueId) → Tells st ids st' → 1 ≤ length ids
  Tells-some st _ _ (waiting some) = some
  Tells-some st _ _ (by_drop p full there low) =
      omega (arith, length-append st.fill_erase_vector (p.uid ∷ []))
  Tells-some st _ _ (by_switch p full current unique waits) =
      omega (arith, length-append st.fill_erase_vector (p.uid ∷ []))

  Tells-Keeps : (st st' : Store O F) (ids : List UniqueId) → Tells st ids st' → Keeps st st'
  Tells-Keeps st _ _ (waiting some) = Keeps-refl st
  Tells-Keeps st _ _ (by_drop p full there low) = clear_pointer-Keeps p st
  Tells-Keeps st _ _ (by_switch p full current unique waits) = unique_to_shared-Keeps p st

module _ {O F W : Type 0} where
  module _ (ctl : Controller O F W) where
    -- An operation of a user. The state of the users' functions can change in between.
    pub data Operation (o : O) (st : Store O F) (w : W) : Store O F → W → Type 0 where
      elsewhere : (w' : W) → Operation o st w st w'
      inserted :
          (put : Stub O F → Stub O F) (try : ℕ → Stub O F → Stub O F × Pointer)
          → Operation o st w (insert o put try st).0 w
      got :
          (try : ℕ → Stub O F → Stub O F × Pointer) (id : UniqueId)
          → Operation o st w (get try id st).0 w
      switched : (p : Pointer) → Operation o st w (unique_to_shared p st).0 w
      dropped : (p : Pointer) → Operation o st w (clear_pointer p st).1 w
      requested :
          (try : ℕ → Stub O F → Stub O F × Pointer) (k : WaitKind) (f : F) (id : UniqueId)
          → Operation o st w (request ctl try k f id st w).0 (request ctl try k f id st w).1
      reinit_requested :
          (f : F) (flags : ℕ)
          → Operation o st w
              (request_reinit ctl o f flags st w).0
              (request_reinit ctl o f flags st w).1

    -- Operations one after the other, with no event in between.
    pub data Operations (o : O) (st : Store O F) (w : W) : Store O F → W → Type 0 where
      nothing : Operations o st w st w
      and_then :
          (st1 : Store O F) (w1 : W) (st2 : Store O F) (w2 : W)
          → Operations o st w st1 w1
          → Operation o st1 w1 st2 w2
          → Operations o st w st2 w2

    -- The stores that the operations of the users and the events lead to.
    pub data Reached (o : O) : Store O F → W → Type 0 where
      made : (w : W) → Reached o (new_shared_store o) w
      operated :
          (st : Store O F) (w : W) (st' : Store O F) (w' : W)
          → Reached o st w
          → Operation o st w st' w'
          → Reached o st' w'
      -- An event arrives.
      handled :
          (st : Store O F) (w : W)
          → 1 ≤ st.raised
          → Reached o st w
          → Reached o
              (on_raise ctl (record st { raised = st.raised - 1 }) w).0
              (on_raise ctl (record st { raised = st.raised - 1 }) w).1

    on_raise_empty : (st : Store O F) (w : W) → (on_raise ctl st w).0.consume_erase_vector ≡ []
    unfolding on_raise
    on_raise_empty st w = refl

    record Resting (st : Store O F) : Type 0 where
      awake : Awake st
      vector : st.consume_erase_vector ≡ []

    rests : (st st' : Store O F) → Keeps st st' → Resting st → Resting st'
    rests st st' k r = record { awake = k.awake r.awake; vector = k.vector ∙ r.vector }

    -- The ids `ids` will be looked at: an event is on its way, and when it comes `doExecute` gets them first and then
    -- those that came after them, and none is left behind.
    pub record Seen (ids : List UniqueId) (st : Store O F) (w : W) : Type 0 where
      pub coming : 1 ≤ st.raised
      pub later : List UniqueId
      pub looked_at :
          (grab_signals ctl (record st { raised = st.raised - 1 }) w).0.consume_erase_vector
          ≡ ids ++ later
      pub calm :
          Grabbed
            (record st { raised = st.raised - 1 })
            (grab_signals ctl (record st { raised = st.raised - 1 }) w).0

    module _ (polite : Polite ctl) where
      Operation-Keeps :
          (o : O) (st : Store O F) (w : W) (st' : Store O F) (w' : W)
          → Operation o st w st' w'
          → Keeps st st'
      Operation-Keeps o st w _ _ (elsewhere w') = Keeps-refl st
      Operation-Keeps o st w _ _ (inserted put try) = insert-Keeps o put try st
      Operation-Keeps o st w _ _ (got try id) = get-Keeps try id st
      Operation-Keeps o st w _ _ (switched p) = unique_to_shared-Keeps p st
      Operation-Keeps o st w _ _ (dropped p) = clear_pointer-Keeps p st
      Operation-Keeps o st w _ _ (requested try k f id) = request-Keeps ctl polite try k f id st w
      Operation-Keeps o st w _ _ (reinit_requested f flags) =
          request_reinit-Keeps ctl polite o f flags st w

      Operations-Keeps :
          (o : O) (st : Store O F) (w : W) (st' : Store O F) (w' : W)
          → Operations o st w st' w'
          → Keeps st st'
      Operations-Keeps o st w _ _ nothing = Keeps-refl st
      Operations-Keeps o st w st' w' (and_then st1 w1 _ _ before step) =
          Keeps-trans st st1 st' (Operations-Keeps o st w st1 w1 before)
            (Operation-Keeps o st1 w1 st' w' step)

      Reached-Resting : (o : O) (st : Store O F) (w : W) → Reached o st w → Resting st
      Reached-Resting o _ w (made _) = record {
        awake = record { told = inl refl; sent = λ f. absurd (grind (arith, f)) };
        vector = refl;
      }
      Reached-Resting o st' w' (operated st w _ _ r step) =
          rests st st' (Operation-Keeps o st w st' w' step) (Reached-Resting o st w r)
      Reached-Resting o _ _ (handled st w some r) =
          let x = Reached-Resting o st w r in
          let st1 = record st { raised = st.raised - 1 } in
          record {
            awake =
                on_raise-Awake ctl polite st1 w
                  (grab_signals-Grabbed ctl polite st1 w x.awake.told x.vector);
            vector = on_raise_empty st1 w;
          }

      Resting-Seen :
          (ids later : List UniqueId) (st : Store O F) (w : W)
          → Resting st
          → 1 ≤ length ids
          → st.fill_erase_vector ≡ ids ++ later
          → Seen ids st w
      Resting-Seen ids later st w x some e = elim x.awake.told [
        | inl none ↦
            let no_ids : length (ids ++ later) ≡ 0 = ap length (sym e ∙ none) in
            absurd (omega (arith, no_ids, some, length-append ids later))
        | inr f ↦
            let g =
              grab_signals-Grabbed ctl polite (record st { raised = st.raised - 1 }) w (inr f)
                x.vector in
            record { coming = x.awake.sent f; later = later; looked_at = g.taken ∙ e; calm = g }
      ]

      -- With functions that work on the store by its operations only, and a controller that adds ids in
      -- `executeBeforeErase` only: whatever operations and events a new store goes through, an id that it is told of is not
      -- forgotten. This is for the ids that wait for the store at any time, and then the id of a pointer that is dropped,
      -- is not empty and has an index below the count of the objects, or of one of a current id that is switched from unique
      -- to shared when the first that waits wants to share: whatever operations
      -- follow, an event is on its way, and when it comes `doExecute` gets these ids in their order, behind them those
      -- of the operations that followed, and no others; none is left behind.
      pub Reached-Told :
          (o : O) (st : Store O F) (w : W) (ids : List UniqueId) (st1 st2 : Store O F) (w2 : W)
          → Reached o st w
          → Tells st ids st1
          → Operations o st1 w st2 w2
          → Seen ids st2 w2
      Reached-Told o st w ids st1 st2 w2 r tells steps =
          let more = Operations-Keeps o st1 w st2 w2 steps in
          let all = Keeps-trans st st1 st2 (Tells-Keeps st st1 ids tells) more in
          Resting-Seen ids more.ids st2 w2 (rests st st2 all (Reached-Resting o st w r))
            (Tells-some st st1 ids tells)
            (more.grows ∙ ap (λ l. l ++ more.ids) (Tells-fill st st1 ids tells))
