-- ===== src/Frame/SharedStore/Wake.antt =====
-- The signals of solid/frame/src/sharedstore.cpp: the ids that wait for the store to look at them, and the event that
-- makes it look.
pub mod Serve
pub mod Reached
use solidframe.Prelude.{
  ℕ, ◌+◌, ◌-◌, ◌*◌, ◌/◌, ◌%◌, ◌≤◌, ◌≡◌, refl, sym, ap, subst, ◌∙◌, Bool, true, false, Bool-cases,
  ◌⊎◌, inl, inr, not, ◌&&◌, List, [], ◌∷◌, ◌++◌, append_assoc, append-nil, ◌==◌, ltb, leb,
  if◌then◌else◌, arith, bit_and, bit_or,
}
use solidframe.Prelude.Words.{zero-bit_or, bit_or_step, bit_and_mask}
use solidframe.Prelude.Lists.{length, length-append}
use solidframe.Frame.Common.{UniqueId}
use solidframe.Frame.SharedStore.{
  WaitKind, Stub, Pointer, ExecWaitStub, no_waits, empty_pointer, alive, no_pointer, can_clear,
  do_try_get_reinit,
}
use solidframe.Frame.SharedStore.Store.{
  Store, Access, Controller, new_shared_store, put_stub, do_allocate_index, s_raise, notify, raise,
  notify_object, erase_pointer, clear_pointer, insert, in_range, is_id_current, get,
  unique_to_shared, allocate_wait, do_push_wait, accessing, accessed,
}
use solidframe.Frame.SharedStore.Store.Requests.{call_function, request, reinit_at, request_reinit}
use solidframe.Frame.SharedStore.Store.Execute.{
  execute_id, execute_ids, do_execute_cache, execute_waits, cache_index, cache_indices,
  execute_vector, do_execute, grab_signals, on_raise,
}

-- Whether the signal to raise is set.
abbrev pub flagged : ℕ → Bool
flagged m = not (bit_and m s_raise == 0)

bit_and-s_raise : (m : ℕ) → bit_and m s_raise ≡ m % 2
bit_and-s_raise m = bit_and_mask 1 m

flagged-bit_or : (m : ℕ) → flagged (bit_or s_raise m) ≡ true
flagged-bit_or m =
    ground (arith, bit_and-s_raise (bit_or 1 m), bit_or_step 1 m, zero-bit_or (m / 2))

module _ {O F : Type 0} where
  -- Ids wait only with the signal set, which is set only with an event on its way.
  pub record Awake (st : Store O F) : Type 0 where
    pub told : (st.fill_erase_vector ≡ []) ⊎ (flagged st.smask ≡ true)
    pub sent : flagged st.smask ≡ true → 1 ≤ st.raised

  -- What an operation does that may tell the store of ids: it adds them behind those that are there.
  pub record Keeps (st st' : Store O F) : Type 0 where
    pub awake : Awake st → Awake st'
    pub vector : st'.consume_erase_vector ≡ st.consume_erase_vector
    pub ids : List UniqueId
    pub grows : st'.fill_erase_vector ≡ st.fill_erase_vector ++ ids

  pub Keeps-refl : (st : Store O F) → Keeps st st
  Keeps-refl st = record {
    awake = λ a. a;
    vector = refl;
    ids = [];
    grows = sym (append-nil st.fill_erase_vector);
  }

  pub Keeps-trans : (s t u : Store O F) → Keeps s t → Keeps t u → Keeps s u
  Keeps-trans s t u p q = record {
    awake = λ a. q.awake (p.awake a);
    vector = q.vector ∙ p.vector;
    ids = p.ids ++ q.ids;
    grows = q.grows ∙ ap (λ l. l ++ q.ids) p.grows ∙ append_assoc s.fill_erase_vector p.ids q.ids;
  }

  -- What leaves the ids and signals alone, and may send events.
  record Same (st st' : Store O F) : Type 0 where
    fill : st'.fill_erase_vector ≡ st.fill_erase_vector
    mask : st'.smask ≡ st.smask
    more : st.raised ≤ st'.raised
    vector : st'.consume_erase_vector ≡ st.consume_erase_vector

  pub Same-Awake :
      (st st' : Store O F)
      → st'.fill_erase_vector ≡ st.fill_erase_vector
      → st'.smask ≡ st.smask
      → st.raised ≤ st'.raised
      → Awake st
      → Awake st'
  Same-Awake st st' e m r a = record {
    told = elim a.told [ inl f ↦ inl (e ∙ f) | inr f ↦ inr (ap flagged m ∙ f) ];
    sent = λ f. omega (arith, r, a.sent (ap flagged (sym m) ∙ f));
  }

  Same-Keeps : (st st' : Store O F) → Same st st' → Keeps st st'
  Same-Keeps st st' s = record {
    awake = Same-Awake st st' s.fill s.mask s.more;
    vector = s.vector;
    ids = [];
    grows = s.fill ∙ sym (append-nil st.fill_erase_vector);
  }

  put_stub-Same : (idx : ℕ) (s : Stub O F) (st : Store O F) → Same st (put_stub idx s st)
  unfolding put_stub
  put_stub-Same idx s st = record { fill = refl; mask = refl; more = omega arith; vector = refl }

  pub put_stub-Keeps : (idx : ℕ) (s : Stub O F) (st : Store O F) → Keeps st (put_stub idx s st)
  put_stub-Keeps idx s st = Same-Keeps st _ (put_stub-Same idx s st)

  pub notify_object-Keeps : (id : UniqueId) (st : Store O F) → Keeps st (notify_object id st)
  unfolding notify_object notify
  notify_object-Keeps id st = elim (Bool-cases (length (st.fill_erase_vector ++ id ∷ []) == 1)) [
    | inl e ↦ elim (Bool-cases (bit_or s_raise st.smask == st.smask)) [
      | inl b ↦
          let m : bit_or s_raise st.smask ≡ st.smask = ground (arith, b) in
          rw (e, b)
            (record {
              awake = λ a. record {
                told = inr (flagged-bit_or st.smask);
                sent = λ f. a.sent (ap flagged (sym m) ∙ f);
              };
              vector = refl;
              ids = id ∷ [];
              grows = refl;
            })
      | inr b ↦
          rw (e, b)
            (record {
              awake = λ a. record { told = inr (flagged-bit_or st.smask); sent = λ f. omega arith };
              vector = refl;
              ids = id ∷ [];
              grows = refl;
            })
    ]
    | inr e ↦ rw e (record {
      awake = λ a. record {
        told = inr (elim a.told [
          | inl f ↦
              let one : length (st.fill_erase_vector ++ id ∷ []) ≡ 1 =
                ap (λ l. length (l ++ id ∷ [])) f in
              ground (arith, e, one)
          | inr f ↦ f
        ]);
        sent = a.sent;
      };
      vector = refl;
      ids = id ∷ [];
      grows = refl;
    })
  ]

  -- The id is added at the end, and no other.
  pub notify_object-fill :
      (id : UniqueId) (st : Store O F)
      → (notify_object id st).fill_erase_vector ≡ st.fill_erase_vector ++ id ∷ []
  unfolding notify_object notify
  notify_object-fill id st =
      by_tests (length (st.fill_erase_vector ++ id ∷ []) == 1)
        (not (bit_or s_raise st.smask == st.smask))
    where
      filled : Store O F
      filled = record st { fill_erase_vector = st.fill_erase_vector ++ id ∷ [] }

      told : Store O F
      told = record filled { smask = bit_or s_raise st.smask }

      by_tests :
          (a b : Bool)
          → (if a then if b then raise told else told else filled).fill_erase_vector
            ≡ st.fill_erase_vector ++ id ∷ []
      by_tests true true = refl
      by_tests true false = refl
      by_tests false b = refl

  -- The two ways of an operation.
  pub either_Keeps :
      (b : Bool) (st x y : Store O F) → Keeps st x → Keeps st y → Keeps st (if b then x else y)
  either_Keeps true st x y p q = p
  either_Keeps false st x y p q = q

  -- The same for an operation with a result.
  pub either_Keeps₁ :
      {A : Type 0} (b : Bool) (st : Store O F) (x y : Store O F × A)
      → Keeps st x.0
      → Keeps st y.0
      → Keeps st (if b then x else y).0
  either_Keeps₁ true st x y p q = p
  either_Keeps₁ false st x y p q = q

  pub either_Keeps₂ :
      {A B : Type 0} (b : Bool) (st : Store O F) (x y : Store O F × A × B)
      → Keeps st x.0
      → Keeps st y.0
      → Keeps st (if b then x else y).0
  either_Keeps₂ true st x y p q = p
  either_Keeps₂ false st x y p q = q

  -- The other fields do not matter.
  pub fields_Keeps :
      (st : Store O F) (is stk nodes : List ℕ) (xs : List (ExecWaitStub F))
      → Keeps st (record st {
        cache_obj_idx_vec = is;
        cache_obj_idx_stk = stk;
        cache_wait_stk = nodes;
        exec_wait_vec = xs;
      })
  fields_Keeps st is stk nodes xs =
      Same-Keeps st _ (record { fill = refl; mask = refl; more = omega arith; vector = refl })

  pub raise-Keeps : (st : Store O F) → Keeps st (raise st)
  raise-Keeps st =
      Same-Keeps st _ (record { fill = refl; mask = refl; more = omega arith; vector = refl })

  pub erase_pointer-Keeps :
      (id : UniqueId) (isalive : Bool) (st : Store O F) → Keeps st (erase_pointer id isalive st)
  unfolding erase_pointer
  erase_pointer-Keeps id isalive st =
      either_Keeps (ltb id.index st.objmaxcnt) st _ st
        (Keeps-trans st _ _ (put_stub-Keeps id.index _ st) (notify_object-Keeps id _))
        (Keeps-refl st)

  pub clear_pointer-Keeps : (p : Pointer) (st : Store O F) → Keeps st (clear_pointer p st).1
  unfolding clear_pointer
  clear_pointer-Keeps p st = elim (Bool-cases (empty_pointer p)) [
    | inl e ↦ rw e (Keeps-refl st)
    | inr e ↦ elim (Bool-cases p.psb) [
      | inl b ↦ rw (e, b) (erase_pointer-Keeps p.uid (alive p) st)
      | inr b ↦ rw (e, b) (Keeps-refl st)
    ]
  ]

  pub do_allocate_index-Keeps : (o : O) (st : Store O F) → Keeps st (do_allocate_index o st).0
  unfolding do_allocate_index
  do_allocate_index-Keeps o st = by_stack st.cache_obj_idx_stk
    where
      by_stack :
          (stk : List ℕ) → Keeps st (do_allocate_index o (record st { cache_obj_idx_stk = stk })).0
      by_stack [] =
          Same-Keeps st _ (record { fill = refl; mask = refl; more = omega arith; vector = refl })
      by_stack (i ∷ stk) =
          Same-Keeps st _ (record { fill = refl; mask = refl; more = omega arith; vector = refl })

  pub insert-Keeps :
      (o : O) (put : Stub O F → Stub O F) (try : ℕ → Stub O F → Stub O F × Pointer) (st : Store O F)
      → Keeps st (insert o put try st).0
  unfolding insert
  insert-Keeps o put try st =
      Keeps-trans st _ _ (do_allocate_index-Keeps o st) (put_stub-Keeps _ _ _)

  pub get-Keeps :
      (try : ℕ → Stub O F → Stub O F × Pointer) (id : UniqueId) (st : Store O F)
      → Keeps st (get try id st).0
  unfolding get
  get-Keeps try id st =
      either_Keeps₁ (in_range id st && is_id_current id st) st _ (st, no_pointer)
        (put_stub-Keeps id.index _ st) (Keeps-refl st)

  pub unique_to_shared-Keeps : (p : Pointer) (st : Store O F) → Keeps st (unique_to_shared p st).0
  unfolding unique_to_shared
  unique_to_shared-Keeps p st =
      let switched = put_stub-Keeps p.uid.index _ st in
      either_Keeps₁ (not (empty_pointer p) && (in_range p.uid st && is_id_current p.uid st)) st _
        (st, false)
        (either_Keeps₁ _ st _ _ (Keeps-trans st _ _ switched (notify_object-Keeps p.uid _))
          switched)
        (Keeps-refl st)

  allocate_wait-Keeps : (st : Store O F) → Keeps st (allocate_wait st).0
  unfolding allocate_wait
  allocate_wait-Keeps st = by_stack st.cache_wait_stk
    where
      by_stack : (stk : List ℕ) → Keeps st (allocate_wait (record st { cache_wait_stk = stk })).0
      by_stack [] =
          Same-Keeps st _ (record { fill = refl; mask = refl; more = omega arith; vector = refl })
      by_stack (i ∷ stk) =
          Same-Keeps st _ (record { fill = refl; mask = refl; more = omega arith; vector = refl })

  pub do_push_wait-Keeps :
      (idx : ℕ) (f : F) (k : WaitKind) (st : Store O F) → Keeps st (do_push_wait idx f k st)
  unfolding do_push_wait
  do_push_wait-Keeps idx f k st =
      Keeps-trans st _ _ (allocate_wait-Keeps st) (put_stub-Keeps idx _ _)
