-- ===== src/Frame/SharedStore/Indices.antt =====
-- The free indices of solid/frame/src/sharedstore.cpp: `doAllocateIndex` and `doCacheObjectIndex`.
use solidframe.Prelude.{ℕ, zero, suc, ◌+◌, ◌<◌, ◌≡◌, ◌≢◌, sym, subst, List, [], ◌∷◌, ◌++◌, arith}
use solidframe.Utility.InnerList.Chain.{
  Below-NotIn, NotIn, Distinct, Apart, Below, NotIn-append, append-NotIn, cons-Apart, Below-append,
  append-Below,
}
use solidframe.Frame.SharedStore.Store.{Store, new_shared_store, push_indices, do_allocate_index}
use solidframe.Frame.SharedStore.Store.Execute.{do_cache_object_index}

abbrev Above : ℕ → List ℕ → Type 0
Above n [] = Unit {0}
Above n (x ∷ xs) = (n < x) × Above n xs

Above-NotIn : (n : ℕ) (xs : List ℕ) → Above n xs → NotIn n xs
Above-NotIn n [] a = tt
Above-NotIn n (x ∷ xs) a = (λ e. absurd (omega (arith, a.0, e)), Above-NotIn n xs a.1)

Above-pred : (n m : ℕ) (xs : List ℕ) → n < m → Above m xs → Above n xs
Above-pred n m [] h a = tt
Above-pred n m (x ∷ xs) h a = (omega (arith, h, a.0), Above-pred n m xs h a.1)

Below-weaken : (n m : ℕ) (xs : List ℕ) → n < m → Below n xs → Below m xs
Below-weaken n m [] h b = tt
Below-weaken n m (x ∷ xs) h b = (omega (arith, h, b.0), Below-weaken n m xs h b.1)

-- What lies above and what lies below.
Above-Apart : (n : ℕ) (xs ys : List ℕ) → Above n xs → Below n ys → Apart xs ys
Above-Apart n [] ys a b = tt
Above-Apart n (x ∷ xs) ys a b =
    (Below-NotIn x ys (Below-weaken n x ys a.0 b), Above-Apart n xs ys a.1 b)

NotIn-middle :
    (x : ℕ) (us : List ℕ) (i : ℕ) (vs : List ℕ)
    → NotIn x (us ++ i ∷ vs)
    → (x ≢ i) × NotIn x (us ++ vs)
NotIn-middle x us i vs n =
    let (l, r) = NotIn-append x us (i ∷ vs) n in (r.0, append-NotIn x us vs l r.1)

Apart-middle :
    (xs us : List ℕ) (i : ℕ) (vs : List ℕ)
    → Apart xs (us ++ i ∷ vs)
    → NotIn i xs × Apart xs (us ++ vs)
Apart-middle [] us i vs a = (tt, tt)
Apart-middle (x ∷ xs) us i vs a =
    let (ne, n) = NotIn-middle x us i vs a.0 in
    let (m, r) = Apart-middle xs us i vs a.1 in (((λ e. ne (sym e)), m), (n, r))

Distinct-middle :
    (us : List ℕ) (i : ℕ) (vs : List ℕ)
    → Distinct (us ++ i ∷ vs)
    → NotIn i (us ++ vs) × Distinct (us ++ vs)
Distinct-middle [] i vs d = d
Distinct-middle (u ∷ us) i vs d =
    let (ne, n) = NotIn-middle u us i vs d.0 in
    let (m, r) = Distinct-middle us i vs d.1 in (((λ e. ne (sym e)), m), (n, r))

-- A block of new indices.
record Block (c m : ℕ) (xs : List ℕ) : Type 0 where
  distinct : Distinct xs
  above : Above c xs
  below : Below m xs

push_indices-Block :
    (c m n : ℕ) (xs : List ℕ)
    → c + n < m
    → Distinct xs
    → Above (c + n) xs
    → Below m xs
    → Block c m (push_indices c n xs)
unfolding push_indices
push_indices-Block c m zero xs h d a b = record {
  distinct = d;
  above = subst (λ k. Above k xs) (plus_zero c) a;
  below = b;
}
  where
    plus_zero : (c : ℕ) → c + 0 ≡ c
    plus_zero c = omega arith
push_indices-Block c m (suc n) xs h d a b =
    push_indices-Block c m n ((c + suc n) ∷ xs) (omega (arith, h)) (Above-NotIn (c + suc n) xs a, d)
      (omega arith, Above-pred (c + n) (c + suc n) xs (omega arith) a) (h, b)

module _ {O F : Type 0} where
  -- No index is free twice or used twice, none is both, and all have a stub.
  pub record OneOwner (st : Store O F) (used : List ℕ) : Type 0 where
    pub free : Distinct st.cache_obj_idx_stk
    pub owned : Distinct used
    pub apart : Apart st.cache_obj_idx_stk used
    pub free_below : Below st.objmaxcnt st.cache_obj_idx_stk
    pub used_below : Below st.objmaxcnt used

  -- Indices are taken for insertions, and given back once when their objects are cleared; other operations
  -- change neither the free indices nor the number of stubs.
  pub data Indices (o : O) : Store O F → List ℕ → Type 0 where
    none_used : Indices o (new_shared_store o) []
    allocated :
        (st : Store O F) (used : List ℕ)
        → Indices o st used
        → Indices o (do_allocate_index o st).0 ((do_allocate_index o st).1 ∷ used)
    given_back :
        (st : Store O F) (us : List ℕ) (idx : ℕ) (vs : List ℕ)
        → Indices o st (us ++ idx ∷ vs)
        → Indices o (do_cache_object_index idx st) (us ++ vs)
    changed :
        (st st' : Store O F) (used : List ℕ)
        → st'.cache_obj_idx_stk ≡ st.cache_obj_idx_stk
        → st'.objmaxcnt ≡ st.objmaxcnt
        → Indices o st used
        → Indices o st' used

  allocated-OneOwner :
      (o : O) (st : Store O F) (used : List ℕ)
      → OneOwner st used
      → OneOwner (do_allocate_index o st).0 ((do_allocate_index o st).1 ∷ used)
  unfolding do_allocate_index
  allocated-OneOwner o st used i = by_stack st.cache_obj_idx_stk i.free i.apart i.free_below
    where
      by_stack :
          (stk : List ℕ)
          → Distinct stk
          → Apart stk used
          → Below st.objmaxcnt stk
          → let r = do_allocate_index o (record st { cache_obj_idx_stk = stk }) in
            OneOwner r.0 (r.1 ∷ used)
      by_stack (rv ∷ stk) d a b = record {
        free = d.1;
        owned = (a.0, i.owned);
        apart = cons-Apart rv stk used d.0 a.1;
        free_below = b.1;
        used_below = (b.0, i.used_below);
      }
      by_stack [] d a b =
          let c = st.objmaxcnt in
          let k : Block c (c + 1024) (push_indices c 1023 []) =
            push_indices-Block c (c + 1024) 1023 [] (omega arith) tt tt tt in
          record {
            free = k.distinct;
            owned = (Below-NotIn c used i.used_below, i.owned);
            apart =
                cons-Apart c _ used (Above-NotIn c _ k.above)
                  (Above-Apart c _ used k.above i.used_below);
            free_below = k.below;
            used_below = (omega arith, Below-weaken c (c + 1024) used (omega arith) i.used_below);
          }

  given_back-OneOwner :
      (st : Store O F) (us : List ℕ) (idx : ℕ) (vs : List ℕ)
      → OneOwner st (us ++ idx ∷ vs)
      → OneOwner (do_cache_object_index idx st) (us ++ vs)
  given_back-OneOwner st us idx vs i =
      let apart = Apart-middle st.cache_obj_idx_stk us idx vs i.apart in
      let owned = Distinct-middle us idx vs i.owned in
      let below = Below-append st.objmaxcnt us (idx ∷ vs) i.used_below in
      record {
        free = (apart.0, i.free);
        owned = owned.1;
        apart = (owned.0, apart.1);
        free_below = (below.1.0, i.free_below);
        used_below = append-Below st.objmaxcnt us vs below.0 below.1.1;
      }

  -- However indices are taken by `doAllocateIndex` and given back by `doCacheObjectIndex`, each no more than once for
  -- each time that it was taken: no index is in use twice, none that is in use is free, no free index is kept twice, and
  -- every index has a stub.
  pub Indices-OneOwner :
      (o : O) (st : Store O F) (used : List ℕ) → Indices o st used → OneOwner st used
  Indices-OneOwner o _ _ none_used = record {
    free = tt;
    owned = tt;
    apart = tt;
    free_below = tt;
    used_below = tt;
  }
  Indices-OneOwner o _ _ (allocated st used i) =
      allocated-OneOwner o st used (Indices-OneOwner o st used i)
  Indices-OneOwner o _ _ (given_back st us idx vs i) =
      given_back-OneOwner st us idx vs (Indices-OneOwner o st (us ++ idx ∷ vs) i)
  Indices-OneOwner o _ _ (changed st st' used e c i) =
      let x = Indices-OneOwner o st used i in
      record {
        free = subst Distinct (sym e) x.free;
        owned = x.owned;
        apart = subst (λ l. Apart l used) (sym e) x.apart;
        free_below =
            subst (λ l. Below st'.objmaxcnt l) (sym e)
              (subst (λ n. Below n st.cache_obj_idx_stk) (sym c) x.free_below);
        used_below = subst (λ n. Below n used) (sym c) x.used_below;
      }
