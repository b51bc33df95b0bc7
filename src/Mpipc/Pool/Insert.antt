-- ===== src/Mpipc/Pool/Insert.antt =====
-- `insertMessage`, `pushBackMessage` and `pushFrontMessage` of `ConnectionPoolStub` of mpipcservice.cpp.
use solidframe.Prelude.{
  ℕ, ◌+◌, ◌≤◌, ◌<◌, ◌≡◌, ◌≢◌, refl, sym, ap, subst, ◌∙◌, Bool, true, false, inl, inr, List, [], ◌∷◌,
  ◌++◌, append-nil, ◌==◌, zero_test, suc_test, arith,
}
use solidframe.Prelude.Lists.{length, length-append}
use solidframe.Utility.InnerList.{invalid_index}
use solidframe.Utility.InnerList.Chain.{
  NotIn, IsList, IsList-frame, frame_new, Apart-symm, Apart-cons, Apart-append, Below-append,
  Below-mono, bound-NotIn, Distinct-append, snoc_cases,
}
use solidframe.Utility.InnerList.Erase.{erase-IsList, erase_elsewhere, pop_front_lem}
use solidframe.Mpipc.Message.{is_asynchronous}
use solidframe.Mpipc.Pool.{
  insert_message, link_back, link_front, push_back_message, push_front_message, PoolMessage,
  new_message, Pool, set_message, order_push_back, order_push_front, async_push_back,
  async_push_front, cache_pop_front, vec_push_back, take_index,
}
use solidframe.Mpipc.Pool.Lists.{
  Linked, set_message-Linked, order_push_back-Linked, order_push_front-Linked,
  async_push_back-Linked, async_push_front-Linked,
}
use solidframe.Mpipc.Pool.Asyncs.{is_async, asyncs, asyncs-NotIn, asyncs-append, asyncs-frame}
use solidframe.Mpipc.Message.{MessageBundle, MessageId}

-- An index that none of the lists holds, in the pool that gives it out.
record Taken (p : Pool) (os bs : List ℕ) (r : Pool × ℕ) : Type 0 where
  rest : List ℕ
  linked : Linked r.0 os bs rest
  in_vec : r.1 < r.0.vec_size
  not_order : NotIn r.1 os
  not_cache : NotIn r.1 rest
  others_same : (j : ℕ) → j ≢ r.1 → r.0.messages j ≡ p.messages j

pub set_message_ne :
    (i j : ℕ) (m : PoolMessage) (p : Pool) → j ≢ i → (set_message i m p).messages j ≡ p.messages j
unfolding set_message
set_message_ne i j m p h = ground arith

pub set_message_self : (i : ℕ) (m : PoolMessage) (p : Pool) → (set_message i m p).messages i ≡ m
unfolding set_message
set_message_self i m p = ground arith

cache_pop_front-Taken :
    (p : Pool) (os bs us : List ℕ) (x : ℕ)
    → Linked p os bs (us ++ x ∷ [])
    → Taken p os bs (cache_pop_front p)
unfolding cache_pop_front
cache_pop_front-Taken p os bs us x h =
    let (bu, bx) = Below-append p.vec_size us (x ∷ []) h.cache_below in
    let (us_os, x_os) = Apart-append us (x ∷ []) os (Apart-symm os _ h.apart) in
    let apart = (Distinct-append us (x ∷ []) h.cache.distinct).2 in
    rw (pop_front_lem p.order_links p.cache_inner_list x us h.cache) record {
      rest = us;
      linked = record {
        order =
            IsList-frame p.order_links _ p.order_inner_list os (us ++ x ∷ []) h.apart
              (erase_elsewhere p.order_links p.cache_inner_list x us [] h.cache) h.order;
        async = h.async;
        cache =
            subst (IsList _ _) (append-nil us)
              (erase-IsList p.order_links p.cache_inner_list x us [] h.cache);
        apart = Apart-symm us os us_os;
        order_below = h.order_below;
        async_below = h.async_below;
        cache_below = bu;
        vec_fits = h.vec_fits;
      };
      in_vec = bx.0;
      not_order = x_os.0;
      not_cache = (Apart-cons x us [] apart).0;
      others_same = λ j _. refl;
    }

vec_push_back-Taken :
    (p : Pool) (os bs cs : List ℕ)
    → p.vec_size < invalid_index
    → Linked p os bs cs
    → Taken p os bs (vec_push_back p)
unfolding vec_push_back set_message
vec_push_back-Taken p os bs cs lt h =
    let n = p.vec_size in
    let more : n ≤ n + 1 = omega arith in
    record {
      rest = cs;
      linked = record {
        order = frame_new p.order_links p.order_inner_list n os h.order_below h.order;
        async = frame_new p.async_links p.async_inner_list n bs h.async_below h.async;
        cache = frame_new p.order_links p.cache_inner_list n cs h.cache_below h.cache;
        apart = h.apart;
        order_below = Below-mono n (n + 1) os more h.order_below;
        async_below = Below-mono n (n + 1) bs more h.async_below;
        cache_below = Below-mono n (n + 1) cs more h.cache_below;
        vec_fits = omega arith;
      };
      in_vec = omega arith;
      not_order = bound-NotIn n os h.order_below;
      not_cache = bound-NotIn n cs h.cache_below;
      others_same = λ j ne. set_message_ne n j new_message p ne;
    }

take_index-Taken :
    (p : Pool) (os bs cs : List ℕ)
    → p.vec_size < invalid_index
    → Linked p os bs cs
    → Taken p os bs (take_index p)
unfolding take_index
take_index-Taken p os bs cs lt h = elim (snoc_cases cs) [
  | inl e ↦
      let none_left : (p.cache_inner_list.size == 0) ≡ true =
        zero_test p.cache_inner_list.size (h.cache.size_length ∙ ap length e) in
      rw none_left (vec_push_back-Taken p os bs cs lt h)
  | inr (us, x, e) ↦
      let some_left : (p.cache_inner_list.size == 0) ≡ false =
        suc_test p.cache_inner_list.size (length us)
          (omega (arith, h.cache.size_length, ap length e, length-append us (x ∷ []))) in
      rw some_left (cache_pop_front-Taken p os bs us x (subst (Linked p os bs) e h))
]

-- The order list and the cache hold lists of indices, and the list of asynchronous messages holds those of the order
-- list that are asynchronous, in the same order.
pub record Pooled (p : Pool) (os cs : List ℕ) : Type 0 where
  pub linked : Linked p os (asyncs p.messages os) cs

-- What a message that was put into the pool is.
pub record Inserted (b : MessageBundle) (p : Pool) (os os' : List ℕ) (p' : Pool) (id : MessageId)
    : Type 0 where
  pub rest : List ℕ
  pub pooled : Pooled p' os' rest
  pub in_vec : id.index < p'.vec_size
  pub not_order : NotIn id.index os
  pub bundle : (p'.messages id.index).msgbundle ≡ b
  pub current : (p'.messages id.index).unique ≡ id.unique
  pub others_same : (j : ℕ) → j ≢ id.index → p'.messages j ≡ p.messages j

-- The message is linked at the back of the order list, and of the asynchronous messages if it is one.
pub link_back-Pooled :
    (i : ℕ) (a : Bool) (p : Pool) (os cs : List ℕ)
    → i < p.vec_size
    → NotIn i os
    → NotIn i cs
    → is_async p.messages i ≡ a
    → Pooled p os cs
    → Pooled (link_back i a p) (i ∷ os) cs
unfolding link_back order_push_back async_push_back asyncs
link_back-Pooled i true p os cs lt fo nc e h =
    let bs = asyncs p.messages os in
    let l = order_push_back-Linked i p os bs cs lt fo nc h.linked in
    record {
      linked = rw e (
          async_push_back-Linked i (order_push_back i p) (i ∷ os) bs cs lt
            (asyncs-NotIn p.messages i os fo) l);
    }
link_back-Pooled i false p os cs lt fo nc e h = record {
  linked = rw e (order_push_back-Linked i p os (asyncs p.messages os) cs lt fo nc h.linked);
}

pub link_front-Pooled :
    (i : ℕ) (a : Bool) (p : Pool) (os cs : List ℕ)
    → i < p.vec_size
    → NotIn i os
    → NotIn i cs
    → is_async p.messages i ≡ a
    → Pooled p os cs
    → Pooled (link_front i a p) (os ++ i ∷ []) cs
unfolding link_front order_push_front async_push_front asyncs
link_front-Pooled i true p os cs lt fo nc e h =
    let bs = asyncs p.messages os in
    let l = order_push_front-Linked i p os bs cs lt fo nc h.linked in
    record {
      linked =
          rw (asyncs-append p.messages os (i ∷ []), e)
            (async_push_front-Linked i (order_push_front i p) (os ++ i ∷ []) bs cs lt
              (asyncs-NotIn p.messages i os fo) l);
    }
link_front-Pooled i false p os cs lt fo nc e h = record {
  linked =
      rw (asyncs-append p.messages os (i ∷ []), e, append-nil (asyncs p.messages os))
        (order_push_front-Linked i p os (asyncs p.messages os) cs lt fo nc h.linked);
}

-- The message is written to its place, and is in no list yet.
record Placed (b : MessageBundle) (p : Pool) (os : List ℕ) (r : Pool × ℕ) : Type 0 where
  rest : List ℕ
  pooled : Pooled r.0 os rest
  in_vec : r.1 < r.0.vec_size
  not_order : NotIn r.1 os
  not_cache : NotIn r.1 rest
  bundle : (r.0.messages r.1).msgbundle ≡ b
  others_same : (j : ℕ) → j ≢ r.1 → r.0.messages j ≡ p.messages j

insert_message-Placed :
    (b : MessageBundle) (p : Pool) (os cs : List ℕ)
    → p.vec_size < invalid_index
    → Pooled p os cs
    → Placed b p os (insert_message b p)
unfolding insert_message
insert_message-Placed b p os cs lt h =
    let t = take_index-Taken p os (asyncs p.messages os) cs lt h.linked in
    let p1 = (take_index p).0 in
    let i = (take_index p).1 in
    let m = record (p1.messages i) { msgbundle = b } in
    let others : (j : ℕ) → j ≢ i → (set_message i m p1).messages j ≡ p.messages j =
      λ j ne. set_message_ne i j m p1 ne ∙ t.others_same j ne in
    let same : asyncs (set_message i m p1).messages os ≡ asyncs p.messages os =
      asyncs-frame p.messages (set_message i m p1).messages i os t.not_order
        (λ j ne. ap (λ x. is_asynchronous x.msgbundle.message_flags) (others j ne)) in
    record {
      rest = t.rest;
      pooled = record {
        linked =
            subst (λ bs. Linked (set_message i m p1) os bs t.rest) (sym same)
              (set_message-Linked i p1 os (asyncs p.messages os) t.rest m t.linked);
      };
      in_vec = unfold set_message in t.in_vec;
      not_order = t.not_order;
      not_cache = t.not_cache;
      bundle = ap (λ x. x.msgbundle) (set_message_self i m p1);
      others_same = others;
    }

link_back_keeps :
    (i : ℕ) (a : Bool) (p : Pool)
    → ((link_back i a p).messages ≡ p.messages) × ((link_back i a p).vec_size ≡ p.vec_size)
unfolding link_back order_push_back async_push_back
link_back_keeps i true p = (refl, refl)
link_back_keeps i false p = (refl, refl)

link_front_keeps :
    (i : ℕ) (a : Bool) (p : Pool)
    → ((link_front i a p).messages ≡ p.messages) × ((link_front i a p).vec_size ≡ p.vec_size)
unfolding link_front order_push_front async_push_front
link_front_keeps i true p = (refl, refl)
link_front_keeps i false p = (refl, refl)

linked_Inserted :
    (b : MessageBundle) (p p1 p' : Pool) (i : ℕ) (os os' : List ℕ)
    → (t : Placed b p os (p1, i)) → Pooled p' os' t.rest
    → p'.messages ≡ p1.messages
    → p'.vec_size ≡ p1.vec_size
    → Inserted b p os os' p' (record { index = i; unique = (p1.messages i).unique })
linked_Inserted b p p1 p' i os os' t pooled same size =
    let at : (j : ℕ) → p'.messages j ≡ p1.messages j = λ j. ap (λ m. m j) same in
    record {
      rest = t.rest;
      pooled = pooled;
      in_vec = omega (arith, size, t.in_vec);
      not_order = t.not_order;
      bundle = ap (λ x. x.msgbundle) (at i) ∙ t.bundle;
      current = ap (λ x. x.unique) (at i);
      others_same = λ j ne. at j ∙ t.others_same j ne;
    }

-- For a pool whose order list and cache hold lists of indices, whose list of asynchronous messages holds those of the
-- order list that are asynchronous, and whose vector has room for one more: `push_back_message` puts the message at
-- an index that the order list did not hold, as its newest; the list of asynchronous messages stays the part of the
-- order list that is asynchronous, in the same order. The id names the message, and no other message changes.
pub push_back_message-Inserted :
    (b : MessageBundle) (p : Pool) (os cs : List ℕ)
    → p.vec_size < invalid_index
    → Pooled p os cs
    → Inserted b p os
        ((push_back_message b p).1.index ∷ os)
        (push_back_message b p).0
        (push_back_message b p).1
unfolding push_back_message
push_back_message-Inserted b p os cs lt h =
    let t = insert_message-Placed b p os cs lt h in
    let p1 = (insert_message b p).0 in
    let i = (insert_message b p).1 in
    let a = is_asynchronous b.message_flags in
    linked_Inserted b p p1 (link_back i a p1) i os (i ∷ os) t
      (link_back-Pooled i a p1 os t.rest t.in_vec t.not_order t.not_cache
        (ap (λ x. is_asynchronous x.message_flags) t.bundle) t.pooled)
      (link_back_keeps i a p1).0 (link_back_keeps i a p1).1

pub push_front_message-Inserted :
    (b : MessageBundle) (p : Pool) (os cs : List ℕ)
    → p.vec_size < invalid_index
    → Pooled p os cs
    → Inserted b p os
        (os ++ (push_front_message b p).1.index ∷ [])
        (push_front_message b p).0
        (push_front_message b p).1
unfolding push_front_message
push_front_message-Inserted b p os cs lt h =
    let t = insert_message-Placed b p os cs lt h in
    let p1 = (insert_message b p).0 in
    let i = (insert_message b p).1 in
    let a = is_asynchronous b.message_flags in
    linked_Inserted b p p1 (link_front i a p1) i os (os ++ i ∷ []) t
      (link_front-Pooled i a p1 os t.rest t.in_vec t.not_order t.not_cache
        (ap (λ x. is_asynchronous x.message_flags) t.bundle) t.pooled)
      (link_front_keeps i a p1).0 (link_front_keeps i a p1).1
