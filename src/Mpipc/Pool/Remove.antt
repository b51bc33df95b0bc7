-- ===== src/Mpipc/Pool/Remove.antt =====
-- `clearPopAndCacheMessage` and `cacheMessageId` of `ConnectionPoolStub` of mpipcservice.cpp.
use solidframe.Prelude.{
  ℕ, ◌<◌, ◌≡◌, ◌≢◌, refl, sym, ap, subst, ◌∙◌, Bool, true, false, List, ◌∷◌, ◌++◌, ◌==◌, ◌&&◌, ltb,
  arith,
}
use solidframe.Utility.InnerList.Chain.{
  NotIn, Apart-cons, Apart-append, Below-append, append-NotIn, Distinct-append,
}
use solidframe.Mpipc.Message.{is_asynchronous}
use solidframe.Mpipc.Pool.{
  release, unlink, cleared_message, clear_pop_and_cache_message, clear_and_cache_message,
  cache_message_id, PoolMessage, Pool, set_message, erase_message, async_erase, cache_push_back,
}
use solidframe.Mpipc.Pool.Lists.{
  Linked, set_message-Linked, cache_push_back-Linked, erase_message-Linked, async_erase-Linked,
}
use solidframe.Mpipc.Pool.Asyncs.{is_async, asyncs, asyncs-append, asyncs-frame}
use solidframe.Mpipc.Message.{MessageId}
use solidframe.Mpipc.Pool.Insert.{Pooled, set_message_ne, set_message_self}

-- What the pool is after the message at `i` left it.
pub record Removed (i : ℕ) (p : Pool) (os cs : List ℕ) (p' : Pool) : Type 0 where
  pub pooled : Pooled p' os (i ∷ cs)
  pub cleared : p'.messages i ≡ cleared_message (p.messages i)
  pub others_same : (j : ℕ) → j ≢ i → p'.messages j ≡ p.messages j
  pub size_same : p'.vec_size ≡ p.vec_size

pub erase_keeps :
    (i : ℕ) (a : Bool) (p : Pool)
    → ((unlink i a p).messages ≡ p.messages) × ((unlink i a p).vec_size ≡ p.vec_size)
unfolding unlink erase_message async_erase
erase_keeps i true p = (refl, refl)
erase_keeps i false p = (refl, refl)

cache_keeps :
    (i : ℕ) (p : Pool)
    → ((cache_push_back i p).messages ≡ p.messages) × ((cache_push_back i p).vec_size ≡ p.vec_size)
unfolding cache_push_back
cache_keeps i p = (refl, refl)

set_keeps : (i : ℕ) (m : PoolMessage) (p : Pool) → (set_message i m p).vec_size ≡ p.vec_size
unfolding set_message
set_keeps i m p = refl

-- The message leaves the order list, and the asynchronous messages if it is one.
pub unlink-Linked :
    (i : ℕ) (a : Bool) (p : Pool) (o1 o2 cs : List ℕ)
    → is_async p.messages i ≡ a
    → Pooled p (o1 ++ i ∷ o2) cs
    → Linked (unlink i a p) (o1 ++ o2) (asyncs p.messages (o1 ++ o2)) cs
unfolding unlink erase_message asyncs
unlink-Linked i true p o1 o2 cs e h =
    let split : asyncs p.messages (o1 ++ i ∷ o2)
        ≡ asyncs p.messages o1 ++ i ∷ asyncs p.messages o2 =
      asyncs-append p.messages o1 (i ∷ o2) ∙ (rw e refl) in
    subst (λ bs. Linked (unlink i true p) (o1 ++ o2) bs cs) (sym (asyncs-append p.messages o1 o2))
      (async_erase-Linked i (erase_message i p) (o1 ++ o2) (asyncs p.messages o1)
        (asyncs p.messages o2) cs
        (erase_message-Linked i p o1 o2 _ cs
          (subst (λ bs. Linked p (o1 ++ i ∷ o2) bs cs) split h.linked)))
unlink-Linked i false p o1 o2 cs e h =
    let split : asyncs p.messages (o1 ++ i ∷ o2) ≡ asyncs p.messages (o1 ++ o2) =
      asyncs-append p.messages o1 (i ∷ o2) ∙ (rw e (sym (asyncs-append p.messages o1 o2))) in
    erase_message-Linked i p o1 o2 _ cs (subst (λ bs. Linked p (o1 ++ i ∷ o2) bs cs) split h.linked)

pub release-Removed :
    (i : ℕ) (a : Bool) (p : Pool) (o1 o2 cs : List ℕ)
    → is_async p.messages i ≡ a
    → Pooled p (o1 ++ i ∷ o2) cs
    → Removed i p (o1 ++ o2) cs (release i a p)
unfolding release
release-Removed i a p o1 o2 cs e h =
    let p1 = unlink i a p in
    let p2 = cache_push_back i p1 in
    let m = cleared_message (p2.messages i) in
    let (k1, s1) = erase_keeps i a p in
    let (k2, s2) = cache_keeps i p1 in
    let kept : p2.messages ≡ p.messages = k2 ∙ k1 in
    let (d1, d2, apart) = Distinct-append o1 (i ∷ o2) h.linked.order.distinct in
    let gone : NotIn i (o1 ++ o2) = append-NotIn i o1 o2 (Apart-cons i o1 o2 apart).0 d2.0 in
    let (below1, below2) = Below-append p.vec_size o1 (i ∷ o2) h.linked.order_below in
    let (apart1, apart2) = Apart-append o1 (i ∷ o2) cs h.linked.apart in
    let others : (j : ℕ) → j ≢ i → (set_message i m p2).messages j ≡ p.messages j =
      λ j ne. set_message_ne i j m p2 ne ∙ ap (λ f. f j) kept in
    let same : asyncs (set_message i m p2).messages (o1 ++ o2) ≡ asyncs p.messages (o1 ++ o2) =
      asyncs-frame p.messages (set_message i m p2).messages i (o1 ++ o2) gone
        (λ j ne. ap (λ x. is_asynchronous x.msgbundle.message_flags) (others j ne)) in
    record {
      pooled = record {
        linked = set_message-Linked i p2 (o1 ++ o2) _ (i ∷ cs) m (
            subst (λ bs. Linked p2 (o1 ++ o2) bs (i ∷ cs)) (sym same)
              (cache_push_back-Linked i p1 (o1 ++ o2) _ cs (omega (arith, s1, below2.0)) gone
                apart2.0 (unlink-Linked i a p o1 o2 cs e h)));
      };
      cleared = set_message_self i m p2 ∙ ap (λ f. cleared_message (f i)) kept;
      others_same = others;
      size_same = set_keeps i m p2 ∙ s2 ∙ s1;
    }

-- For a pool whose order list, list of asynchronous messages and cache hold lists of indices below the size of the
-- vector, each at most once and no index of the cache in the others, where the asynchronous messages are those of the
-- order list that are marked so, in its order: a message anywhere in the order list is cleared, its index leaves the
-- order list, and that of the asynchronous messages if it is in it, and is given to the cache. The pool is such a pool
-- again, the other messages do not change, and neither does the size of the vector.
pub clear_pop_and_cache_message-Removed :
    (i : ℕ) (p : Pool) (o1 o2 cs : List ℕ)
    → Pooled p (o1 ++ i ∷ o2) cs
    → Removed i p (o1 ++ o2) cs (clear_pop_and_cache_message i p)
unfolding clear_pop_and_cache_message
clear_pop_and_cache_message-Removed i p o1 o2 cs h = release-Removed i _ p o1 o2 cs refl h

-- For such a pool: `cache_message_id`, given the id of a message that is in no list, clears it and gives its index to the
-- cache.
pub cache_message_id-Pooled :
    (id : MessageId) (p : Pool) (os cs : List ℕ)
    → Pooled p os cs
    → NotIn id.index os
    → NotIn id.index cs
    → id.index < p.vec_size
    → (p.messages id.index).unique ≡ id.unique
    → Pooled (cache_message_id id p) os (id.index ∷ cs)
unfolding cache_message_id clear_and_cache_message cache_push_back set_message
cache_message_id-Pooled id p os cs h out unused below e =
    let i = id.index in
    let m = cleared_message (p.messages i) in
    let p1 = set_message i m p in
    let same : asyncs p1.messages os ≡ asyncs p.messages os =
      asyncs-frame p.messages p1.messages i os out
        (λ j ne. ap (λ x. is_asynchronous x.msgbundle.message_flags) (set_message_ne i j m p ne)) in
    let current : (ltb i p.vec_size && ((p.messages i).unique == id.unique)) ≡ true =
      ground (arith, below, e) in
    let linked1 = set_message-Linked i p os _ cs m h.linked in
    rw current (record {
      linked =
          cache_push_back-Linked i p1 os _ cs (omega (arith, below, set_keeps i m p)) out unused
            (subst (λ bs. Linked p1 os bs cs) (sym same) linked1);
    })
