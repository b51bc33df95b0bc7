-- ===== src/Mpipc/Pool/Refine.antt =====
-- Calls of `ConnectionPoolStub` of mpipcservice.cpp, one after the other, against a list of indices.
use solidframe.Prelude.{ℕ, ◌<◌, List, [], ◌∷◌, ◌++◌}
use solidframe.Utility.InnerList.{invalid_index}
use solidframe.Mpipc.Message.{MessageBundle}
use solidframe.Mpipc.Pool.{
  Pool, new_pool, push_back_message, push_front_message, clear_pop_and_cache_message,
}
use solidframe.Mpipc.Pool.Lists.{new_pool-Linked}
use solidframe.Mpipc.Pool.Asyncs.{asyncs}
use solidframe.Mpipc.Pool.Insert.{Pooled, push_back_message-Inserted, push_front_message-Inserted}
use solidframe.Mpipc.Pool.Remove.{clear_pop_and_cache_message-Removed}

-- The list is what a queue with two ends has after the same calls: a message is put before it or behind it, or is
-- taken out of it. The vector has room at each insertion.
pub data Calls : Pool → List ℕ → Type 0 where
  created : Calls new_pool []
  pushed_back :
      (p : Pool) (os : List ℕ) (b : MessageBundle)
      → Calls p os
      → p.vec_size < invalid_index
      → Calls (push_back_message b p).0 ((push_back_message b p).1.index ∷ os)
  pushed_front :
      (p : Pool) (os : List ℕ) (b : MessageBundle)
      → Calls p os
      → p.vec_size < invalid_index
      → Calls (push_front_message b p).0 (os ++ (push_front_message b p).1.index ∷ [])
  removed :
      (p : Pool) (i : ℕ) (o1 o2 : List ℕ)
      → Calls p (o1 ++ i ∷ o2)
      → Calls (clear_pop_and_cache_message i p) (o1 ++ o2)

-- After any calls of `push_back_message`, `push_front_message` and `clear_pop_and_cache_message` on a new pool, with
-- room in the vector at each insertion and with removals of messages that are there: the order list holds the indices
-- that a queue with two ends holds after the same calls, in its order; the list of asynchronous messages holds those
-- of them that are asynchronous, in the same order; and the cache holds a list of indices that are not in use.
pub Calls-Pooled : (p : Pool) (os : List ℕ) → Calls p os → (cs : List ℕ) × Pooled p os cs
unfolding asyncs
Calls-Pooled _ _ created = ([], record { linked = new_pool-Linked })
Calls-Pooled _ _ (pushed_back p os b before room) =
    let (cs, h) = Calls-Pooled p os before in
    let r = push_back_message-Inserted b p os cs room h in (r.rest, r.pooled)
Calls-Pooled _ _ (pushed_front p os b before room) =
    let (cs, h) = Calls-Pooled p os before in
    let r = push_front_message-Inserted b p os cs room h in (r.rest, r.pooled)
Calls-Pooled _ _ (removed p i o1 o2 before) =
    let (cs, h) = Calls-Pooled p (o1 ++ i ∷ o2) before in
    (i ∷ cs, (clear_pop_and_cache_message-Removed i p o1 o2 cs h).pooled)
