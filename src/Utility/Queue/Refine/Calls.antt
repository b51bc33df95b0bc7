-- ===== src/Utility/Queue/Refine/Calls.antt =====
-- The calls of a queue of queue.hpp, against those of a list.
use solidframe.Prelude.{ℕ, ◌<◌, ◌≡◌, refl, sym, ap, subst, Option, none, some, List, [], ◌∷◌, ◌++◌}
use solidframe.Prelude.Lists.{length}
use solidframe.Utility.Queue.{
  Node, Queue, new_queue, push, pop, front, queue_back, size_of, destroy,
}
use solidframe.Utility.Queue.Refine.{vacant, Holds}
use solidframe.Utility.Queue.Destroy.{EachOnce, Filled-size, destroy-EachOnce}
use solidframe.Utility.Queue.Refine.Push.{push-Holds}
use solidframe.Utility.Queue.Refine.Pop.{pop-Holds}
use solidframe.Utility.Queue.Refine.Ends.{Holds-front, Holds-back}

abbrev value_or : {A : Type 0} → A → Option A → A
value_or d none = d
value_or d (some x) = x

module _ {T : Type 0} (nbits : ℕ) where
  -- Calls on a new queue, whatever is in the memory, and what a list is after the same calls. A pop is called where the
  -- list is not empty.
  pub data QueueCalls (memory : ℕ → Node T) : Option (Queue T) → List T → Type 0 where
    made : QueueCalls memory (some (new_queue memory)) []
    pushed :
        (x : T) (q : Queue T) (xs : List T)
        → QueueCalls memory (some q) xs
        → QueueCalls memory (push nbits x q) (xs ++ x ∷ [])
    popped :
        (x : T) (q : Queue T) (xs : List T)
        → QueueCalls memory (some q) (x ∷ xs)
        → QueueCalls memory (pop nbits q) xs

  -- What the queue answers, and what its destructor deletes.
  pub record Shows (q : Queue T) (xs : List T) : Type 0 where
    pub size : size_of q ≡ length xs
    pub at_front : (x : T) (ys : List T) → xs ≡ x ∷ ys → front q ≡ some x
    pub at_back : (x : T) (ys : List T) → xs ≡ ys ++ x ∷ [] → queue_back q ≡ some x
    pub deletes :
        (fuel : ℕ)
        → q.node_count < fuel
        → (ns : List ℕ) × (destroy nbits fuel q ≡ some ns) × EachOnce q.node_count ns

  Holds-Shows : (q : Queue T) (xs : List T) → Holds nbits q xs → Shows q xs
  Holds-Shows q xs h = record {
    size = Filled-size nbits q h.used xs h.filled;
    at_front = λ x ys e. Holds-front nbits x q ys (subst (Holds nbits q) e h);
    at_back = λ x ys e. Holds-back nbits x q ys (subst (Holds nbits q) e h);
    deletes = λ fuel room. destroy-EachOnce nbits fuel q xs room h;
  }

  QueueCalls-Holds :
      (memory : ℕ → Node T) (r : Option (Queue T)) (xs : List T)
      → QueueCalls memory r xs
      → (q : Queue T) × (r ≡ some q) × Holds nbits q xs
  QueueCalls-Holds memory _ _ made = (
    new_queue memory,
    refl,
    record {
      used = [];
      cached = [];
      nodes = record { distinct = tt; below = tt; made = refl };
      linked = refl;
      filled =
          vacant (record { no_back = refl; no_front = refl; none_popped = refl; none_left = refl });
    },
  )
  QueueCalls-Holds memory _ _ (pushed x q xs c) =
      let (q2, e, h) = QueueCalls-Holds memory (some q) xs c in
      push-Holds nbits x q xs (subst (λ p. Holds nbits p xs) (sym (ap (value_or q) e)) h)
  QueueCalls-Holds memory _ _ (popped x q xs c) =
      let (q2, e, h) = QueueCalls-Holds memory (some q) (x ∷ xs) c in
      pop-Holds nbits x q xs (subst (λ p. Holds nbits p (x ∷ xs)) (sym (ap (value_or q) e)) h)

  -- After any pushes, and pops where there is a value, on a new queue with nodes of any power of two of values: nothing
  -- undefined happened. The queue has the size of the list after the same calls, shows its first value at the front and
  -- its last at the back; and its destructor, with more fuel than nodes, deletes every node that was made once.
  pub QueueCalls-Shows :
      (memory : ℕ → Node T) (r : Option (Queue T)) (xs : List T)
      → QueueCalls memory r xs
      → (q : Queue T) × (r ≡ some q) × Shows q xs
  QueueCalls-Shows memory r xs c =
      let (q, e, h) = QueueCalls-Holds memory r xs c in (q, e, Holds-Shows q xs h)
