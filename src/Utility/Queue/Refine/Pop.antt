-- ===== src/Utility/Queue/Refine/Pop.antt =====
-- `pop` of queue.hpp.
use solidframe.Prelude.{
  ℕ, ◌+◌, ◌-◌, ◌%◌, ◌<◌, ◌≡◌, refl, ap, subst, ◌∙◌, true, false, Option, none, some, List, [], ◌∷◌,
  ◌++◌, ◌==◌, ==_iff, bit_and, arith,
}
use solidframe.Prelude.Words.{bit_and_mask}
use solidframe.Prelude.Lists.{length}
use native.Mathlib.Decide.{dec_lt}
use native.Mathlib.Nat.{mod-eq_of_lt, mod_self}
use solidframe.Utility.Queue.{
  Address, Queue, node_size, node_mask, node_of, set_next, first_of, unlink_first, pop_node, pop_at,
  pop,
}
use solidframe.Utility.Queue.Nodes.{node_of-last}
use solidframe.Utility.Queue.Refine.{Nodes, Spans, Filled, vacant, spans, Holds}
use solidframe.Utility.Queue.Refine.Shrink.{pop_within, pop_last_node, pop_first_node}

module _ {T : Type 0} (nbits : ℕ) where
  pop_from : (q : Queue T) (a : Address) → q.pf ≡ some a → pop nbits q ≡ pop_at nbits q a
  unfolding pop
  pop_from q a e = by_front q.pf e
    where
      by_front :
          (p : Option Address)
          → p ≡ some a
          → (elim p [ none ↦ none | some b ↦ pop_at nbits q b ]) ≡ pop_at nbits q a
      by_front p e = rw e refl

  pop_moves :
      (q : Queue T) (a : Address)
      → (q.sz == 0) ≡ false
      → q.popsz + 1 < node_size nbits
      → pop_at nbits q a
        ≡ some (record q {
          sz = q.sz - 1;
          popsz = q.popsz + 1;
          pf = some (record a { cell = a.cell + 1 });
        })
  unfolding pop_at
  pop_moves q a z room =
      let r : bit_and (q.popsz + 1) (node_mask nbits) ≡ q.popsz + 1 =
        bit_and_mask nbits (q.popsz + 1) ∙ mod-eq_of_lt room in
      let t : (bit_and (q.popsz + 1) (node_mask nbits) == 0) ≡ false = ground (arith, r) in
      rw (z, t) refl

  pop_unlinks :
      (q : Queue T) (a : Address) (n : ℕ)
      → (q.sz == 0) ≡ false
      → q.popsz + 1 ≡ node_size nbits
      → node_of nbits a ≡ some n
      → pop_at nbits q a
        ≡ some (
            first_of (q.memory n).next (record q {
              sz = q.sz - 1;
              popsz = q.popsz + 1;
              memory = set_next n q.ptn q.memory;
              ptn = some n;
            }))
  unfolding pop_at pop_node
  pop_unlinks q a n z full e =
      let r : bit_and (q.popsz + 1) (node_mask nbits) ≡ 0 =
        bit_and_mask nbits (q.popsz + 1)
        ∙ ap (λ t. t % node_size nbits) full
        ∙ mod_self (node_size nbits) in
      let t : (bit_and (q.popsz + 1) (node_mask nbits) == 0) ≡ true = (==_iff _ 0).1 r in
      rw (z, t) (ap (unlink_first (record q { sz = q.sz - 1; popsz = q.popsz + 1 })) e)

  some_left :
      {x : T} (q : Queue T) (ms : List ℕ) (l j : ℕ) (dead xs : List T)
      → Spans nbits q ms l j dead (x ∷ xs)
      → (q.sz == 0) ≡ false
  some_left q ms l j dead xs s = ground (arith, s.size)

  -- A pop of a queue that holds `x` in front of `xs` ends.
  pub pop-Holds :
      (x : T) (q : Queue T) (xs : List T)
      → Holds nbits q (x ∷ xs)
      → (q' : Queue T) × (pop nbits q ≡ some q') × Holds nbits q' xs
  pop-Holds x q xs h = by_filled h.used (x ∷ xs) refl h.filled h.nodes
    where
      Popped : Type 0
      Popped = (q' : Queue T) × (pop nbits q ≡ some q') × Holds nbits q' xs

      by_filled :
          (used : List ℕ) (ys : List T)
          → ys ≡ x ∷ xs
          → Filled nbits q used ys
          → Nodes q.node_count used h.cached
          → Popped
      by_filled _ _ e (vacant v) k = absurd (grind (arith, ap length e))
      by_filled _ _ e (spans ms l j dead ys s) k =
          by_nodes ms k (subst (Spans nbits q ms l j dead) e s)
        where
          by_full :
              (ms : List ℕ)
              → q.popsz + 1 ≡ node_size nbits
              → Nodes q.node_count (ms ++ l ∷ []) h.cached
              → Spans nbits q ms l j dead (x ∷ xs)
              → Popped
          by_full [] full k s = (
            _,
            pop_from q _ s.at_front
                ∙ pop_unlinks q _ l (some_left q [] l j dead xs s) full
                    (node_of-last nbits _ full ∙ s.linked.0),
            pop_last_node nbits x q l j dead xs h.cached full k h.linked s,
          )
          by_full (n ∷ ms) full k s = (
            _,
            pop_from q _ s.at_front
                ∙ pop_unlinks q _ n (some_left q (n ∷ ms) l j dead xs s) full
                    (node_of-last nbits _ full ∙ s.linked.0),
            pop_first_node nbits x q n ms l j dead xs h.cached full k h.linked s,
          )

          by_nodes :
              (ms : List ℕ)
              → Nodes q.node_count (ms ++ l ∷ []) h.cached
              → Spans nbits q ms l j dead (x ∷ xs)
              → Popped
          by_nodes ms k s = elim (dec_lt (q.popsz + 1) (node_size nbits)) [
            | yes r ↦ (
              _,
              pop_from q _ s.at_front ∙ pop_moves q _ (some_left q ms l j dead xs s) r,
              pop_within nbits x q ms l j dead xs h.cached r k h.linked s,
            )
            | no r ↦ by_full ms (omega (arith, s.first_room, r)) k s
          ]
