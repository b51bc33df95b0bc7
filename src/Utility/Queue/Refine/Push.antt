-- ===== src/Utility/Queue/Refine/Push.antt =====
-- `push` of queue.hpp.
use solidframe.Prelude.{
  ℕ, suc, ◌+◌, ◌≡◌, refl, ap, subst, ◌∙◌, true, false, some, List, [], ◌∷◌, ◌++◌, ◌==◌, ==_iff,
  bit_and, arith,
}
use solidframe.Prelude.Words.{bit_and_mask, pow_pos}
use solidframe.Prelude.Lists.{length}
use native.Mathlib.Decide.{dec_lt}
use native.Mathlib.Nat.{mod-eq_of_lt}
use solidframe.Utility.Queue.{
  Address, Queue, node_size, node_mask, node_of, first_cell, set_next, take_node, link_behind,
  push_node, write_back, pushed, push,
}
use solidframe.Utility.Queue.Nodes.{node_of-last}
use solidframe.Utility.Queue.Refine.{Nodes, take_node-Taken, Vacant, Filled, vacant, spans, Holds}
use solidframe.Utility.Queue.Refine.Extend.{
  suc_plus, full_test, room_test, total_of, push_first, push_next, push_more,
}

module _ {T : Type 0} (nbits : ℕ) where
  push_at_first :
      (x : T) (q : Queue T)
      → Vacant q
      → push nbits x q
        ≡ some (
            write_back
              (first_cell (take_node q).1)
              x
              (record (take_node q).0 { pf = some (first_cell (take_node q).1) }))
  unfolding push push_node
  push_at_first x q v =
      let t : (bit_and (q.sz + q.popsz) (node_mask nbits) == 0) ≡ true =
        rw (v.none_left, v.none_popped)
          ((==_iff _ 0).1 (bit_and_mask nbits 0 ∙ mod-eq_of_lt (pow_pos nbits))) in
      rw (t, v.no_back) refl

  push_at_next :
      (x : T) (q : Queue T) (a : Address)
      → (bit_and (q.sz + q.popsz) (node_mask nbits) == 0) ≡ false
      → q.pb ≡ some a
      → push nbits x q ≡ some (write_back (record a { cell = a.cell + 1 }) x q)
  unfolding push
  push_at_next x q a t e = rw (t, e) refl

  push_full :
      (x : T) (q : Queue T)
      → (bit_and (q.sz + q.popsz) (node_mask nbits) == 0) ≡ true
      → push nbits x q ≡ pushed x (push_node nbits q.pb q)
  unfolding push
  push_full x q t = rw t refl

  push_node_at :
      (q : Queue T) (a : Address)
      → node_of nbits a ≡ some a.node
      → let r = take_node q in
        push_node nbits (some a) q
        ≡ some (record r.0 { memory = set_next a.node (some r.1) r.0.memory }, first_cell r.1)
  unfolding push_node
  push_node_at q a e = ap (link_behind (take_node q)) e

  push_at_more :
      (x : T) (q : Queue T) (a : Address)
      → (bit_and (q.sz + q.popsz) (node_mask nbits) == 0) ≡ true
      → q.pb ≡ some a
      → a.cell + 1 ≡ node_size nbits
      → let r = take_node q in
        push nbits x q
        ≡ some (
            write_back
              (first_cell r.1)
              x
              (record r.0 { memory = set_next a.node (some r.1) r.0.memory }))
  push_at_more x q a t e f =
      push_full x q t
      ∙ ap (λ p. pushed x (push_node nbits p q)) e
      ∙ ap (pushed x) (push_node_at q a (node_of-last nbits a f))

  -- A push on a queue that holds `xs` ends.
  pub push-Holds :
      (x : T) (q : Queue T) (xs : List T)
      → Holds nbits q xs
      → (q' : Queue T) × (push nbits x q ≡ some q') × Holds nbits q' (xs ++ x ∷ [])
  push-Holds x q xs h = by_filled h.used xs h.filled h.nodes
    where
      by_filled :
          (used : List ℕ) (xs : List T)
          → Filled nbits q used xs
          → Nodes q.node_count used h.cached
          → (q' : Queue T) × (push nbits x q ≡ some q') × Holds nbits q' (xs ++ x ∷ [])
      by_filled _ _ (vacant v) k = (
        _,
        push_at_first x q v,
        push_first nbits x q (take_node q) v (take_node-Taken q [] h.cached k h.linked),
      )
      by_filled _ _ (spans ms l j dead ys s) k =
          let total = total_of nbits q ms l j dead ys s in
          elim (dec_lt (suc j) (node_size nbits)) [
            | yes r ↦ (
              _,
              push_at_next x q _ (room_test nbits _ (length ms) j total r) s.at_back,
              subst
                  (λ c. Holds nbits (write_back (record { node = l; cell = c }) x q) (ys ++ x ∷ []))
                  (suc_plus j) (push_next nbits x q ms l j dead ys h.cached r k h.linked s),
            )
            | no r ↦
                let full : suc j ≡ node_size nbits = omega (arith, s.last_room, r) in
                (
                  _,
                  push_at_more x q _ (full_test nbits _ (length ms) j total full) s.at_back
                      (omega (arith, full)),
                  push_more nbits x q ms l j dead ys (take_node q) full s
                      (take_node-Taken q (ms ++ l ∷ []) h.cached k h.linked),
                )
          ]
