-- ===== src/Utility/Tests/Queues.antt =====
-- The theorem on the queue at a few calls, with nodes of two values.
use solidframe.Prelude.{ℕ, ◌≡◌, none, some, [], ◌∷◌}
use solidframe.Utility.Queue.{
  Node, Queue, new_queue, node_of, take_node, push_node, push, pop_node, pop_at, pop,
}
use solidframe.Utility.Queue.Refine.Calls.{
  QueueCalls, made, pushed, popped, Shows, QueueCalls-Shows,
}

-- Nodes whose values are 0.
abbrev zeros : ℕ → Node ℕ
zeros i = record { next = none; cells = λ k. 0 }

one : Queue ℕ
unfolding push push_node take_node
one = elim (push 1 7 (new_queue zeros)) [ none ↦ new_queue zeros | some q ↦ q ]

two : Queue ℕ
unfolding push push_node take_node
two = elim (push 1 8 one) [ none ↦ one | some q ↦ q ]

three : Queue ℕ
unfolding push push_node take_node
three = elim (push 1 9 two) [ none ↦ two | some q ↦ q ]

less : Queue ℕ
unfolding push push_node take_node pop pop_at pop_node
less = elim (pop 1 three) [ none ↦ three | some q ↦ q ]

-- Three values, of which two are popped: the first node is one to use again.
calls : QueueCalls 1 zeros (pop 1 less) (9 ∷ [])
unfolding one two three less push push_node take_node pop pop_at pop_node node_of
calls = popped 8 less (9 ∷ []) (
    popped 7 three (8 ∷ 9 ∷ [])
      (pushed 9 two (7 ∷ 8 ∷ []) (pushed 8 one (7 ∷ []) (pushed 7 (new_queue zeros) [] made))))

QueueCalls-Shows_example : (q : Queue ℕ) × (pop 1 less ≡ some q) × Shows 1 q (9 ∷ [])
QueueCalls-Shows_example = QueueCalls-Shows 1 zeros (pop 1 less) (9 ∷ []) calls
