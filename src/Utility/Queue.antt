-- ===== src/Utility/Queue.antt =====
-- `Queue` of solid/utility/queue.hpp: a queue in a chain of nodes, each with room for `2 ^ nbits` values, with a chain
-- of nodes to use again. The memory is a function from the numbers of the nodes, which are numbered as they are made;
-- an address of a value is a node with a position in it. What the code does with a null pointer, or with an
-- address that it takes for that of the last position of a node and is not, is undefined: there is no result.
pub mod Nodes
pub mod Refine
pub mod Destroy
use solidframe.Prelude.{
  ℕ, zero, suc, ◌+◌, ◌-◌, ◌^◌, Bool, Option, none, some, List, [], ◌∷◌, ◌++◌, ◌==◌, if◌then◌else◌,
  bit_and,
}

-- `next` and `data`.
pub record Node (T : Type 0) : Type 0 where
  pub next : Option ℕ
  pub cells : ℕ → T

pub record Address : Type 0 where
  pub node : ℕ
  pub cell : ℕ

pub record Queue (T : Type 0) : Type 0 where
  pub memory : ℕ → Node T
  pub node_count : ℕ
  pub sz : ℕ
  pub popsz : ℕ
  pub pb : Option Address
  pub pf : Option Address
  pub ptn : Option ℕ

-- `NodeSize` and `NodeMask`.
abbrev pub node_size : ℕ → ℕ
node_size nbits = 2 ^ nbits

abbrev pub node_mask : ℕ → ℕ
node_mask nbits = 2 ^ nbits - 1

-- The address of the node from that of its last value.
unfoldable pub node_of : ℕ → Address → Option ℕ
node_of nbits p = if p.cell + 1 == node_size nbits then some p.node else none

abbrev pub first_cell : ℕ → Address
first_cell n = record { node = n; cell = 0 }

-- The nodes deleted by a loop, and one more behind them.
abbrev pub with_last : Option (List ℕ) → List ℕ → Option (List ℕ)
with_last none ls = none
with_last (some ns) ls = some (ns ++ ls)

module _ {T : Type 0} where
  -- `Queue()`, with what is in the memory.
  abbrev pub new_queue : (ℕ → Node T) → Queue T
  new_queue memory = record {
    memory = memory;
    node_count = 0;
    sz = 0;
    popsz = 0;
    pb = none;
    pf = none;
    ptn = none;
  }

  unfoldable pub set_next : ℕ → Option ℕ → (ℕ → Node T) → ℕ → Node T
  set_next n p mem i = if i == n then record (mem n) { next = p } else mem i

  unfoldable pub set_cell : Address → T → (ℕ → Node T) → ℕ → Node T
  set_cell a x mem i =
      if i == a.node
      then record (mem a.node) { cells = λ k. if k == a.cell then x else (mem a.node).cells k }
      else mem i

  -- A node to use again, or a new one; its link is null.
  unfoldable pub take_node : Queue T → Queue T × ℕ
  take_node q = elim q.ptn [
    | none ↦ (
      record q { memory = set_next q.node_count none q.memory; node_count = q.node_count + 1 },
      q.node_count,
    )
    | some tn ↦ (record q { memory = set_next tn none q.memory; ptn = (q.memory tn).next }, tn)
  ]

  -- `pn->next = tn`.
  abbrev pub link_behind : Queue T × ℕ → Option ℕ → Option (Queue T × Address)
  link_behind taken none = none
  link_behind taken (some pn) =
      some
        (record taken.0 { memory = set_next pn (some taken.1) taken.0.memory }, first_cell taken.1)

  -- `pushNode(pb)`: the address is that of the first value of the node.
  unfoldable pub push_node : ℕ → Option Address → Queue T → Option (Queue T × Address)
  push_node nbits p q =
      let taken = take_node q in
      let tn = first_cell taken.1 in
      elim p [
        | none ↦ some (record taken.0 { pf = some tn }, tn)
        | some a ↦ link_behind taken (node_of nbits a)
      ]

  -- `++sz; new(pb) T(_t);`
  abbrev pub write_back : Address → T → Queue T → Queue T
  write_back a x q = record q { pb = some a; sz = q.sz + 1; memory = set_cell a x q.memory }

  abbrev pub pushed : T → Option (Queue T × Address) → Option (Queue T)
  pushed x none = none
  pushed x (some (q, a)) = some (write_back a x q)

  abbrev pub next_address : Queue T → Option Address → Option (Queue T × Address)
  next_address q none = none
  next_address q (some a) = some (q, record a { cell = a.cell + 1 })

  unfoldable pub push : ℕ → T → Queue T → Option (Queue T)
  push nbits x q =
      if bit_and (q.sz + q.popsz) (node_mask nbits) == 0
      then pushed x (push_node nbits q.pb q)
      else pushed x (next_address q q.pb)

  -- The first node's link says which is the first now.
  abbrev pub first_of : Option ℕ → Queue T → Queue T
  first_of none q = record q { pb = none; pf = none; popsz = 0 }
  first_of (some ppn) q = record q { pf = some (first_cell ppn); popsz = 0 }

  abbrev pub unlink_first : Queue T → Option ℕ → Option (Queue T)
  unlink_first q none = none
  unlink_first q (some pn) = some (
      first_of (q.memory pn).next (record q { memory = set_next pn q.ptn q.memory; ptn = some pn }))

  -- `popNode(pf)`: the first node is one to use again.
  unfoldable pub pop_node : ℕ → Address → Queue T → Option (Queue T)
  pop_node nbits a q = unlink_first q (node_of nbits a)

  -- Without a value to destroy the result is undefined.
  unfoldable pub pop_at : ℕ → Queue T → Address → Option (Queue T)
  pop_at nbits q a =
      let less = record q { sz = q.sz - 1; popsz = q.popsz + 1 } in
      let moved = record less { pf = some (record a { cell = a.cell + 1 }) } in
      let emptied = pop_node nbits a less in
      if q.sz == 0
      then none
      else if bit_and (q.popsz + 1) (node_mask nbits) == 0
      then emptied
      else some moved

  unfoldable pub pop : ℕ → Queue T → Option (Queue T)
  pop nbits q = elim q.pf [ none ↦ none | some a ↦ pop_at nbits q a ]

  abbrev pub at_address : Queue T → Option Address → Option T
  at_address q none = none
  at_address q (some a) = some ((q.memory a.node).cells a.cell)

  abbrev pub front : Queue T → Option T
  front q = at_address q q.pf

  abbrev pub queue_back : Queue T → Option T
  queue_back q = at_address q q.pb

  abbrev pub size_of : Queue T → ℕ
  size_of q = q.sz

  abbrev pub has_none : Queue T → Bool
  has_none q = q.sz == 0

  abbrev pub with_queue : {B : Type 0} → Option (Queue T) → (Queue T → Option B) → Option B
  with_queue none f = none
  with_queue (some q) f = f q

  -- The moved queue and what is left of it.
  abbrev pub move_queue : Queue T → Queue T × Queue T
  move_queue q =
      (q, record q { node_count = 0; sz = 0; popsz = 0; pb = none; pf = none; ptn = none })

  -- The destructor: `while(sz) pop();`, with as many rounds as `sz`.
  unfoldable pub pop_all : ℕ → ℕ → Queue T → Option (Queue T)
  pop_all nbits zero q = some q
  pop_all nbits (suc n) q = with_queue (pop nbits q) (pop_all nbits n)

  -- The nodes that the loop on `ptn` deletes.
  unfoldable pub delete_cached : ℕ → (ℕ → Node T) → Option ℕ → Option (List ℕ)
  delete_cached zero mem p = none
  delete_cached (suc fuel) mem none = some []
  delete_cached (suc fuel) mem (some n) = elim (delete_cached fuel mem (mem n).next) [
    | none ↦ none
    | some ns ↦ some (n ∷ ns)
  ]

  -- The node of `pf`, if it is not null, is deleted last; its address is undefined if `pf` is not `popsz` values behind
  -- the node's first.
  unfoldable pub delete_all : ℕ → Queue T → Option (List ℕ)
  delete_all fuel q =
      let cached = delete_cached fuel q.memory q.ptn in
      elim q.pf [
        | none ↦ with_last cached []
        | some a ↦ if a.cell == q.popsz then with_last cached (a.node ∷ []) else none
      ]

  -- The deleted nodes.
  unfoldable pub destroy : ℕ → ℕ → Queue T → Option (List ℕ)
  destroy nbits fuel q = with_queue (pop_all nbits q.sz q) (delete_all fuel)
