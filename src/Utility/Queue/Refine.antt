-- ===== src/Utility/Queue/Refine.antt =====
-- What a queue of queue.hpp holds: its two chains of nodes, and the values between its two ends.
pub mod Extend
pub mod Push
pub mod Shrink
pub mod Pop
pub mod Ends
pub mod Calls
use solidframe.Prelude.{
  ℕ, zero, suc, ◌+◌, ◌-◌, ◌*◌, ◌≤◌, ◌<◌, ◌≡◌, ◌≢◌, refl, sym, ap, subst, ◌∙◌, Option, none, some,
  List, [], ◌∷◌, ◌++◌, append-nil, append_assoc, arith,
}
use solidframe.Prelude.Lists.{length, length-append}
use solidframe.Utility.InnerList.Chain.{
  Below-NotIn, NotIn, Distinct, Apart, Below, NotIn-append, append-NotIn, Distinct-append,
  append-Distinct, cons-Apart, Below-append, append-Below,
}
use solidframe.Utility.Queue.{Node, Address, Queue, node_size, set_next, take_node}
use solidframe.Utility.Queue.Nodes.{
  Linked, values, all_values, Linked-frame, set_next-cells, set_next-other, set_next-here,
}

-- Every node that was made is in one of the two chains, once.
pub record Nodes (count : ℕ) (used cached : List ℕ) : Type 0 where
  pub distinct : Distinct (used ++ cached)
  pub below : Below count (used ++ cached)
  pub made : length (used ++ cached) ≡ count

pub Apart-nil : (us : List ℕ) → Apart us []
Apart-nil [] = tt
Apart-nil (u ∷ us) = (tt, Apart-nil us)

Below-suc : (n : ℕ) (ns : List ℕ) → Below n ns → Below (n + 1) ns
Below-suc n [] b = tt
Below-suc n (m ∷ ns) b = (omega (arith, b.0), Below-suc n ns b.1)

-- A node passes from the front of the one chain to the front of the other.
pub Nodes-move : (count n : ℕ) (us cs : List ℕ) → Nodes count (n ∷ us) cs → Nodes count us (n ∷ cs)
Nodes-move count n us cs k =
    let (d, e, a) = Distinct-append us cs k.distinct.1 in
    let (nu, nc) = NotIn-append n us cs k.distinct.0 in
    let (bu, bc) = Below-append count us cs k.below.1 in
    record {
      distinct = append-Distinct us (n ∷ cs) d (nc, e) (cons-Apart n us cs nu a);
      below = append-Below count us (n ∷ cs) bu (k.below.0, bc);
      made = omega (arith, k.made, length-append us cs, length-append us (n ∷ cs));
    }

-- A node passes to the end of the chain in use.
pub Nodes-take :
    (count n : ℕ) (us cs : List ℕ) → Nodes count us (n ∷ cs) → Nodes count (us ++ n ∷ []) cs
Nodes-take count n us cs k =
    let same = sym (append_assoc us (n ∷ []) cs) in
    record {
      distinct = subst Distinct same k.distinct;
      below = subst (Below count) same k.below;
      made = ap length (sym same) ∙ k.made;
    }

-- A new node.
pub Nodes-new : (count : ℕ) (us : List ℕ) → Nodes count us [] → Nodes (count + 1) us (count ∷ [])
Nodes-new count us k =
    let same = append-nil us in
    let b : Below count us = subst (Below count) same k.below in
    let d : Distinct us = subst Distinct same k.distinct in
    record {
      distinct =
          append-Distinct us (count ∷ []) d (tt, tt)
            (cons-Apart count us [] (Below-NotIn count us b) (Apart-nil us));
      below = append-Below (count + 1) us (count ∷ []) (Below-suc count us b) (omega arith, tt);
      made = omega (arith, k.made, length-append us [], length-append us (count ∷ []));
    }

module _ {T : Type 0} where
  -- What `take_node` gives: a node that is in no chain but at the end of the one in use.
  pub record Taken (q : Queue T) (used : List ℕ) (r : Queue T × ℕ) : Type 0 where
    pub cached : List ℕ
    pub linked : Linked r.0.memory r.0.ptn cached
    pub nodes : Nodes r.0.node_count used (r.1 ∷ cached)
    pub ends : (r.0.memory r.1).next ≡ none
    pub others : (i : ℕ) → i ≢ r.1 → (r.0.memory i).next ≡ (q.memory i).next
    pub cells : (i : ℕ) → (r.0.memory i).cells ≡ (q.memory i).cells
    pub same : (r.0.sz ≡ q.sz) × (r.0.popsz ≡ q.popsz) × (r.0.pb ≡ q.pb) × (r.0.pf ≡ q.pf)

  take_new :
      (q : Queue T)
      → q.ptn ≡ none
      → take_node q ≡ (
        record q { memory = set_next q.node_count none q.memory; node_count = q.node_count + 1 },
        q.node_count,
      )
  unfolding take_node
  take_new q e = rw e refl

  take_cached :
      (q : Queue T) (c : ℕ)
      → q.ptn ≡ some c
      → take_node q ≡ (record q { memory = set_next c none q.memory; ptn = (q.memory c).next }, c)
  unfolding take_node
  take_cached q c e = rw e refl

  pub take_node-Taken :
      (q : Queue T) (used cached : List ℕ)
      → Nodes q.node_count used cached
      → Linked q.memory q.ptn cached
      → Taken q used (take_node q)
  take_node-Taken q used [] k l = subst (Taken q used) (sym (take_new q l)) (record {
    cached = [];
    linked = l;
    nodes = Nodes-new q.node_count used k;
    ends = set_next-here q.node_count none q.memory;
    others = λ i ne. ap (λ n. n.next) (set_next-other q.node_count none q.memory i ne);
    cells = set_next-cells q.node_count none q.memory;
    same = (refl, refl, refl, refl);
  })
  take_node-Taken q used (c ∷ cs) k (e, l) =
      let apart = Distinct-append used (c ∷ cs) k.distinct in
      subst (Taken q used) (sym (take_cached q c e)) (record {
        cached = cs;
        linked =
            Linked-frame q.memory (set_next c none q.memory) _ c cs apart.1.0
              (λ i ne. ap (λ n. n.next) (set_next-other c none q.memory i ne)) l;
        nodes = k;
        ends = set_next-here c none q.memory;
        others = λ i ne. ap (λ n. n.next) (set_next-other c none q.memory i ne);
        cells = set_next-cells c none q.memory;
        same = (refl, refl, refl, refl);
      })

  -- The values are those of the chain in use, but for the ones that were popped: the last node holds `j + 1`.
  pub record Spans (nbits : ℕ) (q : Queue T) (ms : List ℕ) (l j : ℕ) (dead xs : List T)
      : Type 0 where
    pub first : ℕ
    pub linked : Linked q.memory (some first) (ms ++ l ∷ [])
    pub at_front : q.pf ≡ some (record { node = first; cell = q.popsz })
    pub at_back : q.pb ≡ some (record { node = l; cell = j })
    pub last_room : j < node_size nbits
    pub first_room : q.popsz < node_size nbits
    pub content : all_values (node_size nbits) q.memory ms ++ values q.memory l (suc j) ≡ dead ++ xs
    pub gone : length dead ≡ q.popsz
    pub size : q.sz ≡ length xs

  pub record Vacant (q : Queue T) : Type 0 where
    pub no_back : q.pb ≡ none
    pub no_front : q.pf ≡ none
    pub none_popped : q.popsz ≡ 0
    pub none_left : q.sz ≡ 0

  pub data Filled (nbits : ℕ) (q : Queue T) : List ℕ → List T → Type 0 where
    vacant : Vacant q → Filled nbits q [] []
    spans :
        (ms : List ℕ) (l j : ℕ) (dead xs : List T)
        → Spans nbits q ms l j dead xs
        → Filled nbits q (ms ++ l ∷ []) xs

  -- The queue holds the values in this order.
  pub record Holds (nbits : ℕ) (q : Queue T) (xs : List T) : Type 0 where
    pub used : List ℕ
    pub cached : List ℕ
    pub nodes : Nodes q.node_count used cached
    pub linked : Linked q.memory q.ptn cached
    pub filled : Filled nbits q used xs
