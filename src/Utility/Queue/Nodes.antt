-- ===== src/Utility/Queue/Nodes.antt =====
-- The chains of nodes of queue.hpp and the values in them.
use solidframe.Prelude.{
  ℕ, zero, suc, ◌+◌, ◌*◌, ◌≤◌, ◌≡◌, ◌≢◌, refl, sym, ap, true, false, Bool-cases, inl, inr, Option,
  none, some, List, [], ◌∷◌, ◌++◌, append-nil, append_assoc, ◌==◌, arith,
}
use solidframe.Prelude.Lists.{length, length-append}
use solidframe.Utility.InnerList.Chain.{NotIn}
use solidframe.Utility.Queue.{Node, Address, node_size, node_of, set_next, set_cell}

-- Whether an index is that of a node is computed by `==`.
same_node : (n : ℕ) → (n == n) ≡ true
same_node n = ground arith

other_node : (i n : ℕ) → i ≢ n → (i == n) ≡ false
other_node i n h = ground arith

-- The last value's address leads to its node.
pub node_of-last :
    (nbits : ℕ) (a : Address) → a.cell + 1 ≡ node_size nbits → node_of nbits a ≡ some a.node
unfolding node_of
node_of-last nbits a e =
    let t : (a.cell + 1 == node_size nbits) ≡ true = ground (arith, e) in rw t refl

module _ {T : Type 0} where
  -- From an address on, the nodes are linked in this order, and the last one's link is null.
  abbrev pub Linked : (ℕ → Node T) → Option ℕ → List ℕ → Type 0
  Linked mem p [] = p ≡ none
  Linked mem p (n ∷ ns) = (p ≡ some n) × Linked mem (mem n).next ns

  -- The first values of a node, and all values of some nodes.
  abbrev pub values : (ℕ → Node T) → ℕ → ℕ → List T
  values mem n zero = []
  values mem n (suc k) = values mem n k ++ (mem n).cells k ∷ []

  abbrev pub all_values : ℕ → (ℕ → Node T) → List ℕ → List T
  all_values size mem [] = []
  all_values size mem (n ∷ ns) = values mem n size ++ all_values size mem ns

  pub length-values : (mem : ℕ → Node T) (n k : ℕ) → length (values mem n k) ≡ k
  length-values mem n zero = refl
  length-values mem n (suc k) =
      omega (arith, length-append (values mem n k) ((mem n).cells k ∷ []), length-values mem n k)

  pub length-all_values :
      (size : ℕ) (mem : ℕ → Node T) (ns : List ℕ)
      → length (all_values size mem ns) ≡ size * length ns
  length-all_values size mem [] = omega arith
  length-all_values size mem (n ∷ ns) = omega (
    arith,
    length-append (values mem n size) (all_values size mem ns),
    length-values mem n size,
    length-all_values size mem ns,
  )

  -- Two memories with the same links, or with the same values.
  pub Linked-frame :
      (mem mem' : ℕ → Node T) (p : Option ℕ) (n : ℕ) (ns : List ℕ)
      → NotIn n ns
      → ((i : ℕ) → i ≢ n → (mem' i).next ≡ (mem i).next)
      → Linked mem p ns
      → Linked mem' p ns
  Linked-frame mem mem' p n [] h same l = l
  Linked-frame mem mem' p n (m ∷ ns) h same (e, l) =
      (e, rw (same m (λ x. h.0 (sym x))) (Linked-frame mem mem' (mem m).next n ns h.1 same l))

  pub Linked-same :
      (mem mem' : ℕ → Node T) (p : Option ℕ) (ns : List ℕ)
      → ((i : ℕ) → (mem' i).next ≡ (mem i).next)
      → Linked mem p ns
      → Linked mem' p ns
  Linked-same mem mem' p [] same l = l
  Linked-same mem mem' p (m ∷ ns) same (e, l) =
      (e, rw (same m) (Linked-same mem mem' (mem m).next ns same l))

  pub values-same :
      (mem mem' : ℕ → Node T) (n k : ℕ)
      → (mem' n).cells ≡ (mem n).cells
      → values mem' n k ≡ values mem n k
  values-same mem mem' n zero e = refl
  values-same mem mem' n (suc k) e =
      rw (values-same mem mem' n k e) (ap (λ f. values mem n k ++ f k ∷ []) e)

  pub all_values-frame :
      (size : ℕ) (mem mem' : ℕ → Node T) (n : ℕ) (ns : List ℕ)
      → NotIn n ns
      → ((i : ℕ) → i ≢ n → (mem' i).cells ≡ (mem i).cells)
      → all_values size mem' ns ≡ all_values size mem ns
  all_values-frame size mem mem' n [] h same = refl
  all_values-frame size mem mem' n (m ∷ ns) h same =
      rw
        (
          values-same mem mem' m size (same m (λ x. h.0 (sym x))),
          all_values-frame size mem mem' n ns h.1 same,
        )
        refl

  pub all_values-append :
      (size : ℕ) (mem : ℕ → Node T) (ms : List ℕ) (n : ℕ)
      → all_values size mem (ms ++ n ∷ []) ≡ all_values size mem ms ++ values mem n size
  all_values-append size mem [] n = append-nil (values mem n size)
  all_values-append size mem (m ∷ ms) n =
      rw (all_values-append size mem ms n) (sym (append_assoc (values mem m size) _ _))

  -- What the writes do.
  pub set_next-cells :
      (n : ℕ) (p : Option ℕ) (mem : ℕ → Node T) (i : ℕ) → (set_next n p mem i).cells ≡ (mem i).cells
  unfolding set_next
  set_next-cells n p mem i = elim (Bool-cases (i == n)) [
    | inl e ↦ let same : n ≡ i = ground (arith, e) in rw e (ap (λ j. (mem j).cells) same)
    | inr e ↦ rw e refl
  ]

  pub set_next-other :
      (n : ℕ) (p : Option ℕ) (mem : ℕ → Node T) (i : ℕ) → i ≢ n → set_next n p mem i ≡ mem i
  unfolding set_next
  set_next-other n p mem i h = rw (other_node i n h) refl

  pub set_next-here : (n : ℕ) (p : Option ℕ) (mem : ℕ → Node T) → (set_next n p mem n).next ≡ p
  unfolding set_next
  set_next-here n p mem = rw (same_node n) refl

  pub set_cell-next :
      (a : Address) (x : T) (mem : ℕ → Node T) (i : ℕ) → (set_cell a x mem i).next ≡ (mem i).next
  unfolding set_cell
  set_cell-next a x mem i = elim (Bool-cases (i == a.node)) [
    | inl e ↦ let same : a.node ≡ i = ground (arith, e) in rw e (ap (λ j. (mem j).next) same)
    | inr e ↦ rw e refl
  ]

  pub set_cell-other :
      (a : Address) (x : T) (mem : ℕ → Node T) (i : ℕ)
      → i ≢ a.node
      → (set_cell a x mem i).cells ≡ (mem i).cells
  unfolding set_cell
  set_cell-other a x mem i h = rw (other_node i a.node h) refl

  pub set_cell-here :
      (n k : ℕ) (x : T) (mem : ℕ → Node T)
      → (set_cell (record { node = n; cell = k }) x mem n).cells k ≡ x
  unfolding set_cell
  set_cell-here n k x mem = rw (same_node n, same_node k) refl

  -- The values before the one that is written.
  pub set_cell-values :
      (n k j : ℕ) (x : T) (mem : ℕ → Node T)
      → j ≤ k
      → values (set_cell (record { node = n; cell = k }) x mem) n j ≡ values mem n j
  unfolding set_cell
  set_cell-values n k zero x mem h = refl
  set_cell-values n k (suc j) x mem h =
      let before : (j == k) ≡ false = ground (arith, h) in
      rw (set_cell-values n k j x mem (omega arith)) (rw (same_node n, before) refl)
