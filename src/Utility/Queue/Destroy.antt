-- ===== src/Utility/Queue/Destroy.antt =====
-- The destructor of queue.hpp.
use solidframe.Prelude.{
  ℕ, zero, suc, ◌+◌, ◌-◌, ◌<◌, ◌≡◌, refl, sym, ap, subst, ◌∙◌, true, Bool-cases, inl, inr, Option,
  none, some, List, [], ◌∷◌, ◌++◌, append-nil, ◌==◌, bit_and, arith,
}
use solidframe.Prelude.Lists.{length, length-append}
use solidframe.Utility.InnerList.Chain.{Distinct, Below, append-Distinct, cons-Apart, append-Below}
use solidframe.Utility.Queue.{
  Node, Address, Queue, node_size, node_mask, node_of, first_of, unlink_first, pop_node, pop_at,
  pop, pop_all, with_queue, delete_cached, with_last, delete_all, destroy,
}
use solidframe.Utility.Queue.Nodes.{Linked, values, all_values, length-values}
use solidframe.Utility.Queue.Refine.{Apart-nil, Nodes, Spans, Filled, vacant, spans, Holds}
use solidframe.Utility.Queue.Refine.Pop.{pop-Holds}

-- The chain ends with fuel to spare, and its nodes are found in their order.
delete_cached-finds :
    {T : Type 0} (fuel : ℕ) (mem : ℕ → Node T) (p : Option ℕ) (ns : List ℕ)
    → length ns < fuel
    → Linked mem p ns
    → delete_cached fuel mem p ≡ some ns
unfolding delete_cached
delete_cached-finds zero mem p ns h l = absurd (omega (arith, h))
delete_cached-finds (suc fuel) mem p [] h l = rw l refl
delete_cached-finds (suc fuel) mem p (n ∷ ns) h (e, l) =
    rw (e, delete_cached-finds fuel mem (mem n).next ns (omega (arith, h)) l) refl

-- All nodes, each once.
pub record EachOnce (count : ℕ) (ns : List ℕ) : Type 0 where
  pub distinct : Distinct ns
  pub below : Below count ns
  pub all_made : length ns ≡ count

abbrev node_or_0 : Option ℕ → ℕ
node_or_0 none = 0
node_or_0 (some n) = n

abbrev count_or : {T : Type 0} → ℕ → Option (Queue T) → ℕ
count_or d none = d
count_or d (some q) = q.node_count

Nodes-EachOnce :
    (count l : ℕ) (cs : List ℕ) → Nodes count (l ∷ []) cs → EachOnce count (cs ++ l ∷ [])
Nodes-EachOnce count l cs k = record {
  distinct =
      append-Distinct cs (l ∷ []) k.distinct.1 (tt, tt)
        (cons-Apart l cs [] k.distinct.0 (Apart-nil cs));
  below = append-Below count cs (l ∷ []) k.below.1 (k.below.0, tt);
  all_made = omega (arith, k.made, length-append cs (l ∷ []));
}

module _ {T : Type 0} (nbits : ℕ) where
  delete_all_vacant :
      (fuel : ℕ) (q : Queue T) (cached : List ℕ)
      → length cached < fuel
      → Linked q.memory q.ptn cached
      → q.pf ≡ none
      → delete_all fuel q ≡ some cached
  unfolding delete_all
  delete_all_vacant fuel q cached h l e = rw e (
      ap (λ r. with_last r []) (delete_cached-finds fuel q.memory q.ptn cached h l)
      ∙ ap some (append-nil cached))

  delete_all_used :
      (fuel : ℕ) (q : Queue T) (cached : List ℕ) (n : ℕ)
      → length cached < fuel
      → Linked q.memory q.ptn cached
      → q.pf ≡ some (record { node = n; cell = q.popsz })
      → delete_all fuel q ≡ some (cached ++ n ∷ [])
  unfolding delete_all
  delete_all_used fuel q cached n h l e =
      let same : (q.popsz == q.popsz) ≡ true = ground arith in
      rw (e, same)
        (ap (λ r. with_last r (n ∷ [])) (delete_cached-finds fuel q.memory q.ptn cached h l))

  delete_all-EachOnce :
      (fuel : ℕ) (q : Queue T)
      → q.node_count < fuel
      → Holds nbits q []
      → (ns : List ℕ) × (delete_all fuel q ≡ some ns) × EachOnce q.node_count ns
  delete_all-EachOnce fuel q room h = by_filled h.used [] refl h.filled h.nodes
    where
      by_filled :
          (used : List ℕ) (xs : List T)
          → xs ≡ []
          → Filled nbits q used xs
          → Nodes q.node_count used h.cached
          → (ns : List ℕ) × (delete_all fuel q ≡ some ns) × EachOnce q.node_count ns
      by_filled _ _ e (vacant v) k = (
        h.cached,
        delete_all_vacant fuel q h.cached (omega (arith, k.made, room)) h.linked v.no_front,
        record { distinct = k.distinct; below = k.below; all_made = k.made },
      )
      by_filled _ _ e (spans ms l j dead xs s) k =
          by_nodes ms k (subst (Spans nbits q ms l j dead) e s)
        where
          by_nodes :
              (ms : List ℕ)
              → Nodes q.node_count (ms ++ l ∷ []) h.cached
              → Spans nbits q ms l j dead []
              → (ns : List ℕ) × (delete_all fuel q ≡ some ns) × EachOnce q.node_count ns
          by_nodes [] k s =
              let same : s.first ≡ l = ap node_or_0 s.linked.0 in
              (
                h.cached ++ s.first ∷ [],
                delete_all_used fuel q h.cached s.first (omega (arith, k.made, room)) h.linked
                    s.at_front,
                Nodes-EachOnce q.node_count s.first h.cached
                    (subst (λ n. Nodes q.node_count (n ∷ []) h.cached) (sym same) k),
              )
          by_nodes (n ∷ ms) k s = absurd (
              omega (
                arith,
                ap length s.content,
                length-append dead [],
                length-append (all_values (node_size nbits) q.memory (n ∷ ms))
                    (values q.memory l (suc j)),
                length-append (values q.memory n (node_size nbits))
                    (all_values (node_size nbits) q.memory ms),
                length-values q.memory n (node_size nbits),
                s.gone,
                s.first_room,
              ))

  -- No call of `pop` makes a node.
  first_of_count : (p : Option ℕ) (q : Queue T) → (first_of p q).node_count ≡ q.node_count
  first_of_count none q = refl
  first_of_count (some n) q = refl

  unlink_count :
      (p : Option ℕ) (q : Queue T) → count_or q.node_count (unlink_first q p) ≡ q.node_count
  unlink_count none q = refl
  unlink_count (some n) q = first_of_count (q.memory n).next _

  pop_at_count :
      (q : Queue T) (a : Address) → count_or q.node_count (pop_at nbits q a) ≡ q.node_count
  unfolding pop_at pop_node
  pop_at_count q a = elim (Bool-cases (q.sz == 0)) [
    | inl z ↦ rw z refl
    | inr z ↦ elim (Bool-cases (bit_and (q.popsz + 1) (node_mask nbits) == 0)) [
      | inl t ↦
          rw (z, t)
            (unlink_count (node_of nbits a) (record q { sz = q.sz - 1; popsz = q.popsz + 1 }))
      | inr t ↦ rw (z, t) refl
    ]
  ]

  pop_count : (q p : Queue T) → pop nbits q ≡ some p → p.node_count ≡ q.node_count
  unfolding pop
  pop_count q p e = sym (ap (count_or q.node_count) e) ∙ by_front q.pf
    where
      by_front :
          (f : Option Address)
          → count_or q.node_count (elim f [ none ↦ none | some a ↦ pop_at nbits q a ])
            ≡ q.node_count
      by_front none = refl
      by_front (some a) = pop_at_count q a

  pop_all-Holds :
      (xs : List T) (q : Queue T)
      → Holds nbits q xs
      → (p : Queue T) × (pop_all nbits (length xs) q ≡ some p)
        × Holds nbits p []
        × (p.node_count ≡ q.node_count)
  unfolding pop_all
  pop_all-Holds [] q h = (q, refl, h, refl)
  pop_all-Holds (x ∷ xs) q h =
      let (q1, e1, h1) = pop-Holds nbits x q xs h in
      let (p, e2, h2, c) = pop_all-Holds xs q1 h1 in
      (p, ap (λ r. with_queue r (pop_all nbits (length xs))) e1 ∙ e2, h2, c ∙ pop_count q q1 e1)

  pub Filled-size :
      (q : Queue T) (used : List ℕ) (xs : List T) → Filled nbits q used xs → q.sz ≡ length xs
  Filled-size q _ _ (vacant v) = v.none_left
  Filled-size q _ _ (spans ms l j dead xs s) = s.size

  pub destroy-EachOnce :
      (fuel : ℕ) (q : Queue T) (xs : List T)
      → q.node_count < fuel
      → Holds nbits q xs
      → (ns : List ℕ) × (destroy nbits fuel q ≡ some ns) × EachOnce q.node_count ns
  unfolding destroy
  destroy-EachOnce fuel q xs room h =
      let (p, e, h1, c) = pop_all-Holds xs q h in
      let (ns, d, k) = delete_all-EachOnce fuel p (omega (arith, c, room)) h1 in
      (
        ns,
        ap (λ n. with_queue (pop_all nbits n q) (delete_all fuel))
              (Filled-size q h.used xs h.filled)
            ∙ ap (λ r. with_queue r (delete_all fuel)) e
            ∙ d,
        subst (λ n. EachOnce n ns) c k,
      )
