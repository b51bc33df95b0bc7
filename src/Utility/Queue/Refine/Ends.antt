-- ===== src/Utility/Queue/Refine/Ends.antt =====
-- The values at the two ends of a queue of queue.hpp.
use solidframe.Prelude.{
  ℕ, zero, suc, ◌<◌, ◌≡◌, refl, sym, ap, subst, ◌∙◌, Option, none, some, List, [], ◌∷◌, ◌++◌,
  append-nil, append_assoc, arith,
}
use solidframe.Prelude.Lists.{length, get_or, length-append}
use native.Mathlib.Decide.{dec_lt}
use solidframe.Utility.Queue.{Node, Address, Queue, node_size, front, queue_back, at_address}
use solidframe.Utility.Queue.Nodes.{values, all_values, length-values}
use solidframe.Utility.Queue.Refine.{Spans, Filled, vacant, spans, Holds}

-- A position in a node, if there is one.
abbrev cell_at : Option ℕ → ℕ → Option Address
cell_at none k = none
cell_at (some n) k = some (record { node = n; cell = k })

module _ {T : Type 0} (nbits : ℕ) where
  get_or-append :
      (us : List T) (x : T) (xs : List T) (d : T) → get_or (us ++ x ∷ xs) (length us) d ≡ x
  get_or-append [] x xs d = refl
  get_or-append (u ∷ us) x xs d = get_or-append us x xs d

  get_or-before :
      (us vs : List T) (i : ℕ) (d : T) → i < length us → get_or (us ++ vs) i d ≡ get_or us i d
  get_or-before [] vs i d h = absurd (omega (arith, h))
  get_or-before (u ∷ us) vs zero d h = refl
  get_or-before (u ∷ us) vs (suc i) d h = get_or-before us vs i d (omega (arith, h))

  get_or-values :
      (mem : ℕ → Node T) (n k i : ℕ) (d : T) → i < k → get_or (values mem n k) i d ≡ (mem n).cells i
  get_or-values mem n zero i d h = absurd (omega (arith, h))
  get_or-values mem n (suc k) i d h = elim (dec_lt i k) [
    | yes p ↦
        get_or-before (values mem n k) ((mem n).cells k ∷ []) i d
          (omega (arith, p, length-values mem n k))
        ∙ get_or-values mem n k i d p
    | no p ↦
        let last : length (values mem n k) ≡ i = omega (arith, h, p, length-values mem n k) in
        let same : k ≡ i = omega (arith, h, p) in
        ap (λ t. get_or (values mem n k ++ (mem n).cells k ∷ []) t d) (sym last)
        ∙ get_or-append (values mem n k) ((mem n).cells k) [] d
        ∙ ap (mem n).cells same
  ]

  front_at :
      (q : Queue T) (f n k : ℕ)
      → q.pf ≡ some (record { node = f; cell = k })
      → some f ≡ some n
      → front q ≡ some ((q.memory n).cells k)
  front_at q f n k e g = ap (at_address q) e ∙ ap (λ p. at_address q (cell_at p k)) g

  same_last : (us vs : List T) (a b : T) → us ++ a ∷ [] ≡ vs ++ b ∷ [] → a ≡ b
  same_last us vs a b e =
      let same : length us ≡ length vs =
        omega (arith, ap length e, length-append us (a ∷ []), length-append vs (b ∷ [])) in
      sym (get_or-append us a [] a)
      ∙ ap (λ t. get_or t (length us) a) e
      ∙ ap (λ i. get_or (vs ++ b ∷ []) i a) same
      ∙ get_or-append vs b [] a

  -- The value at the back.
  pub Holds-back :
      (x : T) (q : Queue T) (xs : List T) → Holds nbits q (xs ++ x ∷ []) → queue_back q ≡ some x
  Holds-back x q xs h = by_filled h.used (xs ++ x ∷ []) refl h.filled
    where
      by_filled :
          (used : List ℕ) (ys : List T)
          → ys ≡ xs ++ x ∷ []
          → Filled nbits q used ys
          → queue_back q ≡ some x
      by_filled _ _ e (vacant v) = absurd (omega (arith, ap length e, length-append xs (x ∷ [])))
      by_filled _ _ e (spans ms l j dead ys s) =
          let all = all_values (node_size nbits) q.memory ms in
          let c : (all ++ values q.memory l j) ++ (q.memory l).cells j ∷ []
              ≡ (dead ++ xs) ++ x ∷ [] =
            append_assoc all (values q.memory l j) _
            ∙ s.content
            ∙ ap (λ t. dead ++ t) e
            ∙ sym (append_assoc dead xs (x ∷ [])) in
          ap (at_address q) s.at_back ∙ ap some (same_last _ _ _ _ c)

  -- The value at the front.
  pub Holds-front : (x : T) (q : Queue T) (xs : List T) → Holds nbits q (x ∷ xs) → front q ≡ some x
  Holds-front x q xs h = by_filled h.used (x ∷ xs) refl h.filled
    where
      by_filled :
          (used : List ℕ) (ys : List T) → ys ≡ x ∷ xs → Filled nbits q used ys → front q ≡ some x
      by_filled _ _ e (vacant v) = absurd (grind (arith, ap length e))
      by_filled _ _ e (spans ms l j dead ys s) = by_nodes ms (subst (Spans nbits q ms l j dead) e s)
        where
          found :
              (n k : ℕ) (rest : List T)
              → q.popsz < k
              → values q.memory n k ++ rest ≡ dead ++ x ∷ xs
              → length dead ≡ q.popsz
              → (q.memory n).cells q.popsz ≡ x
          found n k rest h c g =
              sym (get_or-values q.memory n k q.popsz x h)
              ∙ sym (
                  get_or-before (values q.memory n k) rest q.popsz x
                    (omega (arith, h, length-values q.memory n k)))
              ∙ ap (λ t. get_or t q.popsz x) c
              ∙ ap (λ i. get_or (dead ++ x ∷ xs) i x) (sym g)
              ∙ get_or-append dead x xs x

          by_nodes : (ms : List ℕ) → Spans nbits q ms l j dead (x ∷ xs) → front q ≡ some x
          by_nodes [] s =
              let room : q.popsz < suc j = omega (
                arith,
                ap length s.content,
                length-append dead (x ∷ xs),
                length-values q.memory l (suc j),
                s.gone,
              ) in
              front_at q s.first l _ s.at_front s.linked.0
              ∙ ap some (found l (suc j) [] room (append-nil _ ∙ s.content) s.gone)
          by_nodes (n ∷ ms) s =
              front_at q s.first n _ s.at_front s.linked.0
              ∙ ap some (
                  found n (node_size nbits) _ s.first_room
                    (sym (append_assoc (values q.memory n (node_size nbits)) _ _) ∙ s.content)
                    s.gone)
