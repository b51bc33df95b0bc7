-- ===== src/Utility/Queue/Refine/Shrink.antt =====
-- What a `pop` of queue.hpp leaves: the first node with a value less, or the nodes behind it.
use solidframe.Prelude.{
  ℕ, suc, ◌+◌, ◌-◌, ◌<◌, ◌≡◌, ◌≢◌, refl, sym, ap, subst, ◌∙◌, Option, some, List, [], ◌∷◌, ◌++◌,
  append_assoc, arith,
}
use solidframe.Prelude.Words.{pow_pos}
use solidframe.Prelude.Lists.{length, drop, drop-append, length-append}
use solidframe.Utility.InnerList.Chain.{NotIn-append}
use solidframe.Utility.Queue.{Node, Queue, node_size, set_next, first_of}
use solidframe.Utility.Queue.Nodes.{
  Linked, values, all_values, length-values, Linked-frame, values-same, all_values-frame,
  set_next-cells, set_next-other, set_next-here,
}
use solidframe.Utility.Queue.Refine.{Nodes, Nodes-move, Spans, Filled, vacant, spans, Holds}

behind : {A : Type 0} (us vs xs ys : List A) → length us ≡ length vs → us ++ xs ≡ vs ++ ys → xs ≡ ys
behind us vs xs ys e h =
    sym (drop-append us xs)
    ∙ ap (drop (length us)) h
    ∙ ap (λ n. drop n (vs ++ ys)) e
    ∙ drop-append vs ys

nothing : {A : Type 0} (xs : List A) → length xs ≡ 0 → xs ≡ []
nothing [] h = refl
nothing (x ∷ xs) h = absurd (omega (arith, h))

module _ {T : Type 0} (nbits : ℕ) where
  -- The first node stays.
  pub pop_within :
      (x : T) (q : Queue T) (ms : List ℕ) (l j : ℕ) (dead xs : List T) (cached : List ℕ)
      → q.popsz + 1 < node_size nbits
      → Nodes q.node_count (ms ++ l ∷ []) cached
      → Linked q.memory q.ptn cached
      → (s : Spans nbits q ms l j dead (x ∷ xs))
      → Holds nbits
          (record q {
            sz = q.sz - 1;
            popsz = q.popsz + 1;
            pf = some (record { node = s.first; cell = q.popsz + 1 });
          })
          xs
  pop_within x q ms l j dead xs cached room k c s = record {
    used = ms ++ l ∷ [];
    cached = cached;
    nodes = k;
    linked = c;
    filled = spans ms l j (dead ++ x ∷ []) xs (record {
      first = s.first;
      linked = s.linked;
      at_front = refl;
      at_back = s.at_back;
      last_room = s.last_room;
      first_room = room;
      content = s.content ∙ sym (append_assoc dead (x ∷ []) xs);
      gone = omega (arith, s.gone, length-append dead (x ∷ []));
      size = omega (arith, s.size);
    });
  }

  -- The queue when its first node was popped and there is no other.
  pub pop_last_node :
      (x : T) (q : Queue T) (l j : ℕ) (dead xs : List T) (cached : List ℕ)
      → q.popsz + 1 ≡ node_size nbits
      → Nodes q.node_count (l ∷ []) cached
      → Linked q.memory q.ptn cached
      → Spans nbits q [] l j dead (x ∷ xs)
      → Holds nbits
          (first_of (q.memory l).next (record q {
            sz = q.sz - 1;
            popsz = q.popsz + 1;
            memory = set_next l q.ptn q.memory;
            ptn = some l;
          }))
          xs
  pop_last_node x q l j dead xs cached full k c s =
      let out = k.distinct.0 in
      let none_left : length xs ≡ 0 = omega (
        arith,
        ap length s.content,
        length-append dead (x ∷ xs),
        length-values q.memory l (suc j),
        s.gone,
        s.last_room,
        full,
      ) in
      rw s.linked.1 (record {
        used = [];
        cached = l ∷ cached;
        nodes = Nodes-move q.node_count l [] cached k;
        linked = (
          refl,
          subst (λ p. Linked (set_next l q.ptn q.memory) p cached)
              (sym (set_next-here l q.ptn q.memory))
              (Linked-frame q.memory (set_next l q.ptn q.memory) q.ptn l cached out
                (λ i ne. ap (λ n. n.next) (set_next-other l q.ptn q.memory i ne)) c),
        );
        filled = subst (Filled nbits _ []) (sym (nothing xs none_left)) (
            vacant (record {
              no_back = refl;
              no_front = refl;
              none_popped = refl;
              none_left = omega (arith, s.size, none_left);
            }));
      })

  -- There is an address where a chain of nodes starts.
  starts :
      (mem : ℕ → Node T) (p : Option ℕ) (ms : List ℕ) (l : ℕ)
      → Linked mem p (ms ++ l ∷ [])
      → (f : ℕ) × (p ≡ some f)
  starts mem p [] l h = (l, h.0)
  starts mem p (m ∷ ms) l h = (m, h.0)

  pub pop_first_node :
      (x : T) (q : Queue T) (n : ℕ) (ms : List ℕ) (l j : ℕ) (dead xs : List T) (cached : List ℕ)
      → q.popsz + 1 ≡ node_size nbits
      → Nodes q.node_count (n ∷ ms ++ l ∷ []) cached
      → Linked q.memory q.ptn cached
      → Spans nbits q (n ∷ ms) l j dead (x ∷ xs)
      → Holds nbits
          (first_of (q.memory n).next (record q {
            sz = q.sz - 1;
            popsz = q.popsz + 1;
            memory = set_next n q.ptn q.memory;
            ptn = some n;
          }))
          xs
  pop_first_node x q n ms l j dead xs cached full k c s =
      let mem = set_next n q.ptn q.memory in
      let links : (i : ℕ) → i ≢ n → (mem i).next ≡ (q.memory i).next =
        λ i ne. ap (λ m. m.next) (set_next-other n q.ptn q.memory i ne) in
      let out = NotIn-append n (ms ++ l ∷ []) cached k.distinct.0 in
      let size = node_size nbits in
      let head : length (values q.memory n size) ≡ length (dead ++ x ∷ []) =
        omega (arith, length-values q.memory n size, length-append dead (x ∷ []), s.gone, full) in
      let rest : all_values size q.memory ms ++ values q.memory l (suc j) ≡ xs =
        behind (values q.memory n size) (dead ++ x ∷ []) _ xs head (
          sym (append_assoc (values q.memory n size) _ _)
          ∙ s.content
          ∙ sym (append_assoc dead (x ∷ []) xs)) in
      let (f, e) = starts q.memory (q.memory n).next ms l s.linked.1 in
      let chain : Linked mem (some f) (ms ++ l ∷ []) =
        Linked-frame q.memory mem (some f) n (ms ++ l ∷ []) out.0 links
          (subst (λ p. Linked q.memory p (ms ++ l ∷ [])) e s.linked.1) in
      rw e (record {
        used = ms ++ l ∷ [];
        cached = n ∷ cached;
        nodes = Nodes-move q.node_count n (ms ++ l ∷ []) cached k;
        linked = (
          refl,
          subst (λ p. Linked mem p cached) (sym (set_next-here n q.ptn q.memory))
              (Linked-frame q.memory mem q.ptn n cached out.1 links c),
        );
        filled = spans ms l j [] xs (record {
          first = f;
          linked = chain;
          at_front = refl;
          at_back = s.at_back;
          last_room = s.last_room;
          first_room = pow_pos nbits;
          content =
              ap (λ t. t ++ values mem l (suc j))
                (all_values-frame size q.memory mem n ms (NotIn-append n ms (l ∷ []) out.0).0
                  (λ i ne. set_next-cells n q.ptn q.memory i))
              ∙ ap (λ t. all_values size q.memory ms ++ t)
                  (values-same q.memory mem l (suc j) (set_next-cells n q.ptn q.memory l))
              ∙ rest;
          gone = refl;
          size = omega (arith, s.size);
        });
      })
