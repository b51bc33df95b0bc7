-- ===== src/Utility/Queue/Refine/Extend.antt =====
-- What a `push` of queue.hpp leaves: a value more in the last node, or in a node behind it.
use solidframe.Prelude.{
  ℕ, suc, ◌+◌, ◌*◌, ◌%◌, ◌<◌, ◌≡◌, ◌≢◌, refl, sym, ap, subst, ◌∙◌, true, false, Option, none, some,
  List, [], ◌∷◌, ◌++◌, append_assoc, ◌==◌, ==_iff, bit_and, arith,
}
use solidframe.Prelude.Words.{bit_and_mask, pow_pos}
use solidframe.Prelude.Lists.{length, length-append}
use native.Mathlib.Nat.{mod-eq_of_lt, mod_self, mul-add-mod_self_left}
use solidframe.Utility.InnerList.Chain.{
  NotIn, Distinct, Apart, NotIn-append, Distinct-append, Apart-cons,
}
use solidframe.Utility.Queue.{
  Node, Address, Queue, node_size, node_mask, first_cell, set_next, set_cell, write_back,
}
use solidframe.Utility.Queue.Nodes.{
  Linked, values, all_values, length-values, length-all_values, Linked-frame, Linked-same,
  all_values-frame, all_values-append, set_next-cells, set_next-other, set_next-here, set_cell-next,
  set_cell-other, set_cell-here, set_cell-values,
}
use solidframe.Utility.Queue.Refine.{Nodes, Nodes-take, Taken, Spans, Vacant, spans, Holds}

pub suc_plus : (n : ℕ) → suc n ≡ n + 1
suc_plus n = omega arith

-- The test of `push` says whether the last node is full.
pub full_test :
    (nbits total k j : ℕ)
    → total ≡ node_size nbits * k + suc j
    → suc j ≡ node_size nbits
    → (bit_and total (node_mask nbits) == 0) ≡ true
full_test nbits total k j e f =
    let whole : total ≡ node_size nbits * k + node_size nbits = omega (arith, e, f) in
    let r : bit_and total (node_mask nbits) ≡ 0 =
      bit_and_mask nbits total
      ∙ ap (λ t. t % node_size nbits) whole
      ∙ mul-add-mod_self_left (node_size nbits) k (node_size nbits)
      ∙ mod_self (node_size nbits) in
    (==_iff _ 0).1 r

pub room_test :
    (nbits total k j : ℕ)
    → total ≡ node_size nbits * k + suc j
    → suc j < node_size nbits
    → (bit_and total (node_mask nbits) == 0) ≡ false
room_test nbits total k j e f =
    let r : bit_and total (node_mask nbits) ≡ suc j =
      bit_and_mask nbits total
      ∙ ap (λ t. t % node_size nbits) e
      ∙ mul-add-mod_self_left (node_size nbits) k (suc j)
      ∙ mod-eq_of_lt f in
    ground (arith, r)

Apart-last : (us : List ℕ) (l : ℕ) (vs : List ℕ) → Apart (us ++ l ∷ []) vs → NotIn l vs
Apart-last [] l vs a = a.0
Apart-last (u ∷ us) l vs a = Apart-last us l vs a.1

module _ {T : Type 0} (nbits : ℕ) where
  -- One more node at the end of the chain.
  Linked-extend :
      (mem mem' : ℕ → Node T) (p : Option ℕ) (ms : List ℕ) (l m : ℕ)
      → Distinct (ms ++ l ∷ [])
      → ((i : ℕ) → i ≢ l → i ≢ m → (mem' i).next ≡ (mem i).next)
      → (mem' l).next ≡ some m
      → (mem' m).next ≡ none
      → NotIn m (ms ++ l ∷ [])
      → Linked mem p (ms ++ l ∷ [])
      → Linked mem' p ((ms ++ l ∷ []) ++ m ∷ [])
  Linked-extend mem mem' p [] l m d same x y n (e, k) = (e, (x, y))
  Linked-extend mem mem' p (a ∷ ms) l m (na, d) same x y (n, ns) (e, k) =
      let al : a ≢ l = (NotIn-append a ms (l ∷ []) na).1.0 in
      let am : a ≢ m = λ t. n (sym t) in
      (
        e,
        subst (λ t. Linked mem' t ((ms ++ l ∷ []) ++ m ∷ [])) (sym (same a al am))
            (Linked-extend mem mem' (mem a).next ms l m d same x y ns k),
      )

  pub total_of :
      (q : Queue T) (ms : List ℕ) (l j : ℕ) (dead xs : List T)
      → Spans nbits q ms l j dead xs
      → q.sz + q.popsz ≡ node_size nbits * length ms + suc j
  total_of q ms l j dead xs s = omega (
    arith,
    s.size,
    s.gone,
    ap length s.content,
    length-append dead xs,
    length-append (all_values (node_size nbits) q.memory ms) (values q.memory l (suc j)),
    length-all_values (node_size nbits) q.memory ms,
    length-values q.memory l (suc j),
  )

  -- The node of the first value.
  pub push_first :
      (x : T) (q : Queue T) (r : Queue T × ℕ)
      → Vacant q
      → Taken q [] r
      → Holds nbits
          (write_back (first_cell r.1) x (record r.0 { pf = some (first_cell r.1) }))
          (x ∷ [])
  push_first x q r v t =
      let z : r.0.popsz ≡ 0 = t.same.1 ∙ v.none_popped in
      let next = set_cell-next (first_cell r.1) x r.0.memory in
      record {
        used = r.1 ∷ [];
        cached = t.cached;
        nodes = Nodes-take r.0.node_count r.1 [] t.cached t.nodes;
        linked =
            Linked-same r.0.memory (set_cell (first_cell r.1) x r.0.memory) r.0.ptn t.cached next
              t.linked;
        filled = spans [] r.1 0 [] (x ∷ []) (record {
          first = r.1;
          linked = (refl, next r.1 ∙ t.ends);
          at_front = ap (λ k. some (record { node = r.1; cell = k })) (sym z);
          at_back = refl;
          last_room = pow_pos nbits;
          first_room = omega (arith, z, pow_pos nbits);
          content = ap (λ y. y ∷ []) (set_cell-here r.1 0 x r.0.memory);
          gone = sym z;
          size = ap (λ n. n + 1) (t.same.0 ∙ v.none_left);
        });
      }

  -- A value more in the last node.
  pub push_next :
      (x : T) (q : Queue T) (ms : List ℕ) (l j : ℕ) (dead xs : List T) (cached : List ℕ)
      → suc j < node_size nbits
      → Nodes q.node_count (ms ++ l ∷ []) cached
      → Linked q.memory q.ptn cached
      → Spans nbits q ms l j dead xs
      → Holds nbits (write_back (record { node = l; cell = suc j }) x q) (xs ++ x ∷ [])
  push_next x q ms l j dead xs cached room k c s =
      let a : Address = record { node = l; cell = suc j } in
      let mem = set_cell a x q.memory in
      let next = set_cell-next a x q.memory in
      let d = Distinct-append ms (l ∷ []) (Distinct-append (ms ++ l ∷ []) cached k.distinct).0 in
      let out = Apart-cons l ms [] d.2 in
      let others =
        all_values-frame (node_size nbits) q.memory mem l ms out.0 (set_cell-other a x q.memory) in
      let before = set_cell-values l (suc j) (suc j) x q.memory (omega arith) in
      record {
        used = ms ++ l ∷ [];
        cached = cached;
        nodes = k;
        linked = Linked-same q.memory mem q.ptn cached next c;
        filled = spans ms l (suc j) dead (xs ++ x ∷ []) (record {
          first = s.first;
          linked = Linked-same q.memory mem (some s.first) (ms ++ l ∷ []) next s.linked;
          at_front = s.at_front;
          at_back = refl;
          last_room = room;
          first_room = s.first_room;
          content =
              rw (others, before, set_cell-here l (suc j) x q.memory)
                (sym (append_assoc (all_values (node_size nbits) q.memory ms) _ (x ∷ []))
                  ∙ ap (λ t. t ++ x ∷ []) s.content
                  ∙ append_assoc dead xs (x ∷ []));
          gone = s.gone;
          size = omega (arith, s.size, length-append xs (x ∷ []));
        });
      }

  -- A value in a node more.
  pub push_more :
      (x : T) (q : Queue T) (ms : List ℕ) (l j : ℕ) (dead xs : List T) (r : Queue T × ℕ)
      → suc j ≡ node_size nbits
      → Spans nbits q ms l j dead xs
      → Taken q (ms ++ l ∷ []) r
      → Holds nbits
          (write_back (first_cell r.1) x (record r.0 { memory = set_next l (some r.1) r.0.memory }))
          (xs ++ x ∷ [])
  push_more x q ms l j dead xs r full s t =
      let a = first_cell r.1 in
      let linked = set_next l (some r.1) r.0.memory in
      let mem = set_cell a x linked in
      let apart = Distinct-append (ms ++ l ∷ []) (r.1 ∷ t.cached) t.nodes.distinct in
      let fresh = Apart-cons r.1 (ms ++ l ∷ []) t.cached apart.2 in
      let last = NotIn-append r.1 ms (l ∷ []) fresh.0 in
      let next = set_cell-next a x linked in
      let links : (i : ℕ) → i ≢ l → (linked i).next ≡ (r.0.memory i).next =
        λ i ne. ap (λ n. n.next) (set_next-other l (some r.1) r.0.memory i ne) in
      let same_cells : (i : ℕ) → i ≢ r.1 → (mem i).cells ≡ (q.memory i).cells = λ i ne.
        set_cell-other a x linked i ne ∙ set_next-cells l (some r.1) r.0.memory i ∙ t.cells i in
      let all = all_values (node_size nbits) q.memory ms in
      let old : all_values (node_size nbits) mem (ms ++ l ∷ []) ≡ dead ++ xs =
        all_values-frame (node_size nbits) q.memory mem r.1 (ms ++ l ∷ []) fresh.0 same_cells
        ∙ all_values-append (node_size nbits) q.memory ms l
        ∙ ap (λ n. all ++ values q.memory l n) (sym full)
        ∙ s.content in
      record {
        used = (ms ++ l ∷ []) ++ r.1 ∷ [];
        cached = t.cached;
        nodes = Nodes-take r.0.node_count r.1 (ms ++ l ∷ []) t.cached t.nodes;
        linked = Linked-same linked mem r.0.ptn t.cached next (
            Linked-frame r.0.memory linked r.0.ptn l t.cached (Apart-last ms l t.cached fresh.1)
              links t.linked);
        filled = spans (ms ++ l ∷ []) r.1 0 dead (xs ++ x ∷ []) (record {
          first = s.first;
          linked =
              Linked-extend q.memory mem (some s.first) ms l r.1 apart.0
                (λ i il im. next i ∙ links i il ∙ t.others i im)
                (next l ∙ set_next-here l (some r.1) r.0.memory)
                (next r.1 ∙ links r.1 last.1.0 ∙ t.ends) fresh.0 s.linked;
          at_front =
              t.same.3
              ∙ s.at_front
              ∙ ap (λ k. some (record { node = s.first; cell = k })) (sym t.same.1);
          at_back = refl;
          last_room = pow_pos nbits;
          first_room = omega (arith, s.first_room, t.same.1);
          content = rw (old, set_cell-here r.1 0 x linked) (append_assoc dead xs (x ∷ []));
          gone = s.gone ∙ sym t.same.1;
          size = omega (arith, s.size, t.same.0, length-append xs (x ∷ []));
        });
      }
