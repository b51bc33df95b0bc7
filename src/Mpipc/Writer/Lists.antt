-- ===== src/Mpipc/Writer/Lists.antt =====
-- The invariant of the writer: its three lists hold lists of indices of the vector, and the cache, which
-- shares its links with the write list, holds none that is in use.
use solidframe.Prelude.{
  ℕ, ◌≤◌, ◌<◌, ◌≡◌, ◌≢◌, refl, ap, subst, List, [], ◌∷◌, ◌++◌, append-nil, arith,
}
use solidframe.Utility.InnerList.{invalid_index, clear_link, empty_list}
use solidframe.Utility.InnerList.Chain.{
  NotIn, Apart, Below, IsList, IsList-frame, Apart-symm, cons-Apart, Apart-append, append-Apart,
  Apart-snoc, Below-append, append-Below,
}
use solidframe.Utility.InnerList.Push.{
  push_back-IsList, push_front-IsList, push_back_elsewhere, push_front_elsewhere,
}
use solidframe.Utility.InnerList.Erase.{erase-IsList, erase_elsewhere, pop_front_lem}
use solidframe.Mpipc.Writer.{
  MessageStub, MessageWriter, new_writer, set_stub, order_push_back, order_erase, write_push_back,
  write_erase, write_pop_front, cache_push_front,
}

module _ {S : Type 0} where
  pub record Holds (w : MessageWriter S) (os ws cs : List ℕ) : Type 0 where
    pub order : IsList w.order_links w.order_inner_list os
    pub write : IsList w.status_links w.write_inner_list ws
    pub cache : IsList w.status_links w.cache_inner_list cs
    pub write_apart : Apart ws cs
    pub order_apart : Apart os cs
    pub order_below : Below w.vec_size os
    pub write_below : Below w.vec_size ws
    pub cache_below : Below w.vec_size cs
    pub vec_fits : w.vec_size ≤ invalid_index

  pub new_writer-Holds : Holds new_writer [] [] []
  new_writer-Holds = record {
    order = empty;
    write = empty;
    cache = empty;
    write_apart = tt;
    order_apart = tt;
    order_below = tt;
    write_below = tt;
    cache_below = tt;
    vec_fits = omega arith;
  }
    where
      empty : IsList (λ _. clear_link) empty_list []
      empty = record {
        linked = tt;
        back_first = refl;
        front_last = refl;
        size_length = refl;
        distinct = tt;
        valid = tt;
      }

  pub set_stub_self :
      (i : ℕ) (m : MessageStub S) (w : MessageWriter S) → (set_stub i m w).stubs i ≡ m
  unfolding set_stub
  set_stub_self i m w = ground arith

  pub set_stub_ne :
      (i j : ℕ) (m : MessageStub S) (w : MessageWriter S)
      → j ≢ i
      → (set_stub i m w).stubs j ≡ w.stubs j
  unfolding set_stub
  set_stub_ne i j m w h = ground arith

  -- What is written to a stub does not matter to the lists.
  pub set_stub-Holds :
      (i : ℕ) (m : MessageStub S) (w : MessageWriter S) (os ws cs : List ℕ)
      → Holds w os ws cs
      → Holds (set_stub i m w) os ws cs
  unfolding set_stub
  set_stub-Holds i m w os ws cs h = record {
    order = h.order;
    write = h.write;
    cache = h.cache;
    write_apart = h.write_apart;
    order_apart = h.order_apart;
    order_below = h.order_below;
    write_below = h.write_below;
    cache_below = h.cache_below;
    vec_fits = h.vec_fits;
  }

  pub order_push_back-Holds :
      (i : ℕ) (w : MessageWriter S) (os ws cs : List ℕ)
      → i < w.vec_size
      → NotIn i os
      → NotIn i cs
      → Holds w os ws cs
      → Holds (order_push_back i w) (i ∷ os) ws cs
  unfolding order_push_back
  order_push_back-Holds i w os ws cs lt fo nc h = record {
    order =
        push_back-IsList w.order_links w.order_inner_list i os (omega (arith, h.vec_fits)) fo
          h.order;
    write = h.write;
    cache = h.cache;
    write_apart = h.write_apart;
    order_apart = (nc, h.order_apart);
    order_below = (lt, h.order_below);
    write_below = h.write_below;
    cache_below = h.cache_below;
    vec_fits = h.vec_fits;
  }

  pub write_push_back-Holds :
      (i : ℕ) (w : MessageWriter S) (os ws cs : List ℕ)
      → i < w.vec_size
      → NotIn i ws
      → NotIn i cs
      → Holds w os ws cs
      → Holds (write_push_back i w) os (i ∷ ws) cs
  unfolding write_push_back
  write_push_back-Holds i w os ws cs lt nw nc h = record {
    order = h.order;
    write =
        push_back-IsList w.status_links w.write_inner_list i ws (omega (arith, h.vec_fits)) nw
          h.write;
    cache =
        IsList-frame w.status_links _ w.cache_inner_list cs (i ∷ ws)
          (cons-Apart i cs ws nc (Apart-symm ws cs h.write_apart))
          (λ j n. push_back_elsewhere w.status_links w.write_inner_list i j ws h.write n.0 n.1)
          h.cache;
    write_apart = (nc, h.write_apart);
    order_apart = h.order_apart;
    order_below = h.order_below;
    write_below = (lt, h.write_below);
    cache_below = h.cache_below;
    vec_fits = h.vec_fits;
  }

  pub order_erase-Holds :
      (i : ℕ) (w : MessageWriter S) (o1 o2 ws cs : List ℕ)
      → Holds w (o1 ++ i ∷ o2) ws cs
      → Holds (order_erase i w) (o1 ++ o2) ws cs
  unfolding order_erase
  order_erase-Holds i w o1 o2 ws cs h =
      let (a, b) = Apart-append o1 (i ∷ o2) cs h.order_apart in
      let (c, d) = Below-append w.vec_size o1 (i ∷ o2) h.order_below in
      record {
        order = erase-IsList w.order_links w.order_inner_list i o1 o2 h.order;
        write = h.write;
        cache = h.cache;
        write_apart = h.write_apart;
        order_apart = append-Apart o1 o2 cs a b.1;
        order_below = append-Below w.vec_size o1 o2 c d.1;
        write_below = h.write_below;
        cache_below = h.cache_below;
        vec_fits = h.vec_fits;
      }

  pub write_erase-Holds :
      (i : ℕ) (w : MessageWriter S) (os w1 w2 cs : List ℕ)
      → Holds w os (w1 ++ i ∷ w2) cs
      → Holds (write_erase i w) os (w1 ++ w2) cs
  unfolding write_erase
  write_erase-Holds i w os w1 w2 cs h =
      let (a, b) = Apart-append w1 (i ∷ w2) cs h.write_apart in
      let (c, d) = Below-append w.vec_size w1 (i ∷ w2) h.write_below in
      record {
        order = h.order;
        write = erase-IsList w.status_links w.write_inner_list i w1 w2 h.write;
        cache =
            IsList-frame w.status_links _ w.cache_inner_list cs (w1 ++ i ∷ w2)
              (Apart-symm (w1 ++ i ∷ w2) cs h.write_apart)
              (erase_elsewhere w.status_links w.write_inner_list i w1 w2 h.write) h.cache;
        write_apart = append-Apart w1 w2 cs a b.1;
        order_apart = h.order_apart;
        order_below = h.order_below;
        write_below = append-Below w.vec_size w1 w2 c d.1;
        cache_below = h.cache_below;
        vec_fits = h.vec_fits;
      }

  -- The front of the write list is its last index.
  pub write_pop_front-erase :
      (i : ℕ) (w : MessageWriter S) (os ws cs : List ℕ)
      → Holds w os (ws ++ i ∷ []) cs
      → write_pop_front w ≡ write_erase i w
  unfolding write_pop_front write_erase
  write_pop_front-erase i w os ws cs h =
      ap (λ t. record w { status_links = t.0; write_inner_list = t.1 })
        (pop_front_lem w.status_links w.write_inner_list i ws h.write)

  pub write_pop_front-Holds :
      (i : ℕ) (w : MessageWriter S) (os ws cs : List ℕ)
      → Holds w os (ws ++ i ∷ []) cs
      → Holds (write_pop_front w) os ws cs
  write_pop_front-Holds i w os ws cs h = rw (write_pop_front-erase i w os ws cs h) (
      subst (λ t. Holds (write_erase i w) os t cs) (append-nil ws)
        (write_erase-Holds i w os ws [] cs h))

  pub cache_push_front-Holds :
      (i : ℕ) (w : MessageWriter S) (os ws cs : List ℕ)
      → i < w.vec_size
      → NotIn i os
      → NotIn i ws
      → NotIn i cs
      → Holds w os ws cs
      → Holds (cache_push_front i w) os ws (cs ++ i ∷ [])
  unfolding cache_push_front
  cache_push_front-Holds i w os ws cs lt fo nw nc h = record {
    order = h.order;
    write =
        IsList-frame w.status_links _ w.write_inner_list ws (i ∷ cs)
          (cons-Apart i ws cs nw h.write_apart)
          (λ j n. push_front_elsewhere w.status_links w.cache_inner_list i j cs h.cache n.0 n.1)
          h.write;
    cache =
        push_front-IsList w.status_links w.cache_inner_list i cs (omega (arith, h.vec_fits)) nc
          h.cache;
    write_apart = Apart-snoc i ws cs nw h.write_apart;
    order_apart = Apart-snoc i os cs fo h.order_apart;
    order_below = h.order_below;
    write_below = h.write_below;
    cache_below = append-Below w.vec_size cs (i ∷ []) h.cache_below (lt, tt);
    vec_fits = h.vec_fits;
  }
