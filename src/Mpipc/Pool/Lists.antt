-- ===== src/Mpipc/Pool/Lists.antt =====
-- The three lists of `ConnectionPoolStub` of mpipcservice.cpp: they hold lists of indices of the vector, and the cache,
-- which shares its links with the order list, holds none that is in use.
use solidframe.Prelude.{ℕ, ◌≤◌, ◌<◌, refl, List, [], ◌∷◌, ◌++◌, arith}
use solidframe.Utility.InnerList.{invalid_index, clear_link, empty_list}
use solidframe.Utility.InnerList.Chain.{
  NotIn, Apart, Below, IsList, IsList-frame, Apart-symm, cons-Apart, Apart-append, append-Apart,
  Below-append, append-Below,
}
use solidframe.Utility.InnerList.Push.{
  push_back-IsList, push_front-IsList, push_back_elsewhere, push_front_elsewhere,
}
use solidframe.Utility.InnerList.Erase.{erase-IsList, erase_elsewhere}
use solidframe.Mpipc.Pool.{
  PoolMessage, Pool, new_pool, set_message, order_push_back, order_push_front, erase_message,
  async_push_back, async_push_front, async_erase, cache_push_back,
}

pub record Linked (p : Pool) (os bs cs : List ℕ) : Type 0 where
  pub order : IsList p.order_links p.order_inner_list os
  pub async : IsList p.async_links p.async_inner_list bs
  pub cache : IsList p.order_links p.cache_inner_list cs
  pub apart : Apart os cs
  pub order_below : Below p.vec_size os
  pub async_below : Below p.vec_size bs
  pub cache_below : Below p.vec_size cs
  pub vec_fits : p.vec_size ≤ invalid_index

pub new_pool-Linked : Linked new_pool [] [] []
new_pool-Linked = record {
  order = empty;
  async = empty;
  cache = empty;
  apart = tt;
  order_below = tt;
  async_below = tt;
  cache_below = tt;
  vec_fits = omega arith;
}
  where
    empty : IsList (λ _. clear_link) empty_list []
    empty = record {
      linked = tt;
      back_first = refl;
      front_last = refl;
      size_length = refl;
      distinct = tt;
      valid = tt;
    }

module _ (i : ℕ) (p : Pool) (os bs cs : List ℕ) where
  pub set_message-Linked :
      (m : PoolMessage) → Linked p os bs cs → Linked (set_message i m p) os bs cs
  unfolding set_message
  set_message-Linked m h = record {
    order = h.order;
    async = h.async;
    cache = h.cache;
    apart = h.apart;
    order_below = h.order_below;
    async_below = h.async_below;
    cache_below = h.cache_below;
    vec_fits = h.vec_fits;
  }

  pub order_push_back-Linked :
      i < p.vec_size
      → NotIn i os
      → NotIn i cs
      → Linked p os bs cs
      → Linked (order_push_back i p) (i ∷ os) bs cs
  unfolding order_push_back
  order_push_back-Linked lt fo nc h = record {
    order =
        push_back-IsList p.order_links p.order_inner_list i os (omega (arith, h.vec_fits)) fo
          h.order;
    async = h.async;
    cache =
        IsList-frame p.order_links _ p.cache_inner_list cs (i ∷ os)
          (cons-Apart i cs os nc (Apart-symm os cs h.apart))
          (λ j n. push_back_elsewhere p.order_links p.order_inner_list i j os h.order n.0 n.1)
          h.cache;
    apart = (nc, h.apart);
    order_below = (lt, h.order_below);
    async_below = h.async_below;
    cache_below = h.cache_below;
    vec_fits = h.vec_fits;
  }

  pub order_push_front-Linked :
      i < p.vec_size
      → NotIn i os
      → NotIn i cs
      → Linked p os bs cs
      → Linked (order_push_front i p) (os ++ i ∷ []) bs cs
  unfolding order_push_front
  order_push_front-Linked lt fo nc h = record {
    order =
        push_front-IsList p.order_links p.order_inner_list i os (omega (arith, h.vec_fits)) fo
          h.order;
    async = h.async;
    cache =
        IsList-frame p.order_links _ p.cache_inner_list cs (i ∷ os)
          (cons-Apart i cs os nc (Apart-symm os cs h.apart))
          (λ j n. push_front_elsewhere p.order_links p.order_inner_list i j os h.order n.0 n.1)
          h.cache;
    apart = append-Apart os (i ∷ []) cs h.apart (nc, tt);
    order_below = append-Below p.vec_size os (i ∷ []) h.order_below (lt, tt);
    async_below = h.async_below;
    cache_below = h.cache_below;
    vec_fits = h.vec_fits;
  }

  pub async_push_back-Linked :
      i < p.vec_size → NotIn i bs → Linked p os bs cs → Linked (async_push_back i p) os (i ∷ bs) cs
  unfolding async_push_back
  async_push_back-Linked lt na h = record {
    order = h.order;
    async =
        push_back-IsList p.async_links p.async_inner_list i bs (omega (arith, h.vec_fits)) na
          h.async;
    cache = h.cache;
    apart = h.apart;
    order_below = h.order_below;
    async_below = (lt, h.async_below);
    cache_below = h.cache_below;
    vec_fits = h.vec_fits;
  }

  pub async_push_front-Linked :
      i < p.vec_size
      → NotIn i bs
      → Linked p os bs cs
      → Linked (async_push_front i p) os (bs ++ i ∷ []) cs
  unfolding async_push_front
  async_push_front-Linked lt na h = record {
    order = h.order;
    async =
        push_front-IsList p.async_links p.async_inner_list i bs (omega (arith, h.vec_fits)) na
          h.async;
    cache = h.cache;
    apart = h.apart;
    order_below = h.order_below;
    async_below = append-Below p.vec_size bs (i ∷ []) h.async_below (lt, tt);
    cache_below = h.cache_below;
    vec_fits = h.vec_fits;
  }

  pub cache_push_back-Linked :
      i < p.vec_size
      → NotIn i os
      → NotIn i cs
      → Linked p os bs cs
      → Linked (cache_push_back i p) os bs (i ∷ cs)
  unfolding cache_push_back
  cache_push_back-Linked lt fo nc h = record {
    order =
        IsList-frame p.order_links _ p.order_inner_list os (i ∷ cs) (cons-Apart i os cs fo h.apart)
          (λ j n. push_back_elsewhere p.order_links p.cache_inner_list i j cs h.cache n.0 n.1)
          h.order;
    async = h.async;
    cache =
        push_back-IsList p.order_links p.cache_inner_list i cs (omega (arith, h.vec_fits)) nc
          h.cache;
    apart = cons-Apart i os cs fo h.apart;
    order_below = h.order_below;
    async_below = h.async_below;
    cache_below = (lt, h.cache_below);
    vec_fits = h.vec_fits;
  }

pub erase_message-Linked :
    (i : ℕ) (p : Pool) (o1 o2 bs cs : List ℕ)
    → Linked p (o1 ++ i ∷ o2) bs cs
    → Linked (erase_message i p) (o1 ++ o2) bs cs
unfolding erase_message
erase_message-Linked i p o1 o2 bs cs h =
    let (a, b) = Apart-append o1 (i ∷ o2) cs h.apart in
    let (c, d) = Below-append p.vec_size o1 (i ∷ o2) h.order_below in
    record {
      order = erase-IsList p.order_links p.order_inner_list i o1 o2 h.order;
      async = h.async;
      cache =
          IsList-frame p.order_links _ p.cache_inner_list cs (o1 ++ i ∷ o2)
            (Apart-symm (o1 ++ i ∷ o2) cs h.apart)
            (erase_elsewhere p.order_links p.order_inner_list i o1 o2 h.order) h.cache;
      apart = append-Apart o1 o2 cs a b.1;
      order_below = append-Below p.vec_size o1 o2 c d.1;
      async_below = h.async_below;
      cache_below = h.cache_below;
      vec_fits = h.vec_fits;
    }

pub async_erase-Linked :
    (i : ℕ) (p : Pool) (os a1 a2 cs : List ℕ)
    → Linked p os (a1 ++ i ∷ a2) cs
    → Linked (async_erase i p) os (a1 ++ a2) cs
unfolding async_erase
async_erase-Linked i p os a1 a2 cs h =
    let (c, d) = Below-append p.vec_size a1 (i ∷ a2) h.async_below in
    record {
      order = h.order;
      async = erase-IsList p.async_links p.async_inner_list i a1 a2 h.async;
      cache = h.cache;
      apart = h.apart;
      order_below = h.order_below;
      async_below = append-Below p.vec_size a1 a2 c d.1;
      cache_below = h.cache_below;
      vec_fits = h.vec_fits;
    }
