-- ===== src/Mpipc/Writer/Cancel/Pending.antt =====
-- A case of `doCancel` in mpipcmessagewriter.cpp: a request, which is flagged as waiting for a response from
-- the start, is canceled while it still waits to be sent.
use solidframe.Prelude.{
  ℕ, ◌<◌, ◌≡◌, false, true, refl, sym, ap, subst, ◌∙◌, some, none, List, [], ◌∷◌, ◌++◌, arith,
}
use solidframe.Utility.InnerList.{Links, InnerList, InnerLink, invalid_index, push_front}
use solidframe.Utility.InnerList.Chain.{
  NotIn, Apart, Valid, Chain, IsList, first, last, last-append, last-NotIn, Apart-symm,
  Apart-append, Apart-cons, cons-Apart, Distinct-append, Below-append,
}
use solidframe.Utility.InnerList.Push.{push_front-IsList, push_front_elsewhere}
use solidframe.Mpipc.Message.{canceled_bundle}
use solidframe.Mpipc.Writer.{
  MessageWriter, set_stub, do_unprepare_message_stub, do_cancel, finish_cancel, cache_push_front,
}
use solidframe.Mpipc.Writer.Lists.{Holds}
use solidframe.Mpipc.Writer.Cancel.{detached, detached-Holds}

-- A walk along the links before `i` comes to `i`.
walk_reaches :
    (ls ls' : Links) (p q i : ℕ) (us vs ys zs : List ℕ)
    → Apart us zs
    → ((j : ℕ) → NotIn j zs → ls' j ≡ ls j)
    → Chain ls p (us ++ i ∷ vs) invalid_index
    → Valid (us ++ i ∷ vs)
    → Chain ls' q ys invalid_index
    → first ys invalid_index ≡ first (us ++ i ∷ vs) invalid_index
    → ¬ NotIn i ys
walk_reaches ls ls' p q i [] vs [] zs a same c v d e n = omega (arith, e, v.0)
walk_reaches ls ls' p q i [] vs (y ∷ ys) zs a same c v d e n = n.0 (sym e)
walk_reaches ls ls' p q i (u ∷ us) vs [] zs a same c v d e n = omega (arith, e, v.0)
walk_reaches ls ls' p q i (u ∷ us) vs (y ∷ ys) zs (a, as') same (c1, c2, c3) (v1, v2) (d1, d2, d3) e
      (n1, n2) =
    walk_reaches ls ls' u y i us vs ys zs as' same c3 v2 d3
      (sym d2 ∙ ap (λ t. (ls' t).next) e ∙ ap InnerLink.next (same u a) ∙ c2) n2

module _ (ls : Links) (lw lc : InnerList) (i : ℕ) (us vs cs : List ℕ) where
  front_is_pushed :
      i < invalid_index → NotIn i cs → IsList ls lc cs → (push_front i ls lc).1.front ≡ i
  front_is_pushed ok n c =
      (push_front-IsList ls lc i cs ok n c).front_last ∙ last-append invalid_index cs (i ∷ [])

  -- After the push of an index that the other list has, no two lists that are apart hold.
  shared_push :
      (ws' cs' : List ℕ)
      → NotIn i cs
      → Apart (us ++ i ∷ vs) cs
      → IsList ls lw (us ++ i ∷ vs)
      → IsList ls lc cs
      → IsList (push_front i ls lc).0 lw ws'
      → IsList (push_front i ls lc).0 (push_front i ls lc).1 cs'
      → ¬ Apart ws' cs'
  shared_push ws' cs' n a w c w' c' apart =
      let ok = (Below-append invalid_index us (i ∷ vs) w.valid).1.0 in
      let (du, dv, auv) = Distinct-append us (i ∷ vs) w.distinct in
      let au = (Apart-append us (i ∷ vs) cs a).0 in
      let no_walk : ¬ NotIn i ws' =
        walk_reaches ls _ invalid_index invalid_index i us vs ws' (i ∷ cs)
          (cons-Apart i us cs (Apart-cons i us vs auv).0 au)
          (λ j h. push_front_elsewhere ls lc i j cs c h.0 h.1) w.linked w.valid w'.linked
          (sym w'.back_first ∙ w.back_first) in
      no_walk (front_apart cs' (sym c'.front_last ∙ front_is_pushed ok n c) ok apart)
    where
      front_apart :
          (xs : List ℕ) → last invalid_index xs ≡ i → i < invalid_index → Apart ws' xs → NotIn i ws'
      front_apart [] e ok p = absurd (omega (arith, e, ok))
      front_apart (x ∷ xs) e ok p =
          subst (λ t. NotIn t ws') e (last-NotIn x xs ws' (Apart-symm ws' (x ∷ xs) p))

module _ {S : Type 0} where
  unprepare_breaks :
      (i : ℕ) (w : MessageWriter S) (os w1 w2 cs os' ws' cs' : List ℕ)
      → NotIn i cs
      → Holds w os (w1 ++ i ∷ w2) cs
      → ¬ Holds (do_unprepare_message_stub i w) os' ws' cs'
  unfolding do_unprepare_message_stub cache_push_front set_stub
  unprepare_breaks i w os w1 w2 cs os' ws' cs' n h h' =
      shared_push w.status_links w.write_inner_list w.cache_inner_list i w1 w2 cs ws' cs' n
        h.write_apart h.write h.cache h'.write h'.cache h'.write_apart

  -- For a writer whose three lists hold lists of indices, and a message without a serializer that is
  -- in the order list and in the write list, is not marked as canceled, but is flagged as waiting for
  -- a response: `do_cancel` succeeds, and leaves links that hold no lists of indices, since the index
  -- is pushed to the cache while the write list still links it.
  pub do_cancel_request_breaks :
      (clear : S → S) (i : ℕ) (w : MessageWriter S) (o1 o2 w1 w2 cs os' ws' cs' : List ℕ)
      → (w.stubs i).msgbundle.message_flags.canceled ≡ false
      → (w.stubs i).msgbundle.message_flags.wait_response ≡ true
      → (w.stubs i).serializer_ptr ≡ none
      → Holds w (o1 ++ i ∷ o2) (w1 ++ i ∷ w2) cs
      → (w' : MessageWriter S) × (do_cancel clear i w
          ≡ some (w', canceled_bundle (w.stubs i).msgbundle, (w.stubs i).pool_msg_id))
        × (¬ Holds w' os' ws' cs')
  unfolding do_cancel finish_cancel
  do_cancel_request_breaks clear i w o1 o2 w1 w2 cs os' ws' cs' e f g h =
      let (a1, a2) = Apart-append w1 (i ∷ w2) cs h.write_apart in
      (
        do_unprepare_message_stub i (detached i w),
        rw e (rw g (rw f refl)),
        unprepare_breaks i (detached i w) (o1 ++ o2) w1 w2 cs os' ws' cs' a2.0
            (detached-Holds i w o1 o2 (w1 ++ i ∷ w2) cs h),
      )
