-- ===== src/Mpipc/Writer/Cancel.antt =====
-- `doCancel` of mpipcmessagewriter.cpp: what it does to the lists, by where the message stands.
pub mod Pending
pub mod Stale
use solidframe.Prelude.{
  ℕ, ◌+◌, ◌-◌, ◌%◌, ◌^◌, ◌≤◌, ◌<◌, ◌≡◌, ◌≢◌, false, true, refl, sym, subst, Bool, ◌∙◌, Option, some,
  none, Option-cases, List, [], ◌∷◌, ◌++◌, ◌⊎◌, inl, inr, ◌==◌, if◌then◌else◌, arith,
}
use mathlib.Core.Path.{subst₂}
use solidframe.Utility.InnerList.Chain.{
  NotIn, Apart, Below, Distinct-append, Apart-append, Apart-cons, Apart-symm, Below-append,
  append-NotIn, NotIn-append,
}
use solidframe.Mpipc.Message.{MessageBundle, MessageId, canceled_bundle, moved}
use solidframe.Mpipc.Writer.{
  MessageStub, MessageWriter, set_stub, cleared_stub, do_unprepare_message_stub, do_cancel,
  finish_cancel, cancel, is_current, order_erase, write_erase, cache_push_front,
}
use solidframe.Mpipc.Writer.Lists.{
  Holds, set_stub_self, set_stub_ne, set_stub-Holds, order_erase-Holds, write_erase-Holds,
  cache_push_front-Holds,
}

module _ {S : Type 0} where
  -- The indices are given back to the cache, under another `unique`.
  pub do_unprepare-Holds :
      (i : ℕ) (w : MessageWriter S) (os ws cs : List ℕ)
      → i < w.vec_size
      → NotIn i os
      → NotIn i ws
      → NotIn i cs
      → Holds w os ws cs
      → Holds (do_unprepare_message_stub i w) os ws (cs ++ i ∷ [])
  unfolding do_unprepare_message_stub
  do_unprepare-Holds i w os ws cs lt fo fw fc h =
      cache_push_front-Holds i (set_stub i _ w) os ws cs (unfold set_stub in lt) fo fw fc
        (set_stub-Holds i _ w os ws cs h)

  -- Where the canceled message stands.
  pub data Place (w : MessageWriter S) (i : ℕ) (ws : List ℕ) : List ℕ → Type 0 where
    -- It is being sent: it stays in the write list, marked.
    sending : (s : S) → (w.stubs i).serializer_ptr ≡ some s → Place w i ws ws
    -- It is sent and waits for its response, out of the write list.
    waiting :
        (w.stubs i).serializer_ptr ≡ none
        → (w.stubs i).msgbundle.message_flags.wait_response ≡ true
        → NotIn i ws
        → Place w i ws ws
    -- It waits to be sent, in the write list.
    pending :
        (w1 w2 : List ℕ)
        → ws ≡ w1 ++ i ∷ w2
        → (w.stubs i).serializer_ptr ≡ none
        → (w.stubs i).msgbundle.message_flags.wait_response ≡ false
        → Place w i ws (w1 ++ w2)

  -- What `do_cancel` returns for a message that was not canceled.
  abbrev pub detached : ℕ → MessageWriter S → MessageWriter S
  detached i w =
      let stub = w.stubs i in
      order_erase i
        (set_stub i (record stub { msgbundle = moved (canceled_bundle stub.msgbundle) }) w)

  pub do_cancel_lem :
      (clear : S → S) (i : ℕ) (w : MessageWriter S)
      → (w.stubs i).msgbundle.message_flags.canceled ≡ false
      → do_cancel clear i w
        ≡ some (
          finish_cancel clear i
              (w.stubs i).serializer_ptr
              (w.stubs i).msgbundle.message_flags.wait_response
              (detached i w),
          canceled_bundle (w.stubs i).msgbundle,
          (w.stubs i).pool_msg_id,
        )
  unfolding do_cancel
  do_cancel_lem clear i w e = rw e

  pub detached-Holds :
      (i : ℕ) (w : MessageWriter S) (o1 o2 ws cs : List ℕ)
      → Holds w (o1 ++ i ∷ o2) ws cs
      → Holds (detached i w) (o1 ++ o2) ws cs
  detached-Holds i w o1 o2 ws cs h =
      order_erase-Holds i _ o1 o2 ws cs (set_stub-Holds i _ w (o1 ++ i ∷ o2) ws cs h)

  module _ (clear : S → S) (i : ℕ) (d : MessageWriter S) (os ws cs : List ℕ) where
    finish_sending :
        (s : S) (b : Bool) → Holds d os ws cs → Holds (finish_cancel clear i (some s) b d) os ws cs
    unfolding finish_cancel
    finish_sending s b h = set_stub-Holds i _ d os ws cs h

    finish_waiting :
        i < d.vec_size
        → NotIn i os
        → NotIn i ws
        → NotIn i cs
        → Holds d os ws cs
        → Holds (finish_cancel clear i none true d) os ws (cs ++ i ∷ [])
    unfolding finish_cancel
    finish_waiting lt fo fw fc h = do_unprepare-Holds i d os ws cs lt fo fw fc h

  finish_pending :
      (clear : S → S) (i : ℕ) (d : MessageWriter S) (os w1 w2 cs : List ℕ)
      → NotIn i os
      → Holds d os (w1 ++ i ∷ w2) cs
      → Holds (finish_cancel clear i none false d) os (w1 ++ w2) (cs ++ i ∷ [])
  unfolding finish_cancel
  finish_pending clear i d os w1 w2 cs fo h =
      let (b1, b2) = Below-append d.vec_size w1 (i ∷ w2) h.write_below in
      let (d1, d2, apart) = Distinct-append w1 (i ∷ w2) h.write.distinct in
      let (a1, a2) = Apart-append w1 (i ∷ w2) cs h.write_apart in
      do_unprepare-Holds i (write_erase i d) os (w1 ++ w2) cs (unfold write_erase in b2.0) fo
        (append-NotIn i w1 w2 (Apart-cons i w1 w2 apart).0 d2.0) a2.0
        (write_erase-Holds i d os w1 w2 cs h)

  finish_cancel-Holds :
      (clear : S → S) (i : ℕ) (w : MessageWriter S) (o1 o2 ws cs : List ℕ) {ws' : List ℕ}
      → Place w i ws ws'
      → Holds w (o1 ++ i ∷ o2) ws cs
      → (cs' : List ℕ) × Holds
          (finish_cancel clear i
            (w.stubs i).serializer_ptr
            (w.stubs i).msgbundle.message_flags.wait_response
            (detached i w))
          (o1 ++ o2)
          ws'
          cs'
  finish_cancel-Holds clear i w o1 o2 ws cs {ws' = ws'} place h =
      let d = detached i w in
      let hd = detached-Holds i w o1 o2 ws cs h in
      let (d1, d2, apart) = Distinct-append o1 (i ∷ o2) h.order.distinct in
      let (b1, b2) = Below-append w.vec_size o1 (i ∷ o2) h.order_below in
      let (a1, a2) = Apart-append o1 (i ∷ o2) cs h.order_apart in
      let fo = append-NotIn i o1 o2 (Apart-cons i o1 o2 apart).0 d2.0 in
      let lt : i < d.vec_size = unfold order_erase set_stub in b2.0 in ends d hd fo lt a2.0 place
    where
      ends :
          (d : MessageWriter S)
          → Holds d (o1 ++ o2) ws cs
          → NotIn i (o1 ++ o2)
          → i < d.vec_size
          → NotIn i cs
          → {ws' : List ℕ} → Place w i ws ws'
          → (cs' : List ℕ) × Holds
              (finish_cancel clear i
                (w.stubs i).serializer_ptr
                (w.stubs i).msgbundle.message_flags.wait_response
                d)
              (o1 ++ o2)
              ws'
              cs'
      ends d hd fo lt fc (sending s e) = (
        cs,
        subst
            (λ t.
              Holds (finish_cancel clear i t (w.stubs i).msgbundle.message_flags.wait_response d)
                (o1 ++ o2) ws cs)
            (sym e)
            (finish_sending clear i d (o1 ++ o2) ws cs s
              (w.stubs i).msgbundle.message_flags.wait_response hd),
      )
      ends d hd fo lt fc (waiting e f fw) = (
        cs ++ i ∷ [],
        subst₂ (λ t u. Holds (finish_cancel clear i t u d) (o1 ++ o2) ws (cs ++ i ∷ [])) (sym e)
            (sym f) (finish_waiting clear i d (o1 ++ o2) ws cs lt fo fw fc hd),
      )
      ends d hd fo lt fc (pending w1 w2 q e f) = (
        cs ++ i ∷ [],
        subst₂ (λ t u. Holds (finish_cancel clear i t u d) (o1 ++ o2) (w1 ++ w2) (cs ++ i ∷ []))
            (sym e) (sym f)
            (finish_pending clear i d (o1 ++ o2) w1 w2 cs fo
              (subst (λ t. Holds d (o1 ++ o2) t cs) q hd)),
      )

  -- For a writer whose three lists hold lists of indices: a message that is in the order list, is not
  -- marked as canceled, and stands where its serializer and its flag for a response say (in the write
  -- list if it is being sent or waits to be sent, out of it if it waits for a response), is canceled.
  -- `do_cancel` hands out its bundle, marked as canceled, and the pool's message id; the index leaves
  -- the order list, and the write list too if it waited to be sent; and the lists go on holding lists
  -- of indices.
  pub do_cancel-Holds :
      (clear : S → S) (i : ℕ) (w : MessageWriter S) (o1 o2 ws cs : List ℕ) {ws' : List ℕ}
      → (w.stubs i).msgbundle.message_flags.canceled ≡ false
      → Place w i ws ws'
      → Holds w (o1 ++ i ∷ o2) ws cs
      → (w' : MessageWriter S) × (cs' : List ℕ) × (do_cancel clear i w
          ≡ some (w', canceled_bundle (w.stubs i).msgbundle, (w.stubs i).pool_msg_id))
        × Holds w' (o1 ++ o2) ws' cs'
  do_cancel-Holds clear i w o1 o2 ws cs e place h =
      let (cs', h') = finish_cancel-Holds clear i w o1 o2 ws cs place h in
      (_, cs', do_cancel_lem clear i w e, h')
