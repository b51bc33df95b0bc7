-- ===== src/Mpipc/Writer/Visit.antt =====
-- `forEveryMessagesNewerToOlder` of mpipcmessagewriter.cpp.
use solidframe.Prelude.{
  ℕ, zero, suc, ◌<◌, ◌≡◌, refl, sym, ap, subst, ◌∙◌, Bool, true, false, Option, some, none, List,
  [], ◌∷◌, ◌++◌, ◌==◌, ==_iff, Bool-cases, inl, inr, if◌then◌else◌, arith,
}
use solidframe.Prelude.Lists.{length, length-append}
use solidframe.Utility.InnerList.{invalid_index, previous_index, front_index}
use solidframe.Utility.InnerList.Chain.{
  Valid, Chain, Chain-append, Below-append, last, last-append, snoc_cases,
}
use solidframe.Mpipc.Message.{MessageBundle, MessageId, is_waiting_response}
use solidframe.Mpipc.Writer.{
  MessageWriter, set_stub, order_erase, write_erase, do_unprepare_message_stub,
}
use solidframe.Mpipc.Writer.Lists.{Holds}

pub data Visit (S X : Type 0) : Type 0 where
  visited : MessageWriter S → X → Visit S X
  -- A message without its object is in the order list, and an exception is thrown.
  thrown : Visit S X
  out_of_fuel : Visit S X

abbrev pub is_null : Option ℕ → Bool
is_null none = true
is_null (some p) = false

module _ {S X : Type 0} (visit : MessageBundle → MessageId → X → MessageBundle × X) where
  -- The loop, from the message `msgidx` on. The visitor may change the bundle; a message whose object it takes
  -- leaves the lists.
  pub visit_loop : ℕ → ℕ → MessageWriter S → X → Visit S X
  visit_loop zero msgidx w x = out_of_fuel
  visit_loop (suc fuel) msgidx w x =
      let stub = w.stubs msgidx in
      let (b, x') = visit stub.msgbundle stub.pool_msg_id x in
      let w1 = set_stub msgidx (record stub { msgbundle = b }) w in
      let w2 =
        if is_waiting_response stub.msgbundle.message_flags then w1 else write_erase msgidx w1 in
      let taken =
        visit_loop fuel (previous_index w2.order_links msgidx)
          (do_unprepare_message_stub msgidx (order_erase msgidx w2)) x' in
      let kept = visit_loop fuel (previous_index w1.order_links msgidx) w1 x' in
      if msgidx == invalid_index
      then visited w x
      else if is_null stub.msgbundle.message_ptr
      then thrown
      else if is_null b.message_ptr
      then taken
      else kept

  pub for_every_messages_newer_to_older : ℕ → MessageWriter S → X → Visit S X
  for_every_messages_newer_to_older fuel w x = visit_loop fuel (front_index w.order_inner_list) w x

module _ {S X : Type 0} (see : MessageBundle → MessageId → X → X) (w0 : MessageWriter S) where
  -- A visitor that looks at the messages and leaves them.
  abbrev pub look : MessageBundle → MessageId → X → MessageBundle × X
  look b id x = (b, see b id x)

  -- The messages are seen from the last index of the list to the first.
  abbrev pub seen : List ℕ → X → X
  seen [] x = x
  seen (i ∷ us) x = see (w0.stubs i).msgbundle (w0.stubs i).pool_msg_id (seen us x)

  -- Every index of the list has a message object.
  abbrev pub Present : List ℕ → Type 0
  Present [] = Unit {0}
  Present (i ∷ us) = (is_null (w0.stubs i).msgbundle.message_ptr ≡ false) × Present us

  Present-append : (us vs : List ℕ) → Present (us ++ vs) → Present us × Present vs
  Present-append [] vs p = (tt, p)
  Present-append (u ∷ us) vs (h, p) = let (a, b) = Present-append us vs p in ((h, a), b)

  seen-append : (us vs : List ℕ) (x : X) → seen (us ++ vs) x ≡ seen us (seen vs x)
  seen-append [] vs x = refl
  seen-append (u ∷ us) vs x =
      ap (see (w0.stubs u).msgbundle (w0.stubs u).pool_msg_id) (seen-append us vs x)

  step_back :
      (fuel i : ℕ) (w : MessageWriter S) (x : X)
      → i < invalid_index
      → is_null (w.stubs i).msgbundle.message_ptr ≡ false
      → visit_loop look (suc fuel) i w x
        ≡ visit_loop look fuel
            (previous_index w.order_links i)
            (set_stub i (w.stubs i) w)
            (see (w.stubs i).msgbundle (w.stubs i).pool_msg_id x)
  unfolding visit_loop set_stub
  step_back fuel i w x ok e =
      let test : (i == invalid_index) ≡ false = ground arith in rw (test, e) refl

  set_same : (i j : ℕ) (w : MessageWriter S) → (set_stub i (w.stubs i) w).stubs j ≡ w.stubs j
  unfolding set_stub
  set_same i j w = elim (Bool-cases (j == i)) [
    | inl e ↦ rw e (ap w.stubs (sym ((==_iff j i).0 e)))
    | inr e ↦ rw e refl
  ]

  loop_sees :
      (fuel : ℕ) (us : List ℕ) (n : ℕ) (w : MessageWriter S) (x : X)
      → length us < fuel
      → Valid us
      → Chain w.order_links invalid_index us n
      → Present us
      → ((j : ℕ) → w.stubs j ≡ w0.stubs j)
      → (w' : MessageWriter S) × (visit_loop look fuel (last invalid_index us) w x
          ≡ visited w' (seen us x))
        × ((j : ℕ) → w'.stubs j ≡ w0.stubs j)
  loop_sees zero us n w x h v c p s = absurd (omega arith)
  loop_sees (suc fuel) us n w x h v c p s = elim (snoc_cases us) [
    | inl e ↦ rw e (w, unfold visit_loop in refl, s)
    | inr (ts, i, e) ↦
        let (vt, vi) = Below-append invalid_index ts (i ∷ []) (subst Valid e v) in
        let (ct, ci) =
          Chain-append w.order_links invalid_index n ts (i ∷ [])
            (subst (λ t. Chain w.order_links invalid_index t n) e c) in
        let (pt, pi) = Present-append ts (i ∷ []) (subst Present e p) in
        let here : is_null (w.stubs i).msgbundle.message_ptr ≡ false =
          ap (λ t. is_null t.msgbundle.message_ptr) (s i) ∙ pi.0 in
        let w1 = set_stub i (w.stubs i) w in
        let (w', run, s') =
          loop_sees fuel ts i w1 (see (w.stubs i).msgbundle (w.stubs i).pool_msg_id x)
            (omega (arith, ap length e, length-append ts (i ∷ []))) vt (unfold set_stub in ct) pt
            (λ j. set_same i j w ∙ s j) in
        let back : previous_index w.order_links i ≡ last invalid_index ts = ci.0 in
        (
          w',
          ap (λ t. visit_loop look (suc fuel) t w x)
                (ap (last invalid_index) e ∙ last-append invalid_index ts (i ∷ []))
              ∙ step_back fuel i w x vi.0 here
              ∙ ap
                  (λ t.
                    visit_loop look fuel t w1 (see (w.stubs i).msgbundle (w.stubs i).pool_msg_id x))
                  back
              ∙ run
              ∙ ap (visited w') (
                  ap (λ t. seen ts (see t.msgbundle t.pool_msg_id x)) (s i)
                  ∙ sym (seen-append ts (i ∷ []) x)
                  ∙ ap (λ t. seen t x) (sym e)),
          s',
        )
  ]

  -- For a writer whose three lists hold lists of indices, with a message object at every index of the
  -- order list, and more fuel than indices: with a visitor that leaves the bundles alone, the walk
  -- ends and leaves every stub as it was. The visitor has seen each message of the order list once,
  -- from the front of the list to its back, where `enqueue` puts new messages.
  pub for_every_message_older_to_newer :
      (fuel : ℕ) (os ws cs : List ℕ) (x : X)
      → length os < fuel
      → Present os
      → Holds w0 os ws cs
      → (w' : MessageWriter S) × (for_every_messages_newer_to_older look fuel w0 x
          ≡ visited w' (seen os x))
        × ((j : ℕ) → w'.stubs j ≡ w0.stubs j)
  unfolding for_every_messages_newer_to_older
  for_every_message_older_to_newer fuel os ws cs x h p holds =
      let (w', run, s) =
        loop_sees fuel os invalid_index w0 x h holds.order.valid holds.order.linked p (λ j. refl) in
      (w', ap (λ t. visit_loop look fuel t w0 x) holds.order.front_last ∙ run, s)
