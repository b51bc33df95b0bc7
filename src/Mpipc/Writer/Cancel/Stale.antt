-- ===== src/Mpipc/Writer/Cancel/Stale.antt =====
-- `cancel` of mpipcmessagewriter.cpp, on an id whose message was canceled before.
use solidframe.Prelude.{
  ℕ, ◌+◌, ◌%◌, ◌^◌, ◌<◌, ◌≡◌, ◌≢◌, Bool, false, true, refl, sym, ap, ◌∙◌, Option, some, none, ◌==◌,
  ltb, ◌&&◌, if◌then◌else◌, arith,
}
use solidframe.Mpipc.Message.{MessageId, canceled_bundle, moved}
use solidframe.Mpipc.Writer.{
  MessageStub, MessageWriter, do_unprepare_message_stub, do_cancel, finish_cancel, cancel,
  is_current, order_erase, write_erase, cache_push_front,
}
use solidframe.Mpipc.Writer.Lists.{set_stub_self}
use solidframe.Mpipc.Writer.Cancel.{detached, do_cancel_lem}

bump_ne : (u : ℕ) → u < 2 ^ 32 → u ≢ (u + 1) % 2 ^ 32
bump_ne u h e = omega arith

unequal : (a b : ℕ) → a ≢ b → (a == b) ≡ false
unequal a b h = ground arith

and_false : (a : Bool) → (a && false) ≡ false
and_false false = refl
and_false true = refl

if_same {ℓ} : {A : Type ℓ} (b : Bool) (x : A) → (if b then x else x) ≡ x
if_same false x = refl
if_same true x = refl

same_of_test : (a b : ℕ) (c : Bool) → (c && (a == b)) ≡ true → b ≡ a
same_of_test a b c h = ground arith

module _ {S : Type 0} where
  -- A stub that another message may use, or one that is marked: neither can be canceled.
  data Closed (id : MessageId) (w : MessageWriter S) : Type 0 where
    reused : (w.stubs id.index).unique ≢ id.unique → Closed id w
    marked : (w.stubs id.index).msgbundle.message_flags.canceled ≡ true → Closed id w

  do_cancel_marked :
      (clear : S → S) (i : ℕ) (w : MessageWriter S)
      → (w.stubs i).msgbundle.message_flags.canceled ≡ true
      → do_cancel clear i w ≡ none
  unfolding do_cancel
  do_cancel_marked clear i w e = rw e

  Closed-cancel :
      (clear : S → S) (id : MessageId) (w : MessageWriter S)
      → Closed id w
      → cancel clear id w ≡ none
  unfolding cancel is_current
  Closed-cancel clear id w (reused ne) =
      rw (unequal id.unique _ (λ e. ne (sym e))) (rw (and_false (ltb id.index w.vec_size)) refl)
  Closed-cancel clear id w (marked e) =
      rw (do_cancel_marked clear id.index w e) (if_same (is_current id w) none)

  unprepare-Closed :
      (id : MessageId) (w : MessageWriter S)
      → (w.stubs id.index).unique ≡ id.unique
      → id.unique < 2 ^ 32
      → Closed id (do_unprepare_message_stub id.index w)
  unfolding do_unprepare_message_stub cache_push_front
  unprepare-Closed id w e lt = reused (λ q.
      bump_ne id.unique lt
        (sym q ∙ ap MessageStub.unique (set_stub_self id.index _ w) ∙ ap (λ t. (t + 1) % 2 ^ 32) e))

  finish-Closed :
      (clear : S → S) (id : MessageId) (o : Option S) (b : Bool) (d : MessageWriter S)
      → (d.stubs id.index).unique ≡ id.unique
      → id.unique < 2 ^ 32
      → (d.stubs id.index).msgbundle.message_flags.canceled ≡ true
      → Closed id (finish_cancel clear id.index o b d)
  unfolding finish_cancel write_erase
  finish-Closed clear id (some s) b d e lt m =
      marked (ap (λ t. t.msgbundle.message_flags.canceled) (set_stub_self id.index _ d) ∙ m)
  finish-Closed clear id none true d e lt m = unprepare-Closed id d e lt
  finish-Closed clear id none false d e lt m = unprepare-Closed id (write_erase id.index d) e lt

  is_current_unique :
      (id : MessageId) (w : MessageWriter S)
      → is_current id w ≡ true
      → (w.stubs id.index).unique ≡ id.unique
  unfolding is_current
  is_current_unique id w h = same_of_test id.unique _ _ h

  abbrev canceled_stub : MessageStub S → MessageStub S
  canceled_stub m = record m { msgbundle = moved (canceled_bundle m.msgbundle) }

  detached_stub : (i : ℕ) (w : MessageWriter S) → (detached i w).stubs i ≡ canceled_stub (w.stubs i)
  unfolding order_erase
  detached_stub i w = set_stub_self i _ w

  -- When an id of 32 bits names a message that is not marked as canceled, `cancel` succeeds and hands
  -- out its bundle and the pool's message id, whether the message is being sent, waits for its
  -- response or waits to be sent; and a second `cancel` with the same id does nothing.
  pub cancel_once :
      (clear : S → S) (id : MessageId) (w : MessageWriter S)
      → is_current id w ≡ true
      → id.unique < 2 ^ 32
      → (w.stubs id.index).msgbundle.message_flags.canceled ≡ false
      → (w' : MessageWriter S) × (cancel clear id w
          ≡ some (w', canceled_bundle (w.stubs id.index).msgbundle, (w.stubs id.index).pool_msg_id))
        × (cancel clear id w' ≡ none)
  unfolding cancel
  cancel_once clear id w h lt e =
      let stub : (detached id.index w).stubs id.index ≡ canceled_stub (w.stubs id.index) =
        detached_stub id.index w in
      let w' =
        finish_cancel clear id.index (w.stubs id.index).serializer_ptr
          (w.stubs id.index).msgbundle.message_flags.wait_response (detached id.index w) in
      (
        w',
        rw h (do_cancel_lem clear id.index w e),
        Closed-cancel clear id w' (
            finish-Closed clear id _ _ (detached id.index w)
              (ap MessageStub.unique stub ∙ is_current_unique id w h) lt
              (ap (λ t. t.msgbundle.message_flags.canceled) stub)),
      )
