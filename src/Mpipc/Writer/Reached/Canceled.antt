-- ===== src/Mpipc/Writer/Reached/Canceled.antt =====
-- `cancel` of mpipcmessagewriter.cpp: the writer stays fit for sending.
use solidframe.Prelude.{
  ℕ, ◌≡◌, refl, sym, subst, ap, ◌∙◌, Bool, true, false, Bool-cases, inl, inr, Option, none, some,
  arith,
}
use mathlib.Core.Path.{subst₂}
use solidframe.Mpipc.Message.{MessageBundle, MessageId, canceled_bundle}
use solidframe.Mpipc.Protocol.{Protocol}
use solidframe.Mpipc.Writer.{MessageWriter, finish_cancel, do_cancel, is_current, cancel}
use solidframe.Mpipc.Writer.Cancel.{detached, do_cancel_lem}
use solidframe.Mpipc.Writer.Reached.Answered
use solidframe.Mpipc.Writer.Reached.Answered.{answered, answered-Ready, answered-Working}
use solidframe.Mpipc.Writer.Reached.Withdrawn
use solidframe.Mpipc.Writer.Reached.Withdrawn.{withdrawn, withdrawn-Ready, withdrawn-Working}
use solidframe.Mpipc.Writer.Send.Measured.{Working}
use solidframe.Mpipc.Writer.Send.Rounds.{Ready}
use solidframe.Mpipc.Writer.Reached.Stopped.{stopped, stopped-Ready, stopped-Working}

module _ {S : Type 0} where
  -- The messages whose cancellation keeps the lists: one that is being sent; one that is sent and waits for its response;
  -- and one that waits to be sent and wants no response.
  pub data Cancelable (i : ℕ) (w : MessageWriter S) : Type 0 where
    sending : (s : S) → (w.stubs i).serializer_ptr ≡ some s → Cancelable i w
    waiting :
        (w.stubs i).serializer_ptr ≡ none
        → (w.stubs i).msgbundle.message_flags.wait_response ≡ true
        → Answered.Waits i w
        → Cancelable i w
    pending :
        (w.stubs i).serializer_ptr ≡ none
        → (w.stubs i).msgbundle.message_flags.wait_response ≡ false
        → Withdrawn.Waits i w
        → Cancelable i w

  -- The writer after `cancel`, or the one before if nothing is canceled.
  abbrev writer_after :
      MessageWriter S → Option (MessageWriter S × MessageBundle × MessageId) → MessageWriter S
  writer_after w none = w
  writer_after w (some (w', b, id)) = w'

  module _ (clear : S → S) (id : MessageId) (w : MessageWriter S) where
    cancel_other : is_current id w ≡ false → cancel clear id w ≡ none
    unfolding cancel
    cancel_other e = rw e refl

    cancel_current : is_current id w ≡ true → cancel clear id w ≡ do_cancel clear id.index w
    unfolding cancel
    cancel_current e = rw e refl

    cancel_marked :
        (w.stubs id.index).msgbundle.message_flags.canceled ≡ true
        → do_cancel clear id.index w ≡ none
    unfolding do_cancel
    cancel_marked e = rw e refl

    -- What `cancel` does to a message, if it cancels it.
    cancel_ends :
        (w' : MessageWriter S) (b : MessageBundle) (pool_msg_id : MessageId)
        → cancel clear id w ≡ some (w', b, pool_msg_id)
        → ((w.stubs id.index).msgbundle.message_flags.canceled ≡ false)
          × (finish_cancel clear id.index
                (w.stubs id.index).serializer_ptr
                (w.stubs id.index).msgbundle.message_flags.wait_response
                (detached id.index w)
              ≡ w')
    cancel_ends w' b pool_msg_id e =
        let marked = (w.stubs id.index).msgbundle.message_flags.canceled in
        elim (Bool-cases (is_current id w)) [
          | inr t ↦ let clash = sym (cancel_other t) ∙ e in absurd (grind (arith, clash))
          | inl t ↦
              let done = sym (cancel_current t) ∙ e in
              elim (Bool-cases marked) [
                | inl u ↦ let clash = sym (cancel_marked u) ∙ done in absurd (grind (arith, clash))
                | inr u ↦ (u, ap (writer_after w) (sym (do_cancel_lem clear id.index w u) ∙ done))
              ]
        ]

    by_stub :
        (x : Option S) (f : Bool) (w' : MessageWriter S)
        → (w.stubs id.index).serializer_ptr ≡ x
        → (w.stubs id.index).msgbundle.message_flags.wait_response ≡ f
        → finish_cancel clear id.index
            (w.stubs id.index).serializer_ptr
            (w.stubs id.index).msgbundle.message_flags.wait_response
            (detached id.index w)
          ≡ w'
        → finish_cancel clear id.index x f (detached id.index w) ≡ w'
    by_stub x f w' e e' same =
        subst₂ (λ t u. finish_cancel clear id.index t u (detached id.index w) ≡ w') e e' same

    finish_stopped :
        (s : S) (b : Bool)
        → finish_cancel clear id.index (some s) b (detached id.index w) ≡ stopped clear id.index s w
    unfolding finish_cancel
    finish_stopped s b = refl

    finish_answered :
        finish_cancel clear id.index none true (detached id.index w) ≡ answered id.index w
    unfolding finish_cancel
    finish_answered = refl

    finish_withdrawn :
        finish_cancel clear id.index none false (detached id.index w) ≡ withdrawn id.index w
    unfolding finish_cancel
    finish_withdrawn = refl

    pub cancel_withdraws :
        is_current id w ≡ true
        → (w.stubs id.index).msgbundle.message_flags.canceled ≡ false
        → (w.stubs id.index).serializer_ptr ≡ none
        → (w.stubs id.index).msgbundle.message_flags.wait_response ≡ false
        → cancel clear id w
          ≡ some (
            withdrawn id.index w,
            canceled_bundle (w.stubs id.index).msgbundle,
            (w.stubs id.index).pool_msg_id,
          )
    cancel_withdraws t u idle flag =
        cancel_current t
        ∙ do_cancel_lem clear id.index w u
        ∙ ap
            (λ x.
              some
                (x, canceled_bundle (w.stubs id.index).msgbundle, (w.stubs id.index).pool_msg_id))
            (sym (by_stub none false _ idle flag refl) ∙ finish_withdrawn)

    -- A message is canceled: the writer goes on to be fit for sending.
    pub canceled-Ready :
        (proto : Protocol S) (n : ℕ) (w' : MessageWriter S) (b : MessageBundle)
        (pool_msg_id : MessageId)
        → Cancelable id.index w
        → cancel clear id w ≡ some (w', b, pool_msg_id)
        → Ready w n × Working proto n w
        → Ready w' n × Working proto n w'
    canceled-Ready proto n w' b pool_msg_id (sending s busy) e (r, working) =
        let (plain, same) = cancel_ends w' b pool_msg_id e in
        subst (λ x. Ready x n × Working proto n x)
          (sym (finish_stopped s (w.stubs id.index).msgbundle.message_flags.wait_response)
            ∙ by_stub (some s) _ w' busy refl same)
          (
            stopped-Ready clear id.index s w n busy plain r,
            stopped-Working clear id.index s w proto n working,
          )
    canceled-Ready proto n w' b pool_msg_id (waiting idle flag waits) e (r, working) =
        let (plain, same) = cancel_ends w' b pool_msg_id e in
        subst (λ x. Ready x n × Working proto n x)
          (sym finish_answered ∙ by_stub none true w' idle flag same)
          (answered-Ready id.index w n waits r, answered-Working id.index w proto n working)
    canceled-Ready proto n w' b pool_msg_id (pending idle flag waits) e (r, working) =
        let (plain, same) = cancel_ends w' b pool_msg_id e in
        subst (λ x. Ready x n × Working proto n x)
          (sym finish_withdrawn ∙ by_stub none false w' idle flag same)
          (withdrawn-Ready id.index w n waits r, withdrawn-Working id.index w proto n working)
