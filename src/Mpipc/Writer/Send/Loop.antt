-- ===== src/Mpipc/Writer/Send/Loop.antt =====
-- The loop of doFillPacket of mpipcmessagewriter.cpp.
use solidframe.Prelude.{
  ℕ, zero, suc, ◌+◌, ◌*◌, ◌%◌, ◌^◌, ◌≤◌, ◌<◌, ◌≡◌, refl, sym, ap, subst, ◌∙◌, true, false,
  Bool-cases, inl, inr, Option, List, [], ◌∷◌, ◌==◌, leb, zero_test, suc_test, arith,
}
use solidframe.Prelude.Lists.{length, length-append}
use solidframe.Utility.InnerList.{invalid_index, front_index}
use solidframe.Utility.InnerList.Chain.{snoc_cases, last, last-append}
use native.Mathlib.Nat.{mul-le-mul_right}
use solidframe.Mpipc.Message.{MessageBundle, MessageId}
use solidframe.Mpipc.Protocol.{Context, MessageObject, Protocol}
use solidframe.Mpipc.Writer.{WriterConfiguration, MessageWriter}
use solidframe.Mpipc.Writer.Send.{
  Fill, Filled, filled, failed, undefined, Round, go, stop, PacketOptions, message_round,
  fill_round, fill_loop, do_fill_packet,
}
use solidframe.Mpipc.Writer.Send.Live.{Sending, Synchronous-le}
use solidframe.Mpipc.Writer.Send.Measured.{Measured, Working}
use solidframe.Mpipc.Writer.Send.Rounds.{Ready}
use solidframe.Mpipc.Writer.Send.Outcomes.{
  Room, Calm, Spent, Outcome, advances, rotates, ends, fails, breaks,
}
use solidframe.Mpipc.Writer.Send.Messages.{message-Outcome}

module _ {S T : Type 0} (proto : Protocol S) (config : WriterConfiguration)
    (complete : MessageBundle → MessageId → T → Option ℕ × T) (objects : ℕ → MessageObject)
    (cap : ℕ) where
  -- A round has an outcome, whichever message is at the front.
  round-Outcome :
      (n : ℕ) (f : Fill S T) (r : Ready f.writer n)
      → Room proto config complete objects cap f
      → Calm proto config complete objects cap n f (length r.ws)
      → Outcome proto config complete objects cap n f r
          (fill_round proto config complete objects cap f)
  unfolding fill_round
  round-Outcome n f r room calm =
      let l = f.writer.write_inner_list in
      let write = r.sending.holds.write in
      elim (snoc_cases r.ws) [
        | inl e ↦
            let none_left : (l.size == 0) ≡ true =
              zero_test l.size (write.size_length ∙ ap length e) in
            rw none_left (ends f r room (λ g. (calm g).1) (λ _. inr (ground arith)))
        | inr (us, i, e) ↦
            let count : length r.ws ≡ length us + 1 = ap length e ∙ length-append us (i ∷ []) in
            let some_left : (l.size == 0) ≡ false =
              suc_test l.size (length us) (write.size_length ∙ count) in
            let front : front_index l ≡ i =
              write.front_last
              ∙ ap (last invalid_index) e
              ∙ last-append invalid_index us (i ∷ []) in
            let s = subst (λ t. Sending f.writer r.os t r.cs r.d) e r.sending in
            elim (Bool-cases (leb proto.minimum_free_packet_data_size f.freesz)) [
              | inl t ↦
                  rw (some_left, t)
                    (subst
                      (λ k.
                        Outcome proto config complete objects cap n f r
                          (message_round proto config complete objects cap k f))
                      (sym front)
                      (message-Outcome proto config complete objects cap n f r i r.os us r.cs count
                        room s refl calm (ground arith)))
              | inr t ↦
                  rw (some_left, t)
                    (ends f r room (λ g. (calm g).1) (λ h. inl (ground (arith, h, room.free))))
            ]
      ]

  -- The loop ends with a writer that is fit for the next packet, and a buffer that is not exceeded; or, if there
  -- are too many messages or a serializer does not do its work, with a failure or with what is undefined.
  pub data Ended (n : ℕ) : Filled S T → Type 0 where
    ended :
        (f : Fill S T)
        → Ready f.writer n
        → Room proto config complete objects cap f
        → Working proto n f.writer
        → Spent proto config complete objects cap f
        → Ended n (filled f)
    gave_up :
        (f : Fill S T)
        → Ready f.writer n
        → Room proto config complete objects cap f
        → ¬ Measured proto n
        → Ended n (failed f)
    broke : ¬ Measured proto n → Ended n undefined

  less_work : (a b k fuel d d' : ℕ) → a < b → d' < k → b * k + d < suc fuel → a * k + d' < fuel
  less_work a b k fuel d d' h h' enough = omega (arith, mul-le-mul_right k h)

  after_round :
      (n fuel : ℕ) (f : Fill S T) (r : Ready f.writer n)
      → (f.freesz + length r.ws) * (n + 1) + r.d < suc fuel
      → ((f' : Fill S T) (r' : Ready f'.writer n)
          → Room proto config complete objects cap f'
          → Calm proto config complete objects cap n f' (length r'.ws)
          → (f'.freesz + length r'.ws) * (n + 1) + r'.d < fuel
          → Ended n (fill_loop proto config complete objects cap fuel f'))
      → (x : Round S T) → Outcome proto config complete objects cap n f r x
      → Ended n
          (elim x [ go f' ↦ fill_loop proto config complete objects cap fuel f' | stop y ↦ y ])
  after_round n fuel f r enough again _ (advances f' r' room less calm) = again f' r' room calm (
      less_work _ _ (n + 1) fuel r.d r'.d less
        (omega (arith, Synchronous-le _ r'.ws r'.d r'.sending.synchronous, r'.bounded)) enough)
  after_round n fuel f r enough again _ (rotates f' r' room same count nearer calm) =
      let sums : f'.freesz + length r'.ws ≡ f.freesz + length r.ws = omega arith in
      again f' r' room calm (omega (arith, nearer, enough, ap (λ (t : ℕ). t * (n + 1)) sums))
  after_round n fuel f r enough again _ (ends f' r' room working spent) =
      ended f' r' room working spent
  after_round n fuel f r enough again _ (fails f' r' room not_measured) =
      gave_up f' r' room not_measured
  after_round n fuel f r enough again _ (breaks not_measured) = broke not_measured

  loop-Ended :
      (n fuel : ℕ) (f : Fill S T) (r : Ready f.writer n)
      → Room proto config complete objects cap f
      → Calm proto config complete objects cap n f (length r.ws)
      → (f.freesz + length r.ws) * (n + 1) + r.d < fuel
      → Ended n (fill_loop proto config complete objects cap fuel f)
  unfolding fill_loop
  loop-Ended n zero f r room calm enough = absurd (omega arith)
  loop-Ended n (suc fuel) f r room calm enough =
      after_round n fuel f r enough (loop-Ended n fuel)
        (fill_round proto config complete objects cap f) (round-Outcome n f r room calm)

  pub fill-Ended :
      (n fuel : ℕ) (w : MessageWriter S) (options : PacketOptions) (ctx : Context) (owner : T)
      (rerror : Option ℕ)
      → Ready w n
      → cap < 2 ^ 32
      → (cap + n) * (n + 1) + n < fuel
      → 1 ≤ options.packet_type
      → options.packet_type ≤ 5
      → Working proto n w
      → Ended n (do_fill_packet proto config complete objects cap fuel w options ctx owner rerror)
  unfolding do_fill_packet
  fill-Ended n fuel w options ctx owner rerror r small enough low high pending =
      let whole : cap % 2 ^ 32 ≡ cap = omega arith in
      let fewer : cap + length r.ws ≤ cap + n = omega (arith, r.bounded) in
      rw whole (
        loop-Ended n fuel _ r
          (record {
            inside = omega arith;
            free = omega arith;
            small = small;
            balance = omega arith;
            type_low = low;
            type_high = high;
          })
          (λ g. (inl (omega (arith, r.bounded, g.few)), pending g))
          (omega (
            arith,
            enough,
            mul-le-mul_right (n + 1) fewer,
            Synchronous-le _ r.ws r.d r.sending.synchronous,
            r.bounded,
          )))

  -- For a writer whose three lists hold lists of indices, in which each message of the write list is canceled
  -- and not in the order list, or not canceled, in the order list and with an object, a stub outside the write
  -- list has no serializer, and the current synchronous message is one of the write list or none; for a buffer
  -- below 2^32 bytes; with options that have the type of a message switch; and with enough fuel for the bytes
  -- and the messages: `doFillPacket` ends. It leaves such a writer, with no more messages to send, no more bytes
  -- than the buffer has, and the type of a message switch in the options; and something is written or no message
  -- is left to send, if the buffer has `minimumFreePacketDataSize` bytes. It does not fail, and does nothing
  -- undefined, if there is a `slack` so that the messages and `slack` are no more than
  -- `minimumFreePacketDataSize`, the serializers of messages that are not canceled are not done, and the
  -- serializers work with it: a serializer that a message was pushed to is not done, one that is not done writes
  -- something into more room than `slack`, and leaves `slack` bytes of its room at most if it is not done after
  -- that.
  pub do_fill_packet-Ended :
      (w : MessageWriter S) (os ws cs : List ℕ) (d fuel : ℕ) (options : PacketOptions)
      (ctx : Context) (owner : T) (rerror : Option ℕ)
      → Sending w os ws cs d
      → cap < 2 ^ 32
      → 1 ≤ options.packet_type
      → options.packet_type ≤ 5
      → (cap + length ws) * (length ws + 1) + length ws < fuel
      → Working proto (length ws) w
      → Ended
          (length ws)
          (do_fill_packet proto config complete objects cap fuel w options ctx owner rerror)
  do_fill_packet-Ended w os ws cs d fuel options ctx owner rerror sending small low high enough
        pending =
      fill-Ended (length ws) fuel w options ctx owner rerror
        (record { os = os; ws = ws; cs = cs; d = d; sending = sending; bounded = omega arith })
        small enough low high pending
