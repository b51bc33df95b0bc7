-- ===== src/Mpipc/Writer/Write/Packets.antt =====
-- The loop of `write` of mpipcmessagewriter.cpp.
use solidframe.Prelude.{
  ℕ, zero, suc, ◌+◌, ◌-◌, ◌*◌, ◌≤◌, ◌<◌, ◌≡◌, ◌≢◌, ◌⊎◌, refl, sym, ap, ◌∙◌, Bool-cases, inl, inr,
  Option, none, List, [], ◌∷◌, ◌++◌, append_assoc, append-nil, ◌==◌, ltb, leb, arith,
}
use solidframe.Prelude.Lists.{length, length-append}
use native.Mathlib.Nat.{mul-le-mul_right}
use solidframe.Mpipc.Message.{MessageBundle, MessageId}
use solidframe.Mpipc.Packet.{max_packet_data_size, store}
use solidframe.Mpipc.Packet.Laws.{length-store}
use solidframe.Mpipc.Protocol.{MessageObject, Protocol}
use solidframe.Mpipc.Wire.{Frame, wire, AllFrames, IsFrame}
use solidframe.Mpipc.Writer.{WriterConfiguration}
use solidframe.Mpipc.Writer.Send.{Fill, Filled}
use solidframe.Mpipc.Writer.Send.Measured.{Measured, Working}
use solidframe.Mpipc.Writer.Send.Rounds.{Ready}
use solidframe.Mpipc.Writer.Send.Loop.{Ended, ended, gave_up, broke, fill-Ended}
use solidframe.Mpipc.Writer.Write.{
  Compression, compressed, Sent, Written, written, undefined_write, Closed, fill_next, write_loop,
  fresh_options, Turn, next, last, put, after_fill, write_round,
}
use solidframe.Mpipc.Writer.Write.Frames.{Packed, packed, given_up, close_packet-Packed}

module _ {S T : Type 0} (proto : Protocol S) (config : WriterConfiguration)
    (compress : List ℕ → Compression) (complete : MessageBundle → MessageId → T → Option ℕ × T)
    (objects : ℕ → MessageObject) (bufsz fill_fuel n : ℕ) (small : bufsz ≤ max_packet_data_size + 4)
    (shrinks : (c c' : List ℕ) → compress c ≡ compressed c' → length c' ≤ length c)
    (enough : (bufsz + n) * (n + 1) + n < fill_fuel) where
  -- There is no room for a packet more, no message is left to send, or there is an error.
  abbrev pub Done : Sent S T → Type 0
  Done r =
      (bufsz < length r.bytes + (4 + proto.minimum_free_packet_data_size))
      ⊎ ((r.writer.write_inner_list.size ≡ 0) ⊎ (r.rerror ≢ none))

  -- When `write` may do what is undefined, or fail its assertion: there can be too many messages, a serializer does
  -- not do its work, or the buffer has room for a packet of 0xffff bytes of data.
  abbrev pub MayBreak : Type 0
  MayBreak = (¬ Measured proto n) ⊎ (0xffff + 4 ≤ bufsz)

  -- The loop adds packets to the bytes that are there, and leaves a writer that is fit for the next; or the code does
  -- what is undefined, or fails its assertion.
  pub data Sends (before : List ℕ) : Written S T → Type 0 where
    sends :
        (r : Sent S T) (fs : List Frame)
        → r.bytes ≡ before ++ wire proto.codec fs
        → AllFrames fs
        → length r.bytes ≤ bufsz
        → Ready r.writer n
        → Working proto n r.writer
        → Done r
        → Sends before (written r)
    breaks_off : MayBreak → Sends before undefined_write

  filled_next :
      (r : Sent S T)
      → Ready r.writer n
      → Working proto n r.writer
      → Ended proto config complete objects
          (bufsz - length r.bytes - 4)
          n
          (fill_next proto config compress complete objects bufsz fill_fuel r)
  unfolding fill_next
  filled_next r ready working =
      fill-Ended proto config complete objects (bufsz - length r.bytes - 4) n fill_fuel r.writer
        fresh_options r.ctx r.owner r.rerror ready (omega arith)
        (omega (arith, enough, mul-le-mul_right (n + 1) (room_le (length r.bytes)))) (omega arith)
        (omega arith) working
    where
      room_le : (k : ℕ) → bufsz - k - 4 + n ≤ bufsz + n
      room_le k = omega arith

  -- A round ends the loop, or adds a packet.
  data Went (r : Sent S T) : Turn S T → Type 0 where
    added :
        (r' : Sent S T) (f : Frame)
        → IsFrame f
        → r'.bytes ≡ r.bytes ++ (store proto.codec f.header ++ f.content)
        → length r.bytes < length r'.bytes
        → length r'.bytes ≤ bufsz
        → Ready r'.writer n
        → Working proto n r'.writer
        → Went r (next r')
    closed :
        (r' : Sent S T)
        → r'.bytes ≡ r.bytes
        → Ready r'.writer n
        → Working proto n r'.writer
        → Done r'
        → Went r (last (written r'))
    undone : MayBreak → Went r (last undefined_write)

  put-Went :
      (r : Sent S T) (f : Fill S T) (c : Closed) (k : ℕ)
      → Packed proto.codec k c
      → length r.bytes + 4 + k ≤ bufsz
      → Ready f.writer n
      → Working proto n f.writer
      → Went r (put proto config compress complete objects bufsz fill_fuel r f c)
  unfolding put
  put-Went r f _ k (packed g one less) fits ready working =
      let sum = length-append r.bytes (store proto.codec g.header ++ g.content) in
      let sum' = length-append (store proto.codec g.header) g.content in
      let four = length-store proto.codec g.header in
      elim (Bool-cases (ltb (length g.content) 0xffff)) [
        | inl e ↦ rw e (
            added _ g one refl (omega (arith, sum, sum', four))
              (omega (arith, sum, sum', four, less)) ready working)
        | inr e ↦ rw e (undone (inr (ground (arith, less))))
      ]
  put-Went r f _ k (given_up e) fits ready working =
      closed _ refl ready working (inr (inr (λ p. absurd (grind (arith, p)))))

  after_fill-Went :
      (r : Sent S T) (x : Filled S T)
      → length r.bytes + (4 + proto.minimum_free_packet_data_size) ≤ bufsz
      → Ended proto config complete objects (bufsz - length r.bytes - 4) n x
      → Went r (after_fill proto config compress complete objects bufsz fill_fuel r x)
  unfolding after_fill
  after_fill-Went r _ fits (ended f ready room working spent) =
      elim (Bool-cases (length f.bytes == 0)) [
        | inl e ↦ rw e (
            closed _ refl ready working (elim (spent (omega arith)) [
              | inl some_bytes ↦ absurd (ground arith)
              | inr none_left ↦ inr (inl none_left)
            ]))
        | inr e ↦ rw e (
            put-Went r f _ (length f.bytes)
              (close_packet-Packed proto.codec f.options room.type_low room.type_high compress
                f.bytes shrinks (ground arith) (omega (arith, room.inside)))
              (omega (arith, room.inside)) ready working)
      ]
  after_fill-Went r _ fits (gave_up f ready room not_measured) = undone (inl not_measured)
  after_fill-Went r _ fits (broke not_measured) = undone (inl not_measured)

  write_round-Went :
      (r : Sent S T)
      → Ready r.writer n
      → Working proto n r.writer
      → Went r (write_round proto config compress complete objects bufsz fill_fuel r)
  unfolding write_round
  write_round-Went r ready working =
      elim (Bool-cases (leb (4 + proto.minimum_free_packet_data_size) (bufsz - length r.bytes))) [
        | inl e ↦ rw e (after_fill-Went r _ (ground arith) (filled_next r ready working))
        | inr e ↦ rw e (closed r refl ready working (inl (ground arith)))
      ]

  -- A packet more.
  joined :
      (before a : List ℕ) (x : Written S T) (f : Frame)
      → IsFrame f
      → a ≡ before ++ (store proto.codec f.header ++ f.content)
      → Sends a x
      → Sends before x
  unfolding wire AllFrames
  joined before a _ f one e (sends r fs same all fits ready working done) =
      sends r (f ∷ fs)
        (same
          ∙ ap (λ t. t ++ wire proto.codec fs) e
          ∙ append_assoc before (store proto.codec f.header ++ f.content) (wire proto.codec fs)
          ∙ ap (λ t. before ++ t)
              (append_assoc (store proto.codec f.header) f.content (wire proto.codec fs)))
        (one, all) fits ready working done
  joined before a _ f one e (breaks_off why) = breaks_off why

  loop_from :
      (fuel : ℕ) (r : Sent S T) (x : Turn S T)
      → bufsz - length r.bytes < suc fuel
      → ((r' : Sent S T)
          → Ready r'.writer n
          → Working proto n r'.writer
          → length r'.bytes ≤ bufsz
          → bufsz - length r'.bytes < fuel
          → Sends r'.bytes
              (write_loop proto config compress complete objects bufsz fill_fuel fuel r'))
      → Went r x
      → length r.bytes ≤ bufsz
      → Sends r.bytes (elim x [
        | next r' ↦ write_loop proto config compress complete objects bufsz fill_fuel fuel r'
        | last y ↦ y
      ])
  unfolding wire AllFrames
  loop_from fuel r _ left again (added r' f one e grew fits' ready' working') fits =
      joined r.bytes r'.bytes _ f one e (again r' ready' working' fits' (omega arith))
  loop_from fuel r _ left again (closed r' e ready' working' done) fits =
      sends r' [] (e ∙ sym (append-nil r.bytes)) tt (omega (arith, ap length e)) ready' working'
        done
  loop_from fuel r _ left again (undone why) fits = breaks_off why

  pub write_loop-Sends :
      (fuel : ℕ) (r : Sent S T)
      → Ready r.writer n
      → Working proto n r.writer
      → length r.bytes ≤ bufsz
      → bufsz - length r.bytes < fuel
      → Sends r.bytes (write_loop proto config compress complete objects bufsz fill_fuel fuel r)
  unfolding write_loop
  write_loop-Sends zero r ready working fits left = absurd (omega arith)
  write_loop-Sends (suc fuel) r ready working fits left =
      loop_from fuel r _ left (write_loop-Sends fuel) (write_round-Went r ready working) fits
