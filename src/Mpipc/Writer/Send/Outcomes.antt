-- ===== src/Mpipc/Writer/Send/Outcomes.antt =====
-- doFillPacket of mpipcmessagewriter.cpp: how a round of its loop can end.
use solidframe.Prelude.{ℕ, ◌+◌, ◌-◌, ◌^◌, ◌≤◌, ◌<◌, ◌≡◌, ap, ◌⊎◌, Option, arith}
use solidframe.Prelude.Lists.{length}
use solidframe.Mpipc.Message.{MessageBundle, MessageId}
use solidframe.Mpipc.Protocol.{MessageObject, Protocol}
use solidframe.Mpipc.Writer.{WriterConfiguration}
use solidframe.Mpipc.Writer.Send.{Fill, filled, failed, undefined, Round, go, stop, PacketOptions}
use solidframe.Mpipc.Writer.Send.Measured.{Measured, Working, AllPending}
use solidframe.Mpipc.Writer.Send.Rounds.{Ready}

module _ {S T : Type 0} (proto : Protocol S) (config : WriterConfiguration)
    (complete : MessageBundle → MessageId → T → Option ℕ × T) (objects : ℕ → MessageObject)
    (cap : ℕ) where
  -- What is written is in the buffer; `freesz` is the rest of it, and one more for each switch that is written; and the
  -- packet has the type of a message switch.
  pub record Room (f : Fill S T) : Type 0 where
    pub inside : length f.bytes ≤ cap
    pub free : cap ≤ length f.bytes + f.freesz
    pub small : f.freesz < 2 ^ 32
    pub balance : length f.bytes + f.freesz ≤ cap + (f.packet_message_count - 1)
    pub type_low : 1 ≤ f.options.packet_type
    pub type_high : f.options.packet_type ≤ 5

  -- The switches of the packet and of the `k` messages that are left, and `slack`, do not exceed `minimumFreePacketDataSize`, or the
  -- loop is at its end; and the serializers of the messages are not done.
  abbrev pub Calm : ℕ → Fill S T → ℕ → Type 0
  Calm n f k =
      (g : Measured proto n)
      → ((f.packet_message_count + k + g.slack ≤ proto.minimum_free_packet_data_size)
          ⊎ (f.freesz < proto.minimum_free_packet_data_size))
        × AllPending proto f.writer

  -- In a buffer with room for it something is written, or no message is left to send.
  abbrev pub Spent : Fill S T → Type 0
  Spent f =
      proto.minimum_free_packet_data_size ≤ cap
      → (1 ≤ length f.bytes) ⊎ (f.writer.write_inner_list.size ≡ 0)

  module _ (n : ℕ) where
    -- The ways a round ends: with less to write or fewer messages, with the current synchronous message nearer to
    -- the front, or with the loop.
    pub data Outcome (f : Fill S T) (r : Ready f.writer n) : Round S T → Type 0 where
      advances :
          (f' : Fill S T) (r' : Ready f'.writer n)
          → Room f'
          → f'.freesz + length r'.ws < f.freesz + length r.ws
          → Calm n f' (length r'.ws)
          → Outcome f r (go f')
      rotates :
          (f' : Fill S T) (r' : Ready f'.writer n)
          → Room f'
          → f'.freesz ≡ f.freesz
          → length r'.ws ≡ length r.ws
          → r.d ≡ r'.d + 1
          → Calm n f' (length r'.ws)
          → Outcome f r (go f')
      ends :
          (f' : Fill S T)
          → Ready f'.writer n
          → Room f'
          → Working proto n f'.writer
          → Spent f'
          → Outcome f r (stop (filled f'))
      fails :
          (f' : Fill S T)
          → Ready f'.writer n
          → Room f'
          → ¬ Measured proto n
          → Outcome f r (stop (failed f'))
      breaks : ¬ Measured proto n → Outcome f r (stop undefined)

  pub Room-same :
      (f f' : Fill S T)
      → f'.bytes ≡ f.bytes
      → f'.freesz ≡ f.freesz
      → f'.options ≡ f.options
      → f'.packet_message_count ≡ f.packet_message_count
      → Room f
      → Room f'
  Room-same f f' e e' e'' e''' room = record {
    inside = omega (arith, ap length e, room.inside);
    free = omega (arith, ap length e, e', room.free);
    small = omega (arith, e', room.small);
    balance = omega (arith, ap length e, e', e''', room.balance);
    type_low = omega (arith, ap PacketOptions.packet_type e'', room.type_low);
    type_high = omega (arith, ap PacketOptions.packet_type e'', room.type_high);
  }
