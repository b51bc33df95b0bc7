-- ===== src/Mpipc/Writer/Reached.antt =====
-- The writers of mpipcmessagewriter.cpp that calls of `enqueue`, `write` and `cancel` lead to.
pub mod Accepted
pub mod Answered
pub mod Withdrawn
pub mod Stopped
pub mod Canceled
use solidframe.Prelude.{
  ℕ, ◌+◌, ◌*◌, ◌≤◌, ◌<◌, ◌≡◌, ◌≢◌, Bool, false, not, Option, none, some, List, ◌∷◌, ◌==◌,
}
use solidframe.Utility.InnerList.{invalid_index}
use solidframe.Utility.InnerList.Chain.{NotIn}
use solidframe.Mpipc.Message.{MessageBundle, MessageId}
use solidframe.Mpipc.Packet.{max_packet_data_size}
use solidframe.Mpipc.Protocol.{Context, MessageObject, Protocol}
use solidframe.Mpipc.Writer.{
  WriterConfiguration, MessageWriter, MessageStub, new_writer, enqueue, cancel, take_index,
  cache_pop_front, vec_push_back, set_stub, order_push_back, write_push_back,
}
use solidframe.Mpipc.Writer.Enqueue.{accepted-Enqueued}
use solidframe.Mpipc.Writer.Send.Live.{Live, AllLive, Synchronous, held}
use solidframe.Mpipc.Writer.Reached.Canceled.{Cancelable}
use solidframe.Mpipc.Writer.Send.Measured.{Measured, Working}
use solidframe.Mpipc.Writer.Send.Rounds.{Ready}
use solidframe.Mpipc.Writer.Write.{
  Compression, Sent, Written, written, undefined_write, write_out_of_fuel, write,
}
use solidframe.Mpipc.Writer.Write.Stream.{Stream}

module _ {S : Type 0} where
  -- The writer after `enqueue`, or the one before if the message was refused.
  abbrev writer_after : MessageWriter S → Option (MessageWriter S × MessageId) → MessageWriter S
  writer_after w none = w
  writer_after w (some (w', id)) = w'

module _ {S T : Type 0} (proto : Protocol S) (config : WriterConfiguration)
    (compress : List ℕ → Compression) (complete : MessageBundle → MessageId → T → Option ℕ × T)
    (objects : ℕ → MessageObject) where
  -- The writers that `enqueue`, `write` and `cancel` lead to from a new one, with the number of messages that
  -- were given to `enqueue`; there is room in the vector, the messages have an object and are not marked as
  -- canceled, and `write` has enough fuel. A message that is canceled is being sent, or waits for its response,
  -- or waits to be sent, wants no response and is not the current synchronous one.
  pub data Reached : MessageWriter S → ℕ → Type 0 where
    created : Reached new_writer 0
    enqueued :
        (w w' : MessageWriter S) (n : ℕ) (b : MessageBundle) (pool_msg_id id : MessageId)
        → Reached w n
        → b.message_flags.canceled ≡ false
        → b.message_ptr ≢ none
        → w.vec_size < invalid_index
        → enqueue config b pool_msg_id w ≡ some (w', id)
        → Reached w' (n + 1)
    canceled :
        (w w' : MessageWriter S) (n : ℕ) (clear : S → S) (id pool_msg_id : MessageId)
        (b : MessageBundle)
        → Reached w n
        → Cancelable id.index w
        → cancel clear id w ≡ some (w', b, pool_msg_id)
        → Reached w' n
    sent :
        (w : MessageWriter S) (n bufsz fill_fuel fuel : ℕ) (keep_alive : Bool) (ctx : Context)
        (owner : T) (rerror : Option ℕ) (r : Sent S T)
        → Reached w n
        → bufsz ≤ max_packet_data_size + 4
        → (bufsz + n) * (n + 1) + n < fill_fuel
        → bufsz < fuel
        → write proto config compress complete objects bufsz fill_fuel fuel keep_alive w ctx owner
            rerror
          ≡ written r
        → Reached r.writer n

  ReadyAfter : ℕ → Written S T → Type 0
  ReadyAfter n (written r) = Ready r.writer n × Working proto n r.writer
  ReadyAfter n undefined_write = Unit
  ReadyAfter n write_out_of_fuel = Unit
