-- ===== src/Mpipc/Reader.antt =====
-- mpipcmessagereader.hpp and mpipcmessagereader.cpp: how the bytes of a connection are taken apart into packets, and the
-- packets into the parts of messages. A queue is the list of its elements from its front; the bytes that are still to be
-- read are a list. A read behind the bytes, a use of a null pointer and of the front of an empty queue are `undefined`.
pub mod Read
pub mod Switches
pub mod Multiplex
pub mod LastSwitch
pub mod Ends
use solidframe.Prelude.{
  ℕ, zero, suc, ◌+◌, ◌-◌, ◌&&◌, Bool, true, false, not, Option, none, some, List, [], ◌∷◌, ◌++◌,
  ltb, leb, ◌==◌, if◌then◌else◌,
}
use solidframe.Prelude.Lists.{length, take, drop}
use solidframe.Serialization.BinaryBasic.{Loaded, loaded, null, overrun}
use solidframe.Utility.InnerList.{invalid_index}
use solidframe.Mpipc.Packet.{
  PacketHeader, switch_to_new_message_type, switch_to_old_message_type, continued_message_type,
  switch_to_old_canceled_message_type, continued_canceled_message_type, size, is_ok,
  is_type_keep_alive, is_compressed, load,
}
use solidframe.Mpipc.Protocol.{Deserialized, ReaderProtocol}

-- Their values in mpipcerror.cpp.
abbrev pub error_reader_invalid_packet_header : ℕ
error_reader_invalid_packet_header = 16

abbrev pub error_reader_invalid_message_switch : ℕ
error_reader_invalid_message_switch = 17

abbrev pub error_reader_too_many_multiplex : ℕ
error_reader_too_many_multiplex = 18

-- What `decompress_fnc` gives: the data, or an error.
pub data Decompression : Type 0 where
  decompressed : List ℕ → Decompression
  decompress_failed : ℕ → Decompression

pub record ReaderConfiguration : Type 0 where
  pub max_message_count_multiplex : ℕ
  pub decompress_fnc : List ℕ → Decompression

pub record MessageStub (D : Type 0) : Type 0 where
  pub message_ptr : Option ℕ
  pub deserializer_ptr : Option D
  pub packet_count : ℕ

pub data States : Type 0 where
  header_read_state : States
  data_read_state : States

pub data Event : Type 0 where
  message_complete : Option ℕ → ℕ → Event
  keepalive_complete : Event

-- The variables of `doConsumePacket`, with what it changes.
pub record Consume (D T : Type 0) : Type 0 where
  pub bytes : List ℕ
  pub message_q : List (MessageStub D)
  pub owner : T
  pub rerror : Option ℕ

pub data Consumed (D T : Type 0) : Type 0 where
  consumed : Consume D T → Consumed D T
  undefined_consume : Consumed D T
  consume_out_of_fuel : Consumed D T

-- What a round of the loop does: it goes on with the next switch, or the loop ends.
pub data Part (D T : Type 0) : Type 0 where
  go : Consume D T → Part D T
  stop : Consumed D T → Part D T

pub data Turn (D T : Type 0) : Type 0 where
  next : ℕ → Consume D T → Turn D T
  last : Consumed D T → Turn D T

-- What a message switch does to the queue.
pub data Switched (D : Type 0) : Type 0 where
  running : List (MessageStub D) → Switched D
  canceled : List (MessageStub D) → Switched D
  refused : ℕ → Switched D
  undefined_switch : Switched D

module _ {D : Type 0} where
  -- `MessageStub()`.
  abbrev pub new_stub : MessageStub D
  new_stub = record { message_ptr = none; deserializer_ptr = none; packet_count = 0 }

  -- What a move leaves behind, with `packet_count = 0`.
  abbrev pub moved_stub : MessageStub D
  moved_stub = new_stub

  -- `MessageStub::clear`.
  abbrev pub cleared : MessageStub D → MessageStub D
  cleared m = record m { deserializer_ptr = none; message_ptr = none }

  -- `if(front().message_ptr){push(move(front())); front().packet_count = 0;} pop();`
  unfoldable pub next_in_queue : MessageStub D → List (MessageStub D) → List (MessageStub D)
  next_in_queue m q = elim (m.message_ptr) [ some ptr ↦ q ++ m ∷ [] | none ↦ q ]

  -- `front().clear()`.
  unfoldable pub cancel_front : List (MessageStub D) → Switched D
  cancel_front [] = undefined_switch
  cancel_front (m ∷ q) = canceled (cleared m ∷ q)

  module _ {T : Type 0} (config : ReaderConfiguration) (proto : ReaderProtocol D T) where
    -- The front gets a deserializer, if it has none, for a new message.
    unfoldable pub open_front : MessageStub D → MessageStub D
    open_front m = record m {
      deserializer_ptr = some (
          proto.push
            (proto.reset
              (elim (m.deserializer_ptr) [ some d ↦ d | none ↦ proto.create_deserializer ]))
            m.message_ptr);
    }

    -- `case SwitchToNewMessageTypeE`.
    unfoldable pub switch_to_new : MessageStub D → List (MessageStub D) → Switched D
    switch_to_new m q = elim (m.message_ptr) [
      | none ↦ running (open_front m ∷ q)
      | some ptr ↦
          if length (m ∷ q) == config.max_message_count_multiplex
          then refused error_reader_too_many_multiplex
          else running (open_front moved_stub ∷ (q ++ record m { packet_count = 0 } ∷ []))
    ]

    -- `case ContinuedMessageTypeE`.
    unfoldable pub continued : MessageStub D → List (MessageStub D) → Switched D
    continued m q = running (record m { packet_count = m.packet_count + 1 } ∷ q)

    -- The `switch` of `doConsumePacket`.
    unfoldable pub message_switch : ℕ → List (MessageStub D) → Switched D
    message_switch t [] =
        if (leb 1 t) && (leb t 5)
        then undefined_switch
        else refused error_reader_invalid_message_switch
    message_switch t (m ∷ q) =
        if t == switch_to_new_message_type
        then switch_to_new m q
        else if t == switch_to_old_message_type
        then running (next_in_queue m q)
        else if t == continued_message_type
        then continued m q
        else if t == switch_to_old_canceled_message_type
        then cancel_front (next_in_queue m q)
        else if t == continued_canceled_message_type
        then cancel_front (m ∷ q)
        else refused error_reader_invalid_message_switch

    -- `MessageCompleteE`: the type is looked up by the pointer.
    unfoldable pub completed_event : Option ℕ → Event
    completed_event (some ptr) = message_complete (some ptr) (proto.type_index ptr)
    completed_event none = message_complete none invalid_index

    module _ (complete : Event → T → T) where
      -- The deserializer `d` of the front ran with the result `r`, which is positive.
      unfoldable pub finish :
          Deserialized D T → MessageStub D → List (MessageStub D) → Consume D T → Consume D T
      finish r m q c =
          if proto.is_empty r.deserializer
          then record c {
            bytes = drop r.taken c.bytes;
            message_q =
                record m {
                  message_ptr = none;
                  deserializer_ptr = some (proto.clear r.deserializer);
                }
                ∷ q;
            owner = complete (completed_event r.message_ptr) r.owner;
          }
          else record c {
            bytes = drop r.taken c.bytes;
            message_q =
                record m { message_ptr = r.message_ptr; deserializer_ptr = some r.deserializer }
                ∷ q;
            owner = r.owner;
          }

      -- `d` is the deserializer of the front.
      unfoldable pub run_front : D → MessageStub D → List (MessageStub D) → Consume D T → Part D T
      run_front d m q c =
          let r = proto.run d c.owner m.message_ptr c.bytes in
          if r.taken == 0
          then stop (
              consumed (record c {
                message_q =
                    record m { message_ptr = r.message_ptr; deserializer_ptr = some r.deserializer }
                    ∷ q;
                owner = r.owner;
                rerror = proto.error r.deserializer;
              }))
          else go (finish r m q c)

      unfoldable pub run_message : List (MessageStub D) → Consume D T → Part D T
      run_message [] c = stop undefined_consume
      run_message (m ∷ q) c = elim (m.deserializer_ptr) [
        | none ↦ stop undefined_consume
        | some d ↦ run_front d m q c
      ]

      -- What follows the switch.
      unfoldable pub after_switch : Switched D → Consume D T → Part D T
      after_switch (running q) c = run_message q c
      after_switch (canceled q) c = go (record c { message_q = q })
      after_switch (refused e) c = stop (consumed (record c { rerror = some e }))
      after_switch undefined_switch c = stop undefined_consume

      -- `if(pbufpos < pbufend)`: the next switch is loaded.
      unfoldable pub load_switch : Loaded → Consume D T → Turn D T
      load_switch (loaded t rest) c = next t (record c { bytes = rest })
      load_switch null c = last undefined_consume
      load_switch overrun c = last undefined_consume

      unfoldable pub next_switch : Part D T → Turn D T
      next_switch (stop x) = last x
      next_switch (go c) =
          if length c.bytes == 0
          then last (consumed c)
          else load_switch (proto.codec.load_value_8 c.bytes) c

      -- A round of the loop of `doConsumePacket`, with the switch `t`.
      unfoldable pub consume_round : ℕ → Consume D T → Turn D T
      consume_round t c =
          if length c.bytes == 0
          then last (consumed c)
          else next_switch (after_switch (message_switch t c.message_q) c)

      unfoldable pub consume_loop : ℕ → ℕ → Consume D T → Consumed D T
      consume_loop zero t c = consume_out_of_fuel
      consume_loop (suc fuel) t c = elim (consume_round t c) [
        | next t' c' ↦ consume_loop fuel t' c'
        | last x ↦ x
      ]

      -- The loop begins with the type of the header.
      unfoldable pub consume_data : PacketHeader → Consume D T → Consumed D T
      consume_data h c = consume_loop (suc (length c.bytes)) h.type_ c

      unfoldable pub consume_decompressed :
          PacketHeader → Decompression → Consume D T → Consumed D T
      consume_decompressed h (decompressed bs) c = elim c.rerror [
        | none ↦ consume_data h (record c { bytes = bs })
        | some e ↦ consumed c
      ]
      consume_decompressed h (decompress_failed e) c = consumed (record c { rerror = some e })

      -- `doConsumePacket`, on the data of the packet.
      unfoldable pub do_consume_packet : PacketHeader → Consume D T → Consumed D T
      do_consume_packet h c =
          if is_compressed h
          then consume_decompressed h (config.decompress_fnc c.bytes) c
          else consume_data h c
