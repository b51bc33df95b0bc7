-- ===== src/Mpipc/Writer/Send.antt =====
-- The sending part of mpipcmessagewriter.cpp: doPrepareMessageForSending, doTryCompleteMessageAfterSerialization and
-- doFillPacket. The buffer is the list of the bytes that are written to it so far, with its capacity; a write behind
-- its end and a use of a null pointer are the outcome `undefined`. The completion function changes a state of type `T` and gives an error or none.
pub mod Measured
pub mod Live
pub mod Turns
pub mod Rounds
pub mod Complete
pub mod Outcomes
pub mod Settle
pub mod Prepare
pub mod Messages
pub mod Loop
use solidframe.Prelude.{
  ℕ, zero, suc, ◌+◌, ◌-◌, ◌%◌, ◌^◌, Bool, true, false, not, ◌&&◌, ◌||◌, Option, none, some, List,
  [], ◌∷◌, ◌++◌, ltb, leb, ◌==◌, if◌then◌else◌,
}
use solidframe.Prelude.Lists.{length}
use solidframe.Utility.InnerList.{invalid_index, front_index}
use solidframe.Mpipc.Message.{
  MessageBundle, MessageId, RequestId, moved, is_synchronous, is_waiting_response, is_canceled,
}
use solidframe.Mpipc.Packet.{
  ValueCodec, switch_to_new_message_type, switch_to_old_message_type, continued_message_type,
  switch_to_old_canceled_message_type, continued_canceled_message_type,
}
use solidframe.Mpipc.Protocol.{Context, MessageObject, Run, Protocol}
use solidframe.Mpipc.Writer.{
  WriterConfiguration, MessageStub, MessageWriter, set_stub, order_erase, write_push_back,
  write_erase, write_pop_front, do_unprepare_message_stub,
}

-- `PacketOptions`.
pub record PacketOptions : Type 0 where
  pub packet_type : ℕ
  pub force_no_compress : Bool

-- The variables of `doFillPacket`, with what it changes: the writer, the state of the completion function, the
-- context and the error.
pub record Fill (S T : Type 0) : Type 0 where
  pub writer : MessageWriter S
  pub bytes : List ℕ
  pub freesz : ℕ
  pub tmp_serializer : Option S
  pub packet_message_count : ℕ
  pub options : PacketOptions
  pub ctx : Context
  pub owner : T
  pub rerror : Option ℕ

-- `failed` is the null pointer that is returned when a serializer fails.
pub data Filled (S T : Type 0) : Type 0 where
  filled : Fill S T → Filled S T
  failed : Fill S T → Filled S T
  undefined : Filled S T
  out_of_fuel : Filled S T

-- What a round of the loop does: it goes on, or the loop ends.
pub data Round (S T : Type 0) : Type 0 where
  go : Fill S T → Round S T
  stop : Filled S T → Round S T

-- The start flag goes, the done flag comes.
abbrev pub done_bundle : MessageBundle → MessageBundle
done_bundle b = record b {
  message_flags = record (b.message_flags) { started_send = false; done_send = true };
}

abbrev pub started_bundle : MessageBundle → MessageBundle
started_bundle b = record b { message_flags = record (b.message_flags) { started_send = true } }

-- `message_flags |= MessageFlags::WaitResponse`.
abbrev pub waiting_bundle : MessageBundle → MessageBundle
waiting_bundle b = record b { message_flags = record (b.message_flags) { wait_response = true } }

module _ {S : Type 0} where
  -- `if(current_synchronous_message_idx == idx) current_synchronous_message_idx = InvalidIndex();`
  unfoldable pub release_synchronous : ℕ → MessageWriter S → MessageWriter S
  release_synchronous idx w = record w {
    current_synchronous_message_idx =
        if w.current_synchronous_message_idx == idx
        then invalid_index
        else w.current_synchronous_message_idx;
  }

  -- `write_inner_list.popFront(); write_inner_list.pushBack(idx);`
  unfoldable pub rotate : ℕ → MessageWriter S → MessageWriter S
  rotate idx w = write_push_back idx (write_pop_front w)

  module _ (proto : Protocol S) where
    -- The serializer that a new message gets.
    unfoldable pub new_serializer : Option S → S
    new_serializer (some s) = s
    new_serializer none = proto.create_serializer

    -- By the serializer that the message has.
    unfoldable pub prepare_by :
        Option S → ℕ → MessageWriter S → Option S → ℕ × MessageWriter S × Option S
    prepare_by none idx w tmp =
        let stub = w.stubs idx in
        let b = started_bundle stub.msgbundle in
        (
          switch_to_new_message_type,
          set_stub idx
              (record stub {
                msgbundle = b;
                serializer_ptr =
                    some (
                      proto.push (proto.reset (new_serializer tmp)) b.message_ptr
                        b.message_type_id);
              })
              w,
          none,
        )
    prepare_by (some s) idx w tmp =
        let stub = w.stubs idx in
        (
          if is_canceled stub.msgbundle.message_flags
              then (if stub.packet_count == 0
                  then switch_to_old_canceled_message_type
                  else continued_canceled_message_type)
              else (if stub.packet_count == 0
                  then switch_to_old_message_type
                  else continued_message_type),
          w,
          tmp,
        )

    -- The switch for the message at `idx`, the writer, and the serializer that is left over.
    unfoldable pub do_prepare_message_for_sending :
        ℕ → MessageWriter S → Option S → ℕ × MessageWriter S × Option S
    do_prepare_message_for_sending idx w tmp = prepare_by (w.stubs idx).serializer_ptr idx w tmp

    module _ {T : Type 0} (config : WriterConfiguration)
        (complete : MessageBundle → MessageId → T → Option ℕ × T) where
      -- `s` is the serializer of the message at `idx`, after it ran.
      unfoldable pub do_try_complete_message_after_serialization : ℕ → S → Fill S T → Fill S T
      do_try_complete_message_after_serialization idx s f =
          let w = f.writer in
          let stub = w.stubs idx in
          let b = done_bundle stub.msgbundle in
          let w1 = release_synchronous idx (write_pop_front w) in
          let w2 = set_stub idx (record stub { msgbundle = moved b; serializer_ptr = none }) w1 in
          let (err, t) = complete b stub.pool_msg_id f.owner in
          let finished = record f {
            writer = do_unprepare_message_stub idx (order_erase idx w2);
            tmp_serializer = some s;
            owner = t;
            rerror = err;
          } in
          let waits = record f {
            writer =
                set_stub idx (record stub { msgbundle = waiting_bundle b; serializer_ptr = none })
                  w1;
            tmp_serializer = some s;
          } in
          let count = stub.packet_count + 1 in
          let w3 = set_stub idx (record stub { packet_count = count }) w in
          let w4 = rotate idx (set_stub idx (record stub { packet_count = 0 }) w) in
          if proto.is_empty s
          then (if not (is_waiting_response b.message_flags) then finished else waits)
          else record f {
            writer = if leb config.max_message_continuous_packet_count count then w4 else w3;
          }

      -- The context for the message object, which is none of the peer's unless its state is 1.
      unfoldable pub context_of : ℕ → ℕ → MessageObject → Context
      context_of idx unique m = record {
        request_id =
            if not (m.stt == 1) then record { index = idx % 2 ^ 32; unique = unique } else m.requid;
        message_state = (m.stt + 1) % 2 ^ 8;
      }

      -- The message at `idx` is dropped, since it is completed already.
      unfoldable pub drop_canceled : ℕ → Fill S T → Fill S T
      drop_canceled idx f = record f {
        writer = release_synchronous idx (do_unprepare_message_stub idx (write_erase idx f.writer));
      }

      -- The first switch of a packet goes to its header, the others before their message.
      unfoldable pub announce : ℕ → Fill S T → Fill S T
      announce msgswitch f =
          if f.packet_message_count == 0
          then record f {
            options = record (f.options) { packet_type = msgswitch };
            packet_message_count = 1;
          }
          else record f {
            bytes = f.bytes ++ proto.codec.store_value_8 msgswitch;
            packet_message_count = f.packet_message_count + 1;
          }

      -- The message is the current synchronous one from now on, if it is synchronous.
      unfoldable pub take_synchronous : ℕ → Fill S T → Fill S T
      take_synchronous idx f = record f {
        writer = record (f.writer) {
          current_synchronous_message_idx =
              if is_synchronous (f.writer.stubs idx).msgbundle.message_flags
              then idx
              else f.writer.current_synchronous_message_idx;
        };
      }

      -- Another synchronous message is being sent.
      unfoldable pub must_wait : ℕ → MessageWriter S → Bool
      must_wait idx w =
          is_synchronous (w.stubs idx).msgbundle.message_flags
          && not (
              w.current_synchronous_message_idx == invalid_index
              || w.current_synchronous_message_idx == idx)

      -- `doPrepareMessageForSending` in the loop.
      unfoldable pub prepare : ℕ → Fill S T → ℕ × Fill S T
      prepare idx f =
          let (msgswitch, w, tmp) = do_prepare_message_for_sending idx f.writer f.tmp_serializer in
          (msgswitch, record f { writer = w; tmp_serializer = tmp })

      -- The serializer ran, and wrote some bytes.
      unfoldable pub ran : ℕ → Run S → Fill S T → Fill S T
      ran idx r f =
          let stub = f.writer.stubs idx in
          record f {
            writer = set_stub idx (record stub { serializer_ptr = some r.serializer }) f.writer;
            bytes = f.bytes ++ r.bytes;
            freesz = (f.freesz + 2 ^ 32 - length r.bytes) % 2 ^ 32;
          }

      module _ (objects : ℕ → MessageObject) (cap : ℕ) where
        -- What follows a run of the serializer of the message at `idx`.
        unfoldable pub settle : ℕ → Run S → Fill S T → Round S T
        settle idx r f =
            let f1 = do_try_complete_message_after_serialization idx r.serializer f in
            if length r.bytes == 0
            then stop (failed (record f { rerror = proto.error r.serializer }))
            else elim f1.rerror [ none ↦ go f1 | some e ↦ stop (filled f1) ]

        -- The message at `idx`, with the object `ptr`, is serialized by `s`.
        unfoldable pub serialize_message : ℕ → S → ℕ → Fill S T → Round S T
        serialize_message idx s ptr f =
            let ctx = context_of idx (f.writer.stubs idx).unique (objects ptr) in
            let r = proto.run s ctx (cap - length f.bytes) in
            settle idx r (ran idx r (record f { ctx = ctx }))

        -- The message at `idx` has its turn, and its switch is written.
        unfoldable pub send_message : ℕ → Fill S T → Round S T
        send_message idx f =
            let stub = f.writer.stubs idx in
            if ltb cap (length f.bytes)
            then stop undefined
            else if is_canceled stub.msgbundle.message_flags
            then go (drop_canceled idx f)
            else elim (stub.serializer_ptr) [
              | none ↦ stop undefined
              | some s ↦ elim (stub.msgbundle.message_ptr) [
                | none ↦ stop undefined
                | some ptr ↦ serialize_message idx s ptr f
              ]
            ]

        -- A round of the loop of `doFillPacket`, for the message at `idx`.
        unfoldable pub message_round : ℕ → Fill S T → Round S T
        message_round idx f =
            let (msgswitch, f1) = prepare idx (take_synchronous idx f) in
            if must_wait idx f.writer
            then go (record f { writer = rotate idx f.writer })
            else send_message idx (announce msgswitch f1)

        -- The loop's condition, and the message at the front.
        unfoldable pub fill_round : Fill S T → Round S T
        fill_round f =
            if not (f.writer.write_inner_list.size == 0)
              && leb proto.minimum_free_packet_data_size f.freesz
            then message_round (front_index f.writer.write_inner_list) f
            else stop (filled f)

        unfoldable pub fill_loop : ℕ → Fill S T → Filled S T
        fill_loop zero f = out_of_fuel
        fill_loop (suc fuel) f = elim (fill_round f) [ go f' ↦ fill_loop fuel f' | stop r ↦ r ]

        -- `doFillPacket` with the room of `cap` bytes from `_pbufbeg` on.
        unfoldable pub do_fill_packet :
            ℕ → MessageWriter S → PacketOptions → Context → T → Option ℕ → Filled S T
        do_fill_packet fuel w options ctx owner rerror = fill_loop fuel (record {
          writer = w;
          bytes = [];
          freesz = cap % 2 ^ 32;
          tmp_serializer = none;
          packet_message_count = 0;
          options = options;
          ctx = ctx;
          owner = owner;
          rerror = rerror;
        })
