-- ===== src/Mpipc/Writer.antt =====
-- `MessageWriter` of solid/frame/mpipc/src/mpipcmessagewriter.hpp and .cpp: its state, and how messages
-- enter it and are canceled. The vector `message_vec` is the function `stubs` with the count `vec_size`;
-- the two links of a stub's `InnerNode` stand in `order_links` and `status_links`. `S` is the
-- state of a serializer, which the protocol implements. Debug output is left out, and so is
-- `current_message_type_id`, which nothing reads.
pub mod Lists
pub mod Enqueue
pub mod Cancel
pub mod Visit
pub mod Send
pub mod Write
pub mod Reached
use solidframe.Prelude.{
  ℕ, ◌+◌, ◌%◌, ◌^◌, Bool, true, false, not, ◌&&◌, ◌||◌, Option, none, some, ltb, leb, ◌==◌,
  if◌then◌else◌,
}
use solidframe.Utility.InnerList.{
  Links, InnerList, invalid_index, clear_link, empty_list, update, push_back, push_front, pop_front,
  erase, front_index,
}
use solidframe.Mpipc.Message.{
  Flags, MessageId, MessageBundle, no_message_id, no_bundle, moved, undisrupted, canceled_bundle,
  is_waiting_response, is_canceled,
}

-- The counts of `WriterConfiguration`.
pub record WriterConfiguration : Type 0 where
  pub max_message_count_multiplex : ℕ
  pub max_message_count_response_wait : ℕ
  pub max_message_continuous_packet_count : ℕ

pub record MessageStub (S : Type 0) : Type 0 where
  pub msgbundle : MessageBundle
  pub unique : ℕ
  pub packet_count : ℕ
  pub serializer_ptr : Option S
  pub pool_msg_id : MessageId

pub record MessageWriter (S : Type 0) : Type 0 where
  pub stubs : ℕ → MessageStub S
  pub vec_size : ℕ
  pub order_links : Links
  pub status_links : Links
  pub current_synchronous_message_idx : ℕ
  pub order_inner_list : InnerList
  pub write_inner_list : InnerList
  pub cache_inner_list : InnerList

module _ {S : Type 0} where
  -- `MessageStub()`.
  abbrev pub new_stub : MessageStub S
  new_stub = record {
    msgbundle = no_bundle;
    unique = 0;
    packet_count = 0;
    serializer_ptr = none;
    pool_msg_id = no_message_id;
  }

  -- `MessageStub::clear`; `unique` has 32 bits.
  abbrev pub cleared_stub : MessageStub S → MessageStub S
  cleared_stub m = record {
    msgbundle = no_bundle;
    unique = (m.unique + 1) % 2 ^ 32;
    packet_count = 0;
    serializer_ptr = none;
    pool_msg_id = no_message_id;
  }

  -- `MessageWriter()`.
  abbrev pub new_writer : MessageWriter S
  new_writer = record {
    stubs = λ _. new_stub;
    vec_size = 0;
    order_links = λ _. clear_link;
    status_links = λ _. clear_link;
    current_synchronous_message_idx = invalid_index;
    order_inner_list = empty_list;
    write_inner_list = empty_list;
    cache_inner_list = empty_list;
  }

  unfoldable pub set_stub : ℕ → MessageStub S → MessageWriter S → MessageWriter S
  set_stub i m w = record w { stubs = λ j. if j == i then m else w.stubs j }

  -- The operations of the three lists, on the links that they share.
  unfoldable pub order_push_back : ℕ → MessageWriter S → MessageWriter S
  order_push_back i w =
      let (ls, l) = push_back i w.order_links w.order_inner_list in
      record w { order_links = ls; order_inner_list = l }

  unfoldable pub order_erase : ℕ → MessageWriter S → MessageWriter S
  order_erase i w =
      let (ls, l) = erase i w.order_links w.order_inner_list in
      record w { order_links = ls; order_inner_list = l }

  unfoldable pub write_push_back : ℕ → MessageWriter S → MessageWriter S
  write_push_back i w =
      let (ls, l) = push_back i w.status_links w.write_inner_list in
      record w { status_links = ls; write_inner_list = l }

  unfoldable pub write_erase : ℕ → MessageWriter S → MessageWriter S
  write_erase i w =
      let (ls, l) = erase i w.status_links w.write_inner_list in
      record w { status_links = ls; write_inner_list = l }

  unfoldable pub write_pop_front : MessageWriter S → MessageWriter S
  write_pop_front w =
      let (ls, l, _) = pop_front w.status_links w.write_inner_list in
      record w { status_links = ls; write_inner_list = l }

  unfoldable pub cache_push_front : ℕ → MessageWriter S → MessageWriter S
  cache_push_front i w =
      let (ls, l) = push_front i w.status_links w.cache_inner_list in
      record w { status_links = ls; cache_inner_list = l }

  -- `idx = cache_inner_list.popFront()`.
  pub cache_pop_front : MessageWriter S → MessageWriter S × ℕ
  cache_pop_front w =
      let (ls, l, i) = pop_front w.status_links w.cache_inner_list in
      (record w { status_links = ls; cache_inner_list = l }, i)

  -- `idx = message_vec.size(); message_vec.push_back(MessageStub());`
  unfoldable pub vec_push_back : MessageWriter S → MessageWriter S × ℕ
  vec_push_back w = (
    record (set_stub w.vec_size new_stub w) {
      vec_size = w.vec_size + 1;
      order_links = update w.order_links w.vec_size clear_link;
      status_links = update w.status_links w.vec_size clear_link;
    },
    w.vec_size,
  )

  unfoldable pub take_index : MessageWriter S → MessageWriter S × ℕ
  take_index w = if not (w.cache_inner_list.size == 0) then cache_pop_front w else vec_push_back w

  pub full : WriterConfiguration → MessageWriter S → Bool
  full config w = leb config.max_message_count_multiplex w.write_inner_list.size

  -- The sum of the two limits is one of `size_t`.
  unfoldable pub refuses : WriterConfiguration → MessageBundle → MessageWriter S → Bool
  refuses config b w =
      leb config.max_message_count_multiplex w.write_inner_list.size
      || (is_waiting_response b.message_flags
          && leb
              ((config.max_message_count_multiplex + config.max_message_count_response_wait)
                % 2 ^ 64)
              w.order_inner_list.size)

  -- `none` is the result `false`, which leaves everything as it was. The caller's message pointer is not
  -- null, which the source asserts.
  pub enqueue :
      WriterConfiguration
      → MessageBundle
      → MessageId
      → MessageWriter S
      → Option (MessageWriter S × MessageId)
  enqueue config b pool_msg_id w =
      let (w1, idx) = take_index w in
      let stub = w1.stubs idx in
      let w2 =
        set_stub idx (record stub { msgbundle = undisrupted b; pool_msg_id = pool_msg_id }) w1 in
      if refuses config b w
      then none
      else some (
        write_push_back idx (order_push_back idx w2),
        record { index = idx; unique = stub.unique },
      )

  unfoldable pub do_unprepare_message_stub : ℕ → MessageWriter S → MessageWriter S
  do_unprepare_message_stub idx w =
      cache_push_front idx (set_stub idx (cleared_stub (w.stubs idx)) w)

  -- The three ends of `doCancel`, by the stub's serializer and flags.
  pub finish_cancel : (S → S) → ℕ → Option S → Bool → MessageWriter S → MessageWriter S
  finish_cancel clear idx (some s) waiting w =
      set_stub idx (record (w.stubs idx) { serializer_ptr = some (clear s) }) w
  finish_cancel clear idx none true w = do_unprepare_message_stub idx w
  finish_cancel clear idx none false w = do_unprepare_message_stub idx (write_erase idx w)

  -- `none` is the result `false`: the message was canceled before. Otherwise the bundle and the pool's
  -- message id are handed out.
  pub do_cancel :
      (S → S) → ℕ → MessageWriter S → Option (MessageWriter S × MessageBundle × MessageId)
  do_cancel clear idx w =
      let stub = w.stubs idx in
      let b = canceled_bundle stub.msgbundle in
      let w1 = order_erase idx (set_stub idx (record stub { msgbundle = moved b }) w) in
      if is_canceled stub.msgbundle.message_flags
      then none
      else some (
        finish_cancel clear idx stub.serializer_ptr (is_waiting_response b.message_flags) w1,
        b,
        stub.pool_msg_id,
      )

  -- Whether the id names the message that its stub holds now.
  unfoldable pub is_current : MessageId → MessageWriter S → Bool
  is_current id w = ltb id.index w.vec_size && (id.unique == (w.stubs id.index).unique)

  pub cancel :
      (S → S) → MessageId → MessageWriter S → Option (MessageWriter S × MessageBundle × MessageId)
  cancel clear id w = if is_current id w then do_cancel clear id.index w else none

  pub cancel_oldest :
      (S → S) → MessageWriter S → Option (MessageWriter S × MessageBundle × MessageId)
  cancel_oldest clear w =
      if not (w.order_inner_list.size == 0)
      then do_cancel clear (front_index w.order_inner_list) w
      else none

  pub fetch_request : MessageId → MessageWriter S → Option ℕ
  fetch_request id w = if is_current id w then (w.stubs id.index).msgbundle.message_ptr else none

  pub empty : MessageWriter S → Bool
  empty w = w.order_inner_list.size == 0
