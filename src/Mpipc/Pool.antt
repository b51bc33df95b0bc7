-- ===== src/Mpipc/Pool.antt =====
-- `ConnectionPoolStub` of solid/frame/mpipc/src/mpipcservice.cpp: the messages of the connections to one recipient. The
-- vector of messages is a function from indices with a size; its two sets of links are `order_links`, which the
-- order list and the cache share, and `async_links`. The addresses to connect to are not modelled.
pub mod Lists
pub mod Asyncs
pub mod Insert
pub mod Remove
pub mod Refine
pub mod HandOver
use solidframe.Prelude.{
  ℕ, ◌+◌, ◌%◌, ◌^◌, Bool, true, false, not, ◌&&◌, ◌||◌, Option, none, some, List, [], ◌∷◌, ◌==◌,
  ltb, leb, if◌then◌else◌,
}
use solidframe.Prelude.Lists.{length}
use solidframe.Utility.InnerList.{
  invalid_index, clear_link, Links, InnerList, empty_list, update, push_back, push_front, erase,
  pop_front, is_empty, front_index,
}
use solidframe.Frame.Common.{UniqueId, no_unique_id}
use solidframe.Mpipc.Message.{MessageBundle, MessageId, no_bundle, no_message_id, is_asynchronous}

-- `ObjectIdT` of solid/frame/common.hpp.
abbrev pub ObjectId : Type 0
ObjectId = UniqueId

-- `ObjectIdT()`.
abbrev pub no_object_id : ObjectId
no_object_id = no_unique_id

pub record PoolMessage : Type 0 where
  pub msgbundle : MessageBundle
  pub msgid : MessageId
  pub objid : ObjectId
  pub unique : ℕ
  pub cancelable : Bool

-- `MessageStub()`.
abbrev pub new_message : PoolMessage
new_message = record {
  msgbundle = no_bundle;
  msgid = no_message_id;
  objid = no_object_id;
  unique = 0;
  cancelable = false;
}

abbrev pub is_cancelable : PoolMessage → Bool
is_cancelable m = m.cancelable

abbrev pub make_cancelable : PoolMessage → PoolMessage
make_cancelable m = record m { cancelable = true }

-- `MessageStub::clear`.
abbrev pub cleared_message : PoolMessage → PoolMessage
cleared_message m = record {
  msgbundle = no_bundle;
  msgid = no_message_id;
  objid = no_object_id;
  unique = (m.unique + 1) % 2 ^ 32;
  cancelable = false;
}

-- The bits of `flags`.
pub record PoolFlags : Type 0 where
  pub closing : Bool
  pub fast_closing : Bool
  pub main_connection_stopping : Bool
  pub clean_one_shot_messages : Bool
  pub clean_all_messages : Bool
  pub restart : Bool
  pub main_connection_active : Bool

abbrev pub no_pool_flags : PoolFlags
no_pool_flags = record {
  closing = false;
  fast_closing = false;
  main_connection_stopping = false;
  clean_one_shot_messages = false;
  clean_all_messages = false;
  restart = false;
  main_connection_active = false;
}

pub record Pool : Type 0 where
  pub unique : ℕ
  pub pending_connection_count : ℕ
  pub active_connection_count : ℕ
  pub stopping_connection_count : ℕ
  pub name : List ℕ
  pub main_connection_id : ObjectId
  pub messages : ℕ → PoolMessage
  pub vec_size : ℕ
  pub order_links : Links
  pub async_links : Links
  pub order_inner_list : InnerList
  pub cache_inner_list : InnerList
  pub async_inner_list : InnerList
  pub conn_waitingq : List ObjectId
  pub flags : PoolFlags
  pub retry_connect_count : ℕ

-- `ConnectionPoolStub()`. What is behind the end of the vector is not read.
abbrev pub new_pool : Pool
new_pool = record {
  unique = 0;
  pending_connection_count = 0;
  active_connection_count = 0;
  stopping_connection_count = 0;
  name = [];
  main_connection_id = no_object_id;
  messages = λ i. new_message;
  vec_size = 0;
  order_links = λ i. clear_link;
  async_links = λ i. clear_link;
  order_inner_list = empty_list;
  cache_inner_list = empty_list;
  async_inner_list = empty_list;
  conn_waitingq = [];
  flags = no_pool_flags;
  retry_connect_count = 0;
}

-- `clear`, which empties everything and counts the pool's `unique` up.
pub clear_pool : Pool → Pool
clear_pool p = record new_pool { unique = (p.unique + 1) % 2 ^ 32 }

unfoldable pub set_message : ℕ → PoolMessage → Pool → Pool
set_message i m p = record p { messages = λ j. if j == i then m else p.messages j }

pub order_push_back : ℕ → Pool → Pool
order_push_back i p =
    let (ls, l) = push_back i p.order_links p.order_inner_list in
    record p { order_links = ls; order_inner_list = l }

pub order_push_front : ℕ → Pool → Pool
order_push_front i p =
    let (ls, l) = push_front i p.order_links p.order_inner_list in
    record p { order_links = ls; order_inner_list = l }

-- `eraseMessage`.
pub erase_message : ℕ → Pool → Pool
erase_message i p =
    let (ls, l) = erase i p.order_links p.order_inner_list in
    record p { order_links = ls; order_inner_list = l }

pub async_push_back : ℕ → Pool → Pool
async_push_back i p =
    let (ls, l) = push_back i p.async_links p.async_inner_list in
    record p { async_links = ls; async_inner_list = l }

pub async_push_front : ℕ → Pool → Pool
async_push_front i p =
    let (ls, l) = push_front i p.async_links p.async_inner_list in
    record p { async_links = ls; async_inner_list = l }

pub async_erase : ℕ → Pool → Pool
async_erase i p =
    let (ls, l) = erase i p.async_links p.async_inner_list in
    record p { async_links = ls; async_inner_list = l }

pub cache_push_back : ℕ → Pool → Pool
cache_push_back i p =
    let (ls, l) = push_back i p.order_links p.cache_inner_list in
    record p { order_links = ls; cache_inner_list = l }

pub cache_pop_front : Pool → Pool × ℕ
cache_pop_front p =
    let (ls, l, i) = pop_front p.order_links p.cache_inner_list in
    (record p { order_links = ls; cache_inner_list = l }, i)

-- `idx = msgvec.size(); msgvec.push_back(MessageStub{});`
unfoldable pub vec_push_back : Pool → Pool × ℕ
vec_push_back p = (
  record (set_message p.vec_size new_message p) {
    vec_size = p.vec_size + 1;
    order_links = update p.order_links p.vec_size clear_link;
    async_links = update p.async_links p.vec_size clear_link;
  },
  p.vec_size,
)

unfoldable pub take_index : Pool → Pool × ℕ
take_index p = if not (p.cache_inner_list.size == 0) then cache_pop_front p else vec_push_back p

-- `insertMessage`: the index of the message, whose bundle is written.
unfoldable pub insert_message : MessageBundle → Pool → Pool × ℕ
insert_message b p =
    let (p1, idx) = take_index p in
    (set_message idx (record (p1.messages idx) { msgbundle = b }) p1, idx)

-- `msgorder_inner_list.pushBack(...)`, and the same for the list of asynchronous messages.
pub link_back : ℕ → Bool → Pool → Pool
link_back idx asynchronous p =
    if asynchronous then async_push_back idx (order_push_back idx p) else order_push_back idx p

pub link_front : ℕ → Bool → Pool → Pool
link_front idx asynchronous p =
    if asynchronous then async_push_front idx (order_push_front idx p) else order_push_front idx p

unfoldable pub push_back_message : MessageBundle → Pool → Pool × MessageId
push_back_message b p =
    let (p1, idx) = insert_message b p in
    (
      link_back idx (is_asynchronous b.message_flags) p1,
      record { index = idx; unique = (p1.messages idx).unique },
    )

pub push_front_message : MessageBundle → Pool → Pool × MessageId
push_front_message b p =
    let (p1, idx) = insert_message b p in
    (
      link_front idx (is_asynchronous b.message_flags) p1,
      record { index = idx; unique = (p1.messages idx).unique },
    )

-- The id names a message of the vector without an object, which the source asserts.
pub reinsert_front_message : MessageId → MessageBundle → Pool → Pool × MessageId
reinsert_front_message id b p = (
  link_front id.index (is_asynchronous b.message_flags)
      (set_message id.index (record (p.messages id.index) { msgbundle = b }) p),
  id,
)

pub clear_and_cache_message : ℕ → Pool → Pool
clear_and_cache_message i p = cache_push_back i (set_message i (cleared_message (p.messages i)) p)

-- `msgcache_inner_list.pushBack(msgorder_inner_list.popFront())`.
pub cache_front_message : Pool → Pool
cache_front_message p =
    let (ls, l, i) = pop_front p.order_links p.order_inner_list in
    cache_push_back i (record p { order_links = ls; order_inner_list = l })

pub pop_front_message : Pool → Pool
pop_front_message p =
    let (ls, l, i) = pop_front p.order_links p.order_inner_list in
    record p { order_links = ls; order_inner_list = l }

pub unlink : ℕ → Bool → Pool → Pool
unlink i asynchronous p =
    if asynchronous then async_erase i (erase_message i p) else erase_message i p

-- The message leaves the lists, its index is given to the cache, and it is cleared.
pub release : ℕ → Bool → Pool → Pool
release i asynchronous p =
    let p1 = cache_push_back i (unlink i asynchronous p) in
    set_message i (cleared_message (p1.messages i)) p1

pub clear_pop_and_cache_message : ℕ → Pool → Pool
clear_pop_and_cache_message i p =
    release i (is_asynchronous (p.messages i).msgbundle.message_flags) p

-- The source asserts both conditions and then tests them: this is the function without assertions.
pub cache_message_id : MessageId → Pool → Pool
cache_message_id id p =
    if ltb id.index p.vec_size && ((p.messages id.index).unique == id.unique)
    then clear_and_cache_message id.index p
    else p

abbrev pub has_no_connection : Pool → Bool
has_no_connection p =
    (p.pending_connection_count == 0)
    && ((p.active_connection_count == 0) && (p.stopping_connection_count == 0))

abbrev pub is_server_side : Pool → Bool
is_server_side p = length p.name == 0

-- There is no message, or the one at the front has no object.
pub has_no_message : Pool → Bool
has_no_message p =
    if is_empty p.order_inner_list
    then true
    else elim ((p.messages (front_index p.order_inner_list)).msgbundle.message_ptr) [
      | none ↦ true
      | some ptr ↦ false
    ]

abbrev pub has_any_message : Pool → Bool
has_any_message p = not (has_no_message p)

abbrev pub is_main_connection : ObjectId → Pool → Bool
is_main_connection id p =
    (p.main_connection_id.index == id.index) && (p.main_connection_id.unique == id.unique)

abbrev pub is_last_connection : Pool → Bool
is_last_connection p = (p.pending_connection_count + p.active_connection_count) == 1

pub is_full : ℕ → Pool → Bool
is_full max_message_queue_size p =
    is_empty p.cache_inner_list && leb max_message_queue_size p.vec_size

abbrev pub should_close : Pool → Bool
should_close p = p.flags.closing && has_no_message p
