-- ===== src/Mpipc/Tests/PoolCalls.antt =====
-- The theorems on the pool of messages at concrete messages.
use solidframe.Prelude.{ℕ, ◌≡◌, false, ap, ◌∙◌, refl, some, List, [], ◌∷◌, arith}
use solidframe.Mpipc.Message.{MessageBundle, MessageId, no_bundle}
use solidframe.Mpipc.Pool.{
  PoolMessage, Pool, new_pool, no_object_id, push_back_message, clear_pop_and_cache_message,
}
use solidframe.Mpipc.Writer.{WriterConfiguration, MessageWriter, new_writer, refuses}
use solidframe.Mpipc.Writer.Lists.{new_writer-Holds}
use solidframe.Mpipc.Writer.Enqueue.{Enqueued}
use solidframe.Mpipc.Pool.HandOver.{
  pool_id_of, do_try_push_message_to_connection, do_try_push_message_to_connection-Passes,
}
use solidframe.Mpipc.Pool.Lists.{new_pool-Linked}
use solidframe.Mpipc.Pool.Asyncs.{asyncs}
use solidframe.Mpipc.Pool.Insert.{Pooled, Inserted, push_back_message-Inserted}
use solidframe.Mpipc.Pool.Remove.{Removed, clear_pop_and_cache_message-Removed}
use solidframe.Mpipc.Pool.Refine.{created, pushed_back, Calls-Pooled}

abbrev plain : MessageBundle
plain = record no_bundle { message_type_id = 1; message_ptr = some 7 }

new_pool-Pooled : Pooled new_pool [] []
unfolding asyncs
new_pool-Pooled = record { linked = new_pool-Linked }

abbrev one : Pool
one = (push_back_message plain new_pool).0

abbrev one_id : MessageId
one_id = (push_back_message plain new_pool).1

Calls-Pooled_example : (cs : List ℕ) × Pooled one (one_id.index ∷ []) cs
Calls-Pooled_example =
    Calls-Pooled one (one_id.index ∷ []) (pushed_back new_pool [] plain created (omega arith))

abbrev one-Inserted : Inserted plain new_pool [] (one_id.index ∷ []) one one_id
one-Inserted = push_back_message-Inserted plain new_pool [] [] (omega arith) new_pool-Pooled

clear_pop_and_cache_message-Removed_example :
    Removed one_id.index one [] one-Inserted.rest (clear_pop_and_cache_message one_id.index one)
clear_pop_and_cache_message-Removed_example =
    clear_pop_and_cache_message-Removed one_id.index one [] [] one-Inserted.rest one-Inserted.pooled

abbrev config : WriterConfiguration
config = record {
  max_message_count_multiplex = 4;
  max_message_count_response_wait = 8;
  max_message_continuous_packet_count = 2;
}

abbrev passing : PoolMessage
passing = one.messages one_id.index

accepts_plain : refuses config plain (new_writer {S = ℕ}) ≡ false
unfolding refuses
accepts_plain = refl

accepts : refuses config passing.msgbundle (new_writer {S = ℕ}) ≡ false
accepts = ap (λ b. refuses config b (new_writer {S = ℕ})) one-Inserted.bundle ∙ accepts_plain

do_try_push_message_to_connection-Passes_example :
    (p' : Pool) × (w' : MessageWriter ℕ) × (id : MessageId) × (cs' : List ℕ)
    × (do_try_push_message_to_connection config no_object_id one_id.index one new_writer
        ≡ some (p', w'))
    × Pooled p' [] cs'
    × Enqueued passing.msgbundle (pool_id_of one_id.index passing) new_writer [] [] w' id
do_try_push_message_to_connection-Passes_example =
    do_try_push_message_to_connection-Passes config no_object_id one_id.index 7 one [] []
      one-Inserted.rest new_writer [] [] [] one-Inserted.pooled
      (ap (λ b. b.message_ptr) one-Inserted.bundle) accepts (omega arith) new_writer-Holds
