-- ===== src/Mpipc/Tests.antt =====
-- The writer's theorems at concrete messages.
mod Packets
mod Reading
mod PoolCalls
mod RoundTrip
use solidframe.Prelude.{ℕ, ◌≡◌, true, false, refl, ap, some, none, List, [], ◌∷◌, ◌++◌, arith}
use solidframe.Mpipc.Packet.{
  serialization_v1, PacketHeader, new_header, set_size, set_flags, set_type, is_ok, size, load,
  store,
}
use solidframe.Mpipc.Packet.Laws.{set_size-RoundTrips}
use solidframe.Mpipc.Message.{
  MessageId, MessageBundle, no_flags, no_bundle, undisrupted, canceled_bundle,
}
use solidframe.Mpipc.Writer.{
  WriterConfiguration, MessageWriter, new_writer, enqueue, do_cancel, cancel, is_current, refuses,
  set_stub, order_push_back, write_push_back, vec_push_back, take_index,
}
use solidframe.Mpipc.Writer.Lists.{Holds, new_writer-Holds}
use solidframe.Mpipc.Writer.Enqueue.{Enqueued, accepted, accepted-Enqueued, enqueue-Enqueued}
use solidframe.Mpipc.Writer.Cancel.{pending, do_cancel-Holds}
use solidframe.Mpipc.Writer.Cancel.Pending.{do_cancel_request_breaks}
use solidframe.Mpipc.Writer.Visit.{
  for_every_messages_newer_to_older, visited, is_null, look, seen, for_every_message_older_to_newer,
}
use solidframe.Mpipc.Writer.Cancel.Stale.{cancel_once}

abbrev config : WriterConfiguration
config = record {
  max_message_count_multiplex = 4;
  max_message_count_response_wait = 8;
  max_message_continuous_packet_count = 2;
}

abbrev plain : MessageBundle
plain = record no_bundle { message_type_id = 1; message_ptr = some 7 }

abbrev request : MessageBundle
request = record plain { message_flags = record no_flags { wait_response = true } }

abbrev pool_id : MessageId
pool_id = record { index = 5; unique = 1 }

abbrev start : MessageWriter ℕ
start = new_writer

abbrev forget : ℕ → ℕ
forget s = 0

accepts_plain : refuses config plain start ≡ false
unfolding refuses
accepts_plain = refl

enqueue-Enqueued_example :
    (w' : MessageWriter ℕ) × (id : MessageId) × (enqueue config plain pool_id start ≡ some (w', id))
    × Enqueued plain pool_id start [] [] w' id
enqueue-Enqueued_example =
    enqueue-Enqueued config plain pool_id start [] [] [] accepts_plain (omega arith)
      new_writer-Holds

-- The writer with one message, at index 0.
abbrev queued : MessageBundle → MessageWriter ℕ
queued b = (accepted b pool_id start).0

queued-Holds : (b : MessageBundle) → (cs : List ℕ) × Holds (queued b) (0 ∷ []) (0 ∷ []) cs
unfolding take_index vec_push_back
queued-Holds b =
    let r = accepted-Enqueued b pool_id start [] [] [] (omega arith) new_writer-Holds in
    (r.rest, r.holds)

queued_stub :
    (b : MessageBundle)
    → (((queued b).stubs 0).serializer_ptr ≡ none)
      × (((queued b).stubs 0).msgbundle ≡ undisrupted b)
unfolding take_index vec_push_back set_stub order_push_back write_push_back
queued_stub b = (refl, refl)

do_cancel-Holds_example :
    (w' : MessageWriter ℕ) × (cs' : List ℕ) × (do_cancel forget 0 (queued plain)
      ≡ some (
        w',
        canceled_bundle ((queued plain).stubs 0).msgbundle,
        ((queued plain).stubs 0).pool_msg_id,
      ))
    × Holds w' [] [] cs'
do_cancel-Holds_example =
    do_cancel-Holds forget 0 (queued plain) [] [] (0 ∷ []) (queued-Holds plain).0
      (ap (λ b. b.message_flags.canceled) (queued_stub plain).1)
      (pending [] [] refl (queued_stub plain).0
        (ap (λ b. b.message_flags.wait_response) (queued_stub plain).1))
      (queued-Holds plain).1

do_cancel_request_breaks_example :
    (w' : MessageWriter ℕ) × (do_cancel forget 0 (queued request)
      ≡ some (
        w',
        canceled_bundle ((queued request).stubs 0).msgbundle,
        ((queued request).stubs 0).pool_msg_id,
      ))
    × (¬ Holds w' [] [] (0 ∷ []))
do_cancel_request_breaks_example =
    do_cancel_request_breaks forget 0 (queued request) [] [] [] [] (queued-Holds request).0 [] []
      (0 ∷ []) (ap (λ b. b.message_flags.canceled) (queued_stub request).1)
      (ap (λ b. b.message_flags.wait_response) (queued_stub request).1) (queued_stub request).0
      (queued-Holds request).1

abbrev first_id : MessageId
first_id = record { index = 0; unique = 0 }

first_id_current : is_current first_id (queued plain) ≡ true
unfolding is_current take_index vec_push_back set_stub order_push_back write_push_back
first_id_current = refl

cancel_once_example :
    (w' : MessageWriter ℕ) × (cancel forget first_id (queued plain)
      ≡ some (
        w',
        canceled_bundle ((queued plain).stubs 0).msgbundle,
        ((queued plain).stubs 0).pool_msg_id,
      ))
    × (cancel forget first_id w' ≡ none)
cancel_once_example =
    cancel_once forget first_id (queued plain) first_id_current (omega arith)
      (ap (λ b. b.message_flags.canceled) (queued_stub plain).1)

abbrev header : PacketHeader
header = set_size 0x10000 (set_flags 2 (set_type 2 (record { type_ = 0; flags_ = 0; size_ = 0 })))

set_size-RoundTrips_example :
    (load serialization_v1 (store serialization_v1 header ++ 9 ∷ []) ≡ some (header, 9 ∷ []))
    × (is_ok header ≡ true)
    × (size header ≡ 0x10000)
    × (size (new_header 2 2 0x10000 (record { type_ = 0; flags_ = 0; size_ = 0 })) ≡ 0)
set_size-RoundTrips_example =
    set_size-RoundTrips serialization_v1 2 2 0x10000 (record { type_ = 0; flags_ = 0; size_ = 0 })
      (9 ∷ []) (omega arith) (omega arith) (omega arith) refl (omega arith)

-- A visitor that notes the types of the messages.
abbrev note_type : MessageBundle → MessageId → List ℕ → List ℕ
note_type b id ts = b.message_type_id ∷ ts

for_every_message_older_to_newer_example :
    (w' : MessageWriter ℕ) × (for_every_messages_newer_to_older
        (look note_type (queued plain))
        2
        (queued plain)
        []
      ≡ visited w' (seen note_type (queued plain) (0 ∷ []) []))
    × ((j : ℕ) → w'.stubs j ≡ (queued plain).stubs j)
for_every_message_older_to_newer_example =
    for_every_message_older_to_newer note_type (queued plain) 2 (0 ∷ []) (0 ∷ [])
      (queued-Holds plain).0 [] (omega arith)
      (ap (λ b. is_null b.message_ptr) (queued_stub plain).1, tt) (queued-Holds plain).1
