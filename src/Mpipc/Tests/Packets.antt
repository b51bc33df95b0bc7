-- ===== src/Mpipc/Tests/Packets.antt =====
-- The theorems on packets at concrete messages and bytes.
use solidframe.Prelude.{
  ℕ, zero, suc, ap, Bool-cases, ◌+◌, ◌≡◌, ◌≤◌, inl, inr, true, false, refl, Option, some, none,
  List, [], ◌∷◌, ◌++◌, ◌==◌, arith,
}
use solidframe.Prelude.Lists.{length, length-append, take, drop, length-take_le}
use solidframe.Mpipc.Packet.{serialization_v1}
use solidframe.Mpipc.Message.{MessageBundle, MessageId, no_bundle, no_request_id}
use solidframe.Mpipc.Protocol.{Context, MessageObject, Run, Protocol}
use solidframe.Mpipc.Writer.{
  WriterConfiguration, MessageWriter, new_writer, take_index, set_stub, order_push_back,
  write_push_back, vec_push_back,
}
use solidframe.Mpipc.Writer.Lists.{new_writer-Holds}
use solidframe.Mpipc.Writer.Enqueue.{Enqueued, accepted, accepted-Enqueued}
use solidframe.Utility.InnerList.{InnerList}
use solidframe.Mpipc.Writer.Send.{do_fill_packet}
use solidframe.Mpipc.Writer.Send.Measured.{Measured, AllPending, Pending-none}
use solidframe.Mpipc.Writer.Send.Live.{Sending, free}
use solidframe.Mpipc.Writer.Send.Rounds.{Ready}
use solidframe.Mpipc.Writer.Send.Loop.{Ended, do_fill_packet-Ended}
use solidframe.Mpipc.Writer.Write.{Compression, compressed, unchanged, fresh_options, write}
use solidframe.Mpipc.Writer.Write.Stream.{Stream, write-Stream}

abbrev pub config : WriterConfiguration
config = record {
  max_message_count_multiplex = 4;
  max_message_count_response_wait = 8;
  max_message_continuous_packet_count = 2;
}

abbrev pub no_context : Context
no_context = record { request_id = no_request_id; message_state = 0 }

-- A serializer is the list of the bytes that it has still to write.
abbrev some_bytes : List ℕ → Context → ℕ → Run (List ℕ)
some_bytes s ctx n = record { bytes = take n s; serializer = drop n s }

abbrev pub proto : Protocol (List ℕ)
proto = record {
  codec = serialization_v1;
  minimum_free_packet_data_size = 16;
  create_serializer = [];
  reset = λ s. s;
  push = λ s ptr id. s ++ id ∷ 1 ∷ 2 ∷ 3 ∷ [];
  run = some_bytes;
  error = λ s. none;
  is_empty = λ s. length s == 0;
  run_fits = λ s ctx n. length-take_le n s;
}

abbrev pub objects : ℕ → MessageObject
objects ptr = record { stt = 0; requid = no_request_id }

-- The completions are counted.
abbrev pub count : MessageBundle → MessageId → ℕ → Option ℕ × ℕ
count b id n = (none, n + 1)

abbrev plain : MessageBundle
plain = record no_bundle { message_type_id = 1; message_ptr = some 7 }

abbrev pool_id : MessageId
pool_id = record { index = 5; unique = 1 }

-- A writer with one message, at index 0.
abbrev pub queued : MessageWriter (List ℕ)
queued = (accepted plain pool_id new_writer).0

queued-Enqueued :
    Enqueued plain pool_id
      (new_writer {S = List ℕ})
      []
      []
      queued
      (accepted plain pool_id (new_writer {S = List ℕ})).1
queued-Enqueued = accepted-Enqueued plain pool_id new_writer [] [] [] (omega arith) new_writer-Holds

no_serializer : (j : ℕ) → (queued.stubs j).serializer_ptr ≡ none
unfolding take_index vec_push_back set_stub order_push_back write_push_back
no_serializer j = elim (Bool-cases (j == 0)) [ inl e ↦ rw e refl | inr e ↦ rw e refl ]

pub queued-AllPending : AllPending proto queued
queued-AllPending j = Pending-none proto (queued.stubs j) (no_serializer j)

-- The serializers fill their packets.
pub proto-Measured : Measured proto 1
unfolding take drop
proto-Measured = record {
  slack = 0;
  few = omega arith;
  pushes = λ s ptr id. pushed_more s (id ∷ 1 ∷ 2 ∷ 3 ∷ []) (omega arith);
  works = λ s ctx k. writes_some s k;
  fills = λ s ctx k _ more. omega (arith, fills_all s k more);
}
  where
    pushed_more : (s t : List ℕ) → 1 ≤ length t → (length (s ++ t) == 0) ≡ false
    pushed_more s t h = ground (arith, length-append s t)

    writes_some : (s : List ℕ) (k : ℕ) → (length s == 0) ≡ false → 1 ≤ k → 1 ≤ length (take k s)
    writes_some [] k busy h = absurd (ground arith)
    writes_some (x ∷ s) zero busy h = absurd (omega arith)
    writes_some (x ∷ s) (suc k) busy h = omega arith

    fills_all : (s : List ℕ) (k : ℕ) → (length (drop k s) == 0) ≡ false → length (take k s) ≡ k
    fills_all s zero more = refl
    fills_all [] (suc k) more = absurd (ground arith)
    fills_all (x ∷ s) (suc k) more = ap suc (fills_all s k more)

queued-Sending : Sending queued (0 ∷ []) (0 ∷ []) queued-Enqueued.rest 0
unfolding take_index vec_push_back set_stub order_push_back write_push_back
queued-Sending = record {
  holds = queued-Enqueued.holds;
  live = (inr (refl, inl refl, λ p. absurd (grind (arith, p))), tt);
  idle = λ j n. no_serializer j;
  synchronous = free refl;
}

pub queued-Ready : Ready queued 1
queued-Ready = record {
  os = 0 ∷ [];
  ws = 0 ∷ [];
  cs = queued-Enqueued.rest;
  d = 0;
  sending = queued-Sending;
  bounded = omega arith;
}

do_fill_packet-Ended_example :
    Ended proto config count objects 64 1
      (do_fill_packet proto config count objects 64 200 queued fresh_options no_context 0 none)
do_fill_packet-Ended_example =
    do_fill_packet-Ended proto config count objects 64 queued (0 ∷ []) (0 ∷ []) queued-Enqueued.rest
      0 200 fresh_options no_context 0 none queued-Sending (omega arith) (omega arith) (omega arith)
      (omega arith) (λ _. queued-AllPending)

abbrev pub never : List ℕ → Compression
never bs = unchanged

pub never_shrinks : (c c' : List ℕ) → never c ≡ compressed c' → length c' ≤ length c
never_shrinks c c' e = grind (arith, e)

write-Stream_example :
    Stream proto config never count objects 64 200 1
      (omega arith)
      never_shrinks
      (omega arith)
      true
      (write proto config never count objects 64 200 65 true queued no_context 0 none)
write-Stream_example =
    write-Stream proto config never count objects 64 200 1 (omega arith) never_shrinks (omega arith)
      65 true queued no_context 0 none queued-Ready (λ _. queued-AllPending) (omega arith)

abbrev first_id : MessageId
first_id = record { index = 0; unique = 0 }
