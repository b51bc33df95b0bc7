-- ===== src/Mpipc/Tests/RoundTrip.antt =====
-- A message from the writer to the reader, run on concrete bytes.
use solidframe.Prelude.{ℕ, ◌≡◌, refl, false, none, List, [], ◌∷◌}
use solidframe.Utility.InnerList.{push_back, push_front, erase, pop_front}
use solidframe.Prelude.Lists.{take, drop}
use solidframe.Serialization.BinaryBasic.{store_8, store_16, load_8, load_16}
use solidframe.Mpipc.Packet.{new_header, set_size, size, is_ok, store, load}
use solidframe.Mpipc.Writer.{
  set_stub, order_push_back, order_erase, write_push_back, write_erase, write_pop_front,
  cache_push_front, vec_push_back, take_index, do_unprepare_message_stub,
}
use solidframe.Mpipc.Writer.Send.{
  release_synchronous, rotate, new_serializer, prepare_by, do_prepare_message_for_sending,
  do_try_complete_message_after_serialization, context_of, drop_canceled, announce,
  take_synchronous, must_wait, prepare, ran, settle, serialize_message, send_message, message_round,
  fill_round, fill_loop, do_fill_packet,
}
use solidframe.Mpipc.Writer.Write.{
  Written, written, undefined_write, write_out_of_fuel, close_with, close_compressed, close_packet,
  fill_next, put, after_fill, write_round, write_loop, keep_alive_after, write,
}
use solidframe.Mpipc.Protocol.{ReaderProtocol}
use solidframe.Mpipc.Reader.{
  next_in_queue, cancel_front, open_front, switch_to_new, continued, message_switch,
  completed_event, finish, run_front, run_message, after_switch, load_switch, next_switch,
  consume_round, consume_loop, consume_data, consume_decompressed, do_consume_packet,
}
use solidframe.Mpipc.Reader.Read.{
  HasRead, has_read, undefined_read, read_out_of_fuel, after_packet, read_packet, read_header,
  read_data, read_round, read_loop, read,
}
use solidframe.Mpipc.Tests.Packets.{config, proto, never, count, objects, queued, no_context}
use solidframe.Mpipc.Tests.Reading.{reader_config, reader_proto, ignore, reader}

abbrev bytes_of : Written (List ℕ) ℕ → List ℕ
bytes_of (written r) = r.bytes
bytes_of undefined_write = []
bytes_of write_out_of_fuel = []

-- The header of a packet of four bytes with a new message, the message's type, and its bytes.
queued_bytes :
    bytes_of (write proto config never count objects 64 200 65 false queued no_context 0 none)
    ≡ 1 ∷ 0 ∷ 0 ∷ 4 ∷ 1 ∷ 1 ∷ 2 ∷ 3 ∷ []
unfolding push_back push_front erase pop_front take drop store_8 store_16 new_header set_size size
    is_ok store load set_stub order_push_back order_erase write_push_back write_erase
    write_pop_front cache_push_front vec_push_back take_index do_unprepare_message_stub
    release_synchronous rotate new_serializer prepare_by do_prepare_message_for_sending
    do_try_complete_message_after_serialization context_of drop_canceled announce take_synchronous
    must_wait prepare ran settle serialize_message send_message message_round fill_round fill_loop
    do_fill_packet close_with close_compressed close_packet fill_next put after_fill write_round
    write_loop keep_alive_after write
queued_bytes = refl

-- The deserializer of a message of four bytes.
abbrev four_bytes : ReaderProtocol ℕ (List ℕ)
four_bytes = record reader_proto { create_deserializer = 4 }

abbrev owner_of : HasRead ℕ (List ℕ) → List ℕ
owner_of (has_read r) = r.owner
owner_of undefined_read = []
owner_of read_out_of_fuel = []

-- What the reader's deserializer is given is what the writer's serializer wrote.
queued_arrives :
    owner_of (
      read reader_config four_bytes ignore
        (bytes_of (write proto config never count objects 64 200 65 false queued no_context 0 none))
        (reader []))
    ≡ 1 ∷ 1 ∷ 2 ∷ 3 ∷ []
unfolding push_back push_front erase pop_front take drop store_8 store_16 new_header set_size size
    is_ok store load set_stub order_push_back order_erase write_push_back write_erase
    write_pop_front cache_push_front vec_push_back take_index do_unprepare_message_stub
    release_synchronous rotate new_serializer prepare_by do_prepare_message_for_sending
    do_try_complete_message_after_serialization context_of drop_canceled announce take_synchronous
    must_wait prepare ran settle serialize_message send_message message_round fill_round fill_loop
    do_fill_packet close_with close_compressed close_packet fill_next put after_fill write_round
    write_loop keep_alive_after write load_8 load_16 next_in_queue cancel_front open_front
    switch_to_new continued message_switch completed_event finish run_front run_message after_switch
    load_switch next_switch consume_round consume_loop consume_data consume_decompressed
    do_consume_packet after_packet read_packet read_header read_data read_round read_loop read
queued_arrives = refl
