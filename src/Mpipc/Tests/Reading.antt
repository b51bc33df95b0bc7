-- ===== src/Mpipc/Tests/Reading.antt =====
-- The theorems on the reader at concrete bytes.
use solidframe.Prelude.{
  ℕ, ◌≤◌, ◌≡◌, true, false, refl, Option, some, none, List, [], ◌∷◌, ◌++◌, arith,
}
use solidframe.Prelude.Lists.{length, take, length-take_part}
use solidframe.Mpipc.Packet.{PacketHeader, serialization_v1, set_size, set_flags, set_type, store}
use solidframe.Serialization.BinaryBasic.{store_8, store_16, loaded, load_8}
use solidframe.Mpipc.Protocol.{Deserialized, ReaderProtocol}
use solidframe.Mpipc.Wire.{Frame, wire, IsFrame, AllFrames, made-IsFrame}
use solidframe.Mpipc.Writer.Write.{write}
use solidframe.Mpipc.Transfer.{Arrives, write-Arrives}
use solidframe.Mpipc.Reader.{
  ReaderConfiguration, decompressed, new_stub, Event, Consume, header_read_state, data_read_state,
  do_consume_packet, consumed, finish, message_switch, switch_to_new, open_front,
}
use solidframe.Mpipc.Reader.Read.{Reading, new_reader, has_read, undefined_read, read}
use solidframe.Mpipc.Reader.Read.Frames.{short, begun, at_header, deliver, reading}
use solidframe.Mpipc.Reader.Read.Chunks.{Answers, read-deliver, read-resume, resume}
use solidframe.Mpipc.Reader.Read.KeepAlive.{keep_alive_bytes, keep_alive_overruns}
use solidframe.Mpipc.Reader.Multiplex.{Ends, do_consume_packet-Multiplexed}
use solidframe.Mpipc.Reader.LastSwitch.{do_consume_packet-last_switch}
use solidframe.Mpipc.Tests.Packets.{
  config, proto, never, never_shrinks, count, objects, queued, queued-Ready, queued-AllPending,
  proto-Measured, no_context,
}

-- A deserializer is the number of bytes that its message has; it takes as many at once.
abbrev take_bytes : ℕ → List ℕ → Option ℕ → List ℕ → Deserialized ℕ (List ℕ)
take_bytes d t ptr bs = record {
  taken = length (take d bs);
  deserializer = d;
  message_ptr = some 9;
  owner = take d bs ++ t;
}

abbrev pub reader_proto : ReaderProtocol ℕ (List ℕ)
reader_proto = record {
  codec = serialization_v1;
  create_deserializer = 3;
  reset = λ d. d;
  push = λ d ptr. d;
  run = take_bytes;
  error = λ d. none;
  is_empty = λ d. true;
  clear = λ d. d;
  type_index = λ ptr. 1;
  run_within = λ d t ptr bs. length-take_part d bs;
}

abbrev pub reader_config : ReaderConfiguration
reader_config = record { max_message_count_multiplex = 2; decompress_fnc = λ bs. decompressed bs }

abbrev pub ignore : Event → List ℕ → List ℕ
ignore e t = t

write-Arrives_example :
    Arrives proto config never count objects reader_config reader_proto ignore 64 200 1
      (omega arith)
      never_shrinks
      (omega arith)
      (write proto config never count objects 64 200 65 false queued no_context 0 none)
write-Arrives_example =
    write-Arrives proto config never count objects reader_config reader_proto ignore 64 200 1
      (omega arith) never_shrinks (omega arith) 65 queued no_context 0 none (omega arith)
      (omega arith) refl proto-Measured queued-Ready queued-AllPending

abbrev blank : PacketHeader
blank = record { type_ = 0; flags_ = 0; size_ = 0 }

abbrev frame : Frame
frame = record { header = set_size 3 (set_flags 0 (set_type 1 blank)); content = 5 ∷ 6 ∷ 7 ∷ [] }

frame-IsFrame : IsFrame frame
frame-IsFrame =
    made-IsFrame serialization_v1 1 0 blank (5 ∷ 6 ∷ 7 ∷ []) (omega arith) (omega arith)
      (omega arith) refl (omega arith) (omega arith)

one-AllFrames : AllFrames (frame ∷ [])
unfolding AllFrames
one-AllFrames = (frame-IsFrame, tt)

abbrev pub reader : List ℕ → Reading ℕ (List ℕ)
reader bs = new_reader bs []

read-deliver_example :
    (read reader_config reader_proto ignore
        (wire serialization_v1 (frame ∷ []) ++ 1 ∷ [])
        (reader [])
      ≡ deliver reader_config reader_proto ignore
          (1 ∷ [])
          header_read_state
          (frame ∷ [])
          (new_stub ∷ [])
          [])
    × Answers reader_config reader_proto ignore (
        deliver reader_config reader_proto ignore
          (1 ∷ [])
          header_read_state
          (frame ∷ [])
          (new_stub ∷ [])
          [])
read-deliver_example =
    read-deliver reader_config reader_proto ignore (1 ∷ []) header_read_state header_read_state
      (frame ∷ []) (new_stub ∷ []) [] [] (short (1 ∷ []) (omega arith)) one-AllFrames at_header

-- The second packet is cut behind the first byte of its data.
abbrev cut_bytes : List ℕ
cut_bytes = store serialization_v1 frame.header ++ 5 ∷ []

second : cut_bytes ++ (6 ∷ 7 ∷ []) ≡ wire serialization_v1 (frame ∷ []) ++ []
unfolding wire store store_8 store_16
second = refl

read-resume_example :
    read reader_config reader_proto ignore
      ((wire serialization_v1 (frame ∷ []) ++ cut_bytes) ++ 6 ∷ 7 ∷ [])
      (reader [])
    ≡ resume reader_config reader_proto ignore (6 ∷ 7 ∷ []) (
        read reader_config reader_proto ignore
          (wire serialization_v1 (frame ∷ []) ++ cut_bytes)
          (reader []))
read-resume_example =
    read-resume reader_config reader_proto ignore cut_bytes (6 ∷ 7 ∷ []) [] header_read_state
      data_read_state header_read_state (frame ∷ []) (frame ∷ []) (new_stub ∷ []) [] []
      (begun frame (5 ∷ []) (6 ∷ 7 ∷ []) frame-IsFrame refl (omega arith)) (short [] (omega arith))
      one-AllFrames one-AllFrames second at_header

keep_alive_overruns_example :
    (read reader_config reader_proto ignore
        (keep_alive_bytes reader_config reader_proto ignore blank)
        (reader [])
      ≡ has_read (record (reader []) { state = data_read_state }))
    × (read reader_config reader_proto ignore
          (1 ∷ [])
          (record (reader []) { state = data_read_state })
        ≡ undefined_read)
unfolding reading
keep_alive_overruns_example =
    keep_alive_overruns reader_config reader_proto ignore blank (new_stub ∷ []) [] [] (1 ∷ []) refl
      (omega arith) (omega arith)

loads :
    (bs : List ℕ)
    → 1 ≤ length bs
    → (t : ℕ) × (rest : List ℕ) × (reader_proto.codec.load_value_8 bs ≡ loaded t rest)
unfolding load_8
loads [] h = absurd (omega arith)
loads (b ∷ bs) h = (b, bs, refl)

do_consume_packet-Multiplexed_example :
    let c : Consume ℕ (List ℕ) = record {
      bytes = 5 ∷ 6 ∷ 7 ∷ [];
      message_q = new_stub ∷ [];
      owner = [];
      rerror = none;
    } in
    Ends reader_config reader_proto ignore
      (omega arith)
      loads
      frame.header
      c
      (do_consume_packet reader_config reader_proto ignore frame.header c)
do_consume_packet-Multiplexed_example =
    do_consume_packet-Multiplexed reader_config reader_proto ignore (omega arith) loads frame.header
      (record { bytes = 5 ∷ 6 ∷ 7 ∷ []; message_q = new_stub ∷ []; owner = []; rerror = none })
      (record { has_front = omega arith; bounded = omega arith })

abbrev last_is_switch : Consume ℕ (List ℕ)
last_is_switch = record {
  bytes = 5 ∷ 6 ∷ 7 ∷ 4 ∷ [];
  message_q = new_stub ∷ [];
  owner = [];
  rerror = none;
}

do_consume_packet-last_switch_example :
    do_consume_packet reader_config reader_proto ignore
      (record { type_ = 1; flags_ = 0; size_ = 4 })
      last_is_switch
    ≡ consumed
        (record (finish reader_config reader_proto ignore
          (take_bytes 3 [] none last_is_switch.bytes)
          (open_front reader_config reader_proto new_stub)
          []
          last_is_switch) { bytes = [] })
unfolding take message_switch switch_to_new open_front store_8
do_consume_packet-last_switch_example =
    do_consume_packet-last_switch reader_config reader_proto ignore
      (record { type_ = 1; flags_ = 0; size_ = 4 }) last_is_switch (5 ∷ 6 ∷ 7 ∷ []) 4
      (open_front reader_config reader_proto new_stub) [] 3 refl refl (omega arith) refl refl
      (omega arith) refl
