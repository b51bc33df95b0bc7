-- ===== src/Mpipc/Reader/Read.antt =====
-- `MessageReader` of mpipcmessagereader.hpp, with `prepare` and `read` of mpipcmessagereader.cpp.
pub mod Frames
pub mod KeepAlive
pub mod Chunks
use solidframe.Prelude.{
  ℕ, zero, suc, Bool, true, false, not, Option, none, some, List, [], ◌∷◌, ◌++◌, leb, ◌==◌,
  if◌then◌else◌,
}
use solidframe.Prelude.Lists.{length, drop, take}
use solidframe.Mpipc.Packet.{PacketHeader, size, is_ok, is_type_keep_alive, load}
use solidframe.Mpipc.Protocol.{ReaderProtocol}
use solidframe.Mpipc.Reader.{
  ReaderConfiguration, MessageStub, new_stub, States, header_read_state, data_read_state, Event,
  keepalive_complete, Consume, Consumed, consumed, undefined_consume, consume_out_of_fuel,
  error_reader_invalid_packet_header, do_consume_packet,
}

-- The fields of `MessageReader` but for a number that is not used, with the variables of `read`: the bytes that are
-- not read, the state of the owner and the error.
pub record Reading (D T : Type 0) : Type 0 where
  pub state : States
  pub message_q : List (MessageStub D)
  pub bytes : List ℕ
  pub owner : T
  pub rerror : Option ℕ

pub data HasRead (D T : Type 0) : Type 0 where
  has_read : Reading D T → HasRead D T
  undefined_read : HasRead D T
  read_out_of_fuel : HasRead D T

-- What a round of the loop of `read` does: it goes on, or the loop ends.
pub data Step (D T : Type 0) : Type 0 where
  again : Reading D T → Step D T
  end : HasRead D T → Step D T

-- The constructor and `prepare`: the queue has an empty message.
abbrev pub new_reader : {D T : Type 0} → List ℕ → T → Reading D T
new_reader bs t = record {
  state = header_read_state;
  message_q = new_stub ∷ [];
  bytes = bs;
  owner = t;
  rerror = none;
}

module _ {D T : Type 0} (config : ReaderConfiguration) (proto : ReaderProtocol D T)
    (complete : Event → T → T) where
  -- The data of the packet is consumed, and skipped if there is no error.
  unfoldable pub after_packet : PacketHeader → Consumed D T → Reading D T → Step D T
  after_packet h undefined_consume r = end undefined_read
  after_packet h consume_out_of_fuel r = end read_out_of_fuel
  after_packet h (consumed c) r =
      let r' = record r { message_q = c.message_q; owner = c.owner; rerror = c.rerror } in
      elim c.rerror [
        | none ↦ again (record r' { bytes = drop (size h) r.bytes; state = header_read_state })
        | some e ↦ end (has_read r')
      ]

  -- The header was read, and the data is there.
  unfoldable pub read_packet : PacketHeader → Reading D T → Step D T
  read_packet h r =
      if not (is_ok h)
      then end (has_read (record r { rerror = some error_reader_invalid_packet_header }))
      else if is_type_keep_alive h
      then again (record r { owner = complete keepalive_complete r.owner })
      else after_packet h
          (do_consume_packet config proto complete h (record {
            bytes = take (size h) r.bytes;
            message_q = r.message_q;
            owner = r.owner;
            rerror = r.rerror;
          }))
          r

  -- `state == DataReadStateE`: the header is read. `none` is a header behind the bytes.
  unfoldable pub read_header : Option (PacketHeader × List ℕ) → Reading D T → Step D T
  read_header none r = end undefined_read
  read_header (some (h, rest)) r =
      if leb (size h) (length rest)
      then read_packet h (record r { bytes = rest })
      else end (has_read r)

  unfoldable pub read_data : Reading D T → Step D T
  read_data r = read_header (load proto.codec r.bytes) r

  -- A round of the loop of `read`.
  unfoldable pub read_round : Reading D T → Step D T
  read_round r = if length r.bytes == 0 then end (has_read r) else elim r.state [
    | data_read_state ↦ read_data r
    | header_read_state ↦
        if leb 4 (length r.bytes)
        then read_data (record r { state = data_read_state })
        else end (has_read r)
  ]

  unfoldable pub read_loop : ℕ → Reading D T → HasRead D T
  read_loop zero r = read_out_of_fuel
  read_loop (suc fuel) r = elim (read_round r) [ again r' ↦ read_loop fuel r' | end x ↦ x ]

  -- `read`, with the bytes that it is given; what it returns is how many of them it leaves fewer.
  unfoldable pub read : List ℕ → Reading D T → HasRead D T
  read bs r = read_loop (suc (length bs)) (record r { bytes = bs })
