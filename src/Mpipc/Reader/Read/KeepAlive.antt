-- ===== src/Mpipc/Reader/Read/KeepAlive.antt =====
-- `read` of mpipcmessagereader.cpp on the packet that keeps a connection alive.
use solidframe.Prelude.{
  ℕ, ◌≤◌, ◌≡◌, refl, sym, ap, ◌∙◌, true, false, none, some, List, [], append-nil, ◌==◌, arith,
}
use solidframe.Prelude.Lists.{length}
use solidframe.Mpipc.Packet.{
  serialization_v1, PacketHeader, keep_alive_type, new_header, store, load,
}
use solidframe.Mpipc.Packet.Laws.{length-store, load_short, set_size-type_, set_size-RoundTrips}
use solidframe.Mpipc.Protocol.{ReaderProtocol}
use solidframe.Mpipc.Reader.{
  ReaderConfiguration, MessageStub, header_read_state, data_read_state, Event, keepalive_complete,
}
use solidframe.Mpipc.Reader.Read.{
  has_read, undefined_read, again, end, read_packet, read_header, read_data, read_round, read_loop,
  read,
}
use solidframe.Mpipc.Reader.Read.Frames.{reading, starts, follow, loop_step, at_header}

module _ {D T : Type 0} (config : ReaderConfiguration) (proto : ReaderProtocol D T)
    (complete : Event → T → T) where
  -- The packet has no data.
  abbrev pub keep_alive_bytes : PacketHeader → List ℕ
  keep_alive_bytes before = store proto.codec (new_header keep_alive_type 0 0 before)

  keep_alive_read :
      (before : PacketHeader) (q : List (MessageStub D)) (t : T)
      → read_data config proto complete
          (reading config proto complete data_read_state q (keep_alive_bytes before) t)
        ≡ again (reading config proto complete data_read_state q [] (complete keepalive_complete t))
  unfolding read_data read_header read_packet reading new_header
  keep_alive_read before q t =
      let h = new_header keep_alive_type 0 0 before in
      let trips =
        set_size-RoundTrips proto.codec keep_alive_type 0 0 before [] (omega arith) (omega arith)
          (omega arith) refl (omega arith) in
      let known : (h.type_ == keep_alive_type) ≡ true =
        ground (arith, set_size-type_ keep_alive_type 0 0 before) in
      let bytes : load proto.codec (store proto.codec h) ≡ some (h, []) =
        ap (load proto.codec) (sym (append-nil (store proto.codec h))) ∙ trips.0 in
      rw (bytes, trips.2, trips.1, known) refl

  -- A reader at a header, without an error, that is given the packet that keeps the connection alive: it reports it
  -- once and takes all its bytes, but it goes on as if it had seen a header. With the protocol of serialization_v1,
  -- when the next call is given some bytes of the next header but not all four, it reads behind them.
  pub keep_alive_overruns :
      (before : PacketHeader) (q : List (MessageStub D)) (unread : List ℕ) (t : T) (bs : List ℕ)
      → proto.codec ≡ serialization_v1
      → 1 ≤ length bs
      → length bs ≤ 3
      → (read config proto complete (keep_alive_bytes before) (record {
        state = header_read_state;
        message_q = q;
        bytes = unread;
        owner = t;
        rerror = none;
      })
          ≡ has_read
              (reading config proto complete data_read_state q [] (complete keepalive_complete t)))
        × (read config proto complete bs
              (reading config proto complete data_read_state q [] (complete keepalive_complete t))
            ≡ undefined_read)
  unfolding read read_round read_data read_header reading follow
  keep_alive_overruns before q unread t bs v1 some_bytes few =
      let bytes = keep_alive_bytes before in
      let r = reading config proto complete data_read_state q [] (complete keepalive_complete t) in
      let four = length-store proto.codec (new_header keep_alive_type 0 0 before) in
      (
        loop_step config proto complete (length bytes) _ _ (
              starts config proto complete header_read_state q bytes t at_header
                (omega (arith, four))
              ∙ keep_alive_read before q t)
            ∙ ap (λ n. read_loop config proto complete n r) four
            ∙ loop_step config proto complete 3 r (end (has_read r)) refl,
        loop_step config proto complete (length bs) _ _
            (behind bs (ap (λ c. load c bs) v1 ∙ load_short bs few) (ground arith)),
      )
    where
      behind :
          (b : List ℕ)
          → load proto.codec b ≡ none
          → (length b == 0) ≡ false
          → read_round config proto complete
              (reading config proto complete data_read_state q b (complete keepalive_complete t))
            ≡ end undefined_read
      behind b short nonempty = rw (nonempty, short) refl
