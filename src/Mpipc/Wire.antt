-- ===== src/Mpipc/Wire.antt =====
-- The stream of packets between the writer of mpipcmessagewriter.cpp and the reader of mpipcmessagereader.cpp: each is
-- its header followed by its data.
use solidframe.Prelude.{
  ℕ, ◌%◌, ◌^◌, ◌≤◌, ◌<◌, ◌≡◌, refl, ap, ◌∙◌, true, false, List, [], ◌∷◌, ◌++◌, append_assoc, sym,
  arith,
}
use solidframe.Prelude.Lists.{length, length-append}
use solidframe.Mpipc.Packet.{
  ValueCodec, PacketHeader, size, set_size, set_flags, set_type, is_ok, is_type_keep_alive, store,
  max_packet_data_size,
}
use solidframe.Mpipc.Packet.Laws.{Fits, set_size-type_, set_size-Fits, set_size-RoundTrips}

pub record Frame : Type 0 where
  pub header : PacketHeader
  pub content : List ℕ

-- The bytes of a sequence of packets.
unfoldable pub wire : ValueCodec → List Frame → List ℕ
wire codec [] = []
wire codec (f ∷ fs) = store codec f.header ++ (f.content ++ wire codec fs)

-- A data packet: it has data, and its header is accepted, says how many bytes the data has, and is not that of a keep
-- alive packet.
pub record IsFrame (f : Frame) : Type 0 where
  pub fits : Fits f.header
  pub ok : is_ok f.header ≡ true
  pub sized : size f.header ≡ length f.content
  pub awake : is_type_keep_alive f.header ≡ false
  pub filled : 1 ≤ length f.content

unfoldable pub AllFrames : List Frame → Type 0
AllFrames [] = Unit
AllFrames (f ∷ fs) = IsFrame f × AllFrames fs

-- A header of the type of a message switch, for data that is there and fits into a packet.
pub made-IsFrame :
    (codec : ValueCodec) (t flags : ℕ) (before : PacketHeader) (content : List ℕ)
    → 1 ≤ t
    → t ≤ 5
    → flags < 2 ^ 8
    → flags % 2 ≡ 0
    → 1 ≤ length content
    → length content ≤ max_packet_data_size
    → IsFrame (record {
      header = set_size (length content) (set_flags flags (set_type t before));
      content = content;
    })
made-IsFrame codec t flags before content low high small even some_data fit =
    let r =
      set_size-RoundTrips codec t flags (length content) before [] low (omega arith) small even
        fit in
    record {
      fits = set_size-Fits t flags (length content) before (omega arith) small (omega arith);
      ok = r.1;
      sized = r.2;
      awake = ground (arith, set_size-type_ t flags (length content) before);
      filled = some_data;
    }

pub wire-append :
    (codec : ValueCodec) (fs gs : List Frame)
    → wire codec (fs ++ gs) ≡ wire codec fs ++ wire codec gs
unfolding wire
wire-append codec [] gs = refl
wire-append codec (f ∷ fs) gs = rw (wire-append codec fs gs) (
    ap (λ t. store codec f.header ++ t)
      (sym (append_assoc f.content (wire codec fs) (wire codec gs)))
    ∙ sym (append_assoc (store codec f.header) (f.content ++ wire codec fs) (wire codec gs)))

pub AllFrames-append : (fs gs : List Frame) → AllFrames fs → AllFrames gs → AllFrames (fs ++ gs)
unfolding AllFrames
AllFrames-append [] gs all more = more
AllFrames-append (f ∷ fs) gs (one, all) more = (one, AllFrames-append fs gs all more)

-- A packet has a byte at least.
pub frames_fit :
    (codec : ValueCodec) (fs : List Frame) → AllFrames fs → length fs ≤ length (wire codec fs)
unfolding AllFrames wire
frames_fit codec [] all = omega arith
frames_fit codec (f ∷ fs) (one, all) = omega (
  arith,
  one.filled,
  frames_fit codec fs all,
  length-append (store codec f.header) (f.content ++ wire codec fs),
  length-append f.content (wire codec fs),
)
