-- ===== src/Mpipc/Protocol.antt =====
-- What a protocol gives the writer: the part of `Protocol` and `Serializer` of mpipcprotocol.hpp that it calls, the
-- message objects that it reads, and `ConnectionContext` as far as it is written. A serializer is an object with a
-- state of type `S`; a call that changes it returns the new state.
use solidframe.Prelude.{ℕ, ◌≤◌, Bool, Option, List}
use solidframe.Prelude.Lists.{length}
use solidframe.Mpipc.Message.{RequestId}
use solidframe.Mpipc.Packet.{ValueCodec}

-- `request_id` and `message_state` of `ConnectionContext`.
pub record Context : Type 0 where
  pub request_id : RequestId
  pub message_state : ℕ

-- `stt` and `requid` of a `Message`.
pub record MessageObject : Type 0 where
  pub stt : ℕ
  pub requid : RequestId

-- The bytes that `Serializer::run` writes, and the serializer after; its result is the number of these bytes. A
-- result that is not positive is no bytes.
pub record Run (S : Type 0) : Type 0 where
  pub bytes : List ℕ
  pub serializer : S

pub record Protocol (S : Type 0) : Type 0 where
  pub codec : ValueCodec
  pub minimum_free_packet_data_size : ℕ
  pub create_serializer : S
  pub reset : S → S
  pub push : S → Option ℕ → ℕ → S
  pub run : S → Context → ℕ → Run S
  pub error : S → Option ℕ
  pub is_empty : S → Bool
  -- `run` does not write more than it is given room for.
  pub run_fits : (s : S) (ctx : Context) (n : ℕ) → length ((run s ctx n).bytes) ≤ n

-- What a run of a deserializer does: how many bytes it takes, the deserializer and the message pointer after, and the
-- state of the context. A result that is not positive is 0.
pub record Deserialized (D T : Type 0) : Type 0 where
  pub taken : ℕ
  pub deserializer : D
  pub message_ptr : Option ℕ
  pub owner : T

-- The reader's part of `Protocol`, and `Deserializer`: an object with a state of type `D`. The context, which `run`
-- changes, is a part of the state `T` of the reader's owner. The message pointer that `push` refers to is given to
-- `run`, which sets it.
pub record ReaderProtocol (D T : Type 0) : Type 0 where
  pub codec : ValueCodec
  pub create_deserializer : D
  pub reset : D → D
  pub push : D → Option ℕ → D
  pub run : D → T → Option ℕ → List ℕ → Deserialized D T
  pub error : D → Option ℕ
  pub is_empty : D → Bool
  pub clear : D → D
  pub type_index : ℕ → ℕ
  -- `run` does not read more than it is given.
  pub run_within :
      (d : D) (t : T) (ptr : Option ℕ) (bs : List ℕ) → (run d t ptr bs).taken ≤ length bs
