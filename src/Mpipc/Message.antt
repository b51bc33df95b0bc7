-- ===== src/Mpipc/Message.antt =====
-- Messages as the writer sees them: `MessageFlags` of solid/frame/mpipc/mpipcmessage.hpp, `MessageId` of
-- mpipccontext.hpp and `MessageBundle` of src/mpipcutility.hpp. A flag word is the record of its bits. A
-- message pointer and a completion function are the numbers of the objects that they refer to.
use solidframe.Prelude.{ℕ, ◌-◌, ◌^◌, Bool, true, false, not, Option, none, ◌==◌}
use solidframe.Utility.InnerList.{invalid_index}

pub record Flags : Type 0 where
  pub wait_response : Bool
  pub synchronous : Bool
  pub idempotent : Bool
  pub one_shot_send : Bool
  pub started_send : Bool
  pub done_send : Bool
  pub canceled : Bool
  pub response : Bool

-- The flag word 0.
abbrev pub no_flags : Flags
no_flags = record {
  wait_response = false;
  synchronous = false;
  idempotent = false;
  one_shot_send = false;
  started_send = false;
  done_send = false;
  canceled = false;
  response = false;
}

abbrev pub is_synchronous : Flags → Bool
is_synchronous f = f.synchronous

abbrev pub is_waiting_response : Flags → Bool
is_waiting_response f = f.wait_response

abbrev pub is_canceled : Flags → Bool
is_canceled f = f.canceled

pub record MessageId : Type 0 where
  pub index : ℕ
  pub unique : ℕ

-- `MessageId()` and `MessageId::clear`.
abbrev pub no_message_id : MessageId
no_message_id = record { index = invalid_index; unique = 0 }

pub record MessageBundle : Type 0 where
  pub message_type_id : ℕ
  pub message_flags : Flags
  pub message_ptr : Option ℕ
  pub complete_fnc : Option ℕ

-- `MessageBundle()` and `MessageBundle::clear`.
abbrev pub no_bundle : MessageBundle
no_bundle = record {
  message_type_id = invalid_index;
  message_flags = no_flags;
  message_ptr = none;
  complete_fnc = none;
}

-- What a move leaves behind: the pointer and the function are gone, the numbers are copied.
abbrev pub moved : MessageBundle → MessageBundle
moved b = record b { message_ptr = none; complete_fnc = none }

-- The flags that `enqueue` clears.
abbrev pub undisrupted : MessageBundle → MessageBundle
undisrupted b = record b {
  message_flags = record (b.message_flags) { started_send = false; done_send = false };
}

-- `message_flags |= MessageFlags::Canceled`.
abbrev pub canceled_bundle : MessageBundle → MessageBundle
canceled_bundle b = record b { message_flags = record (b.message_flags) { canceled = true } }

-- The other tests of `Message` on a flag word.
abbrev pub is_asynchronous : Flags → Bool
is_asynchronous f = not f.synchronous

abbrev pub is_request : Flags → Bool
is_request f = is_waiting_response f

abbrev pub is_idempotent : Flags → Bool
is_idempotent f = f.idempotent

abbrev pub is_started_send : Flags → Bool
is_started_send f = f.started_send

abbrev pub is_done_send : Flags → Bool
is_done_send f = f.done_send

abbrev pub is_one_shot : Flags → Bool
is_one_shot f = f.one_shot_send

abbrev pub is_response : Flags → Bool
is_response f = f.response

pub record RequestId : Type 0 where
  pub index : ℕ
  pub unique : ℕ

-- `RequestId()`, with the invalid numbers of 32 bits.
abbrev pub no_request_id : RequestId
no_request_id = record { index = 2 ^ 32 - 1; unique = 2 ^ 32 - 1 }

abbrev pub is_invalid_request : RequestId → Bool
is_invalid_request id = id.index == 2 ^ 32 - 1

abbrev pub message_id_of_request : RequestId → MessageId
message_id_of_request id = record { index = id.index; unique = id.unique }

abbrev pub is_invalid_message : MessageId → Bool
is_invalid_message id = id.index == invalid_index
