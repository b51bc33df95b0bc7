-- ===== src/Frame/Common.antt =====
-- `UniqueId` of solid/frame/common.hpp: the ids of objects.
use solidframe.Prelude.{ℕ, Bool, ◌==◌}
use solidframe.Utility.InnerList.{invalid_index}

pub record UniqueId : Type 0 where
  pub index : ℕ
  pub unique : ℕ

-- `UniqueId()`.
abbrev pub no_unique_id : UniqueId
no_unique_id = record { index = invalid_index; unique = invalid_index }

-- `isInvalid`.
abbrev pub is_invalid : UniqueId → Bool
is_invalid id = id.index == invalid_index
