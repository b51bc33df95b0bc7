-- ===== src/Utility/Search.antt =====
-- The binary searches of solid/utility/algorithm.hpp. The iterators are positions in an array `at`, and a
-- comparator gives one of the three orders of `int`: below, equal to and above 0.
pub mod Laws
use solidframe.Prelude.{
  ℕ, zero, suc, ◌+◌, ◌-◌, ◌/◌, Bool, true, false, not, ◌&&◌, Option, none, some, ltb, ◌==◌,
  if◌then◌else◌,
}

pub data Compared : Type 0 where
  below : Compared
  same : Compared
  above : Compared

-- `!_rcmp(...)`.
abbrev pub is_same : Compared → Bool
is_same below = false
is_same same = true
is_same above = false

-- `binary_search_basic_comparator`, on numbers.
unfoldable pub basic_comparator : ℕ → ℕ → Compared
basic_comparator k1 k2 = if ltb k1 k2 then below else if ltb k2 k1 then above else same

module _ {A : Type 0} {K : Type 0} (compare : A → K → Compared) (at : ℕ → A) (key : K) where
  -- The loop of `binary_search`, from the position `beg`. Without fuel there is no result.
  pub search : ℕ → ℕ → ℕ → ℕ → Option (Bool × ℕ)
  search zero beg start end = none
  search (suc fuel) beg start end =
      let midpos = (end - start) / 2 in
      let upper = search fuel beg (start + (midpos + 1)) end in
      let lower = search fuel beg start (start + midpos) in
      if ltb start end
      then elim (compare (at (start + midpos)) key) [
        | below ↦ upper
        | same ↦ some (true, start - beg + midpos)
        | above ↦ lower
      ]
      else some (false, start - beg)

  pub binary_search : ℕ → ℕ → ℕ → Option (Bool × ℕ)
  binary_search fuel start end = search fuel start start end

  -- The loop of `binary_search_first`.
  pub first_loop : ℕ → ℕ → Bool × ℕ → Option (Bool × ℕ)
  first_loop zero start p = none
  first_loop (suc fuel) start p =
      if not (p.1 == 0) && is_same (compare (at (start + p.1 - 1)) key)
      then elim (binary_search fuel start (start + p.1)) [
        | none ↦ none
        | some q ↦ first_loop fuel start q
      ]
      else some p

  pub binary_search_first : ℕ → ℕ → ℕ → Option (Bool × ℕ)
  binary_search_first fuel start end = elim (binary_search fuel start end) [
    | none ↦ none
    | some p ↦ if not p.0 then some p else first_loop fuel start p
  ]

  -- The loop of `binary_search_last`. `_to - _from - 1` is not negative, since the key was found.
  pub last_loop : ℕ → ℕ → ℕ → Bool × ℕ → Option (Bool × ℕ)
  last_loop zero start end p = none
  last_loop (suc fuel) start end p =
      if not (p.1 == end - start - 1) && is_same (compare (at (start + p.1 + 1)) key)
      then elim (binary_search fuel (start + p.1 + 1) end) [
        | none ↦ none
        | some q ↦ last_loop fuel start end q
      ]
      else some p

  pub binary_search_last : ℕ → ℕ → ℕ → Option (Bool × ℕ)
  binary_search_last fuel start end = elim (binary_search fuel start end) [
    | none ↦ none
    | some p ↦ if not p.0 then some p else last_loop fuel start end p
  ]
