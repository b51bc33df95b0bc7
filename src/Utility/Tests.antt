-- ===== src/Utility/Tests.antt =====
-- Runs of the functions of solid/utility, and its theorems at concrete inputs.
mod Queues
use solidframe.Prelude.{
  ltb, ℕ, ◌+◌, ◌-◌, ◌*◌, ◌%◌, ◌≤◌, ◌<◌, ◌≡◌, ◌↔◌, refl, true, false, none, some, [], ◌∷◌, arith,
}
use solidframe.Utility.Bits.{bit_count_64, leading_zero_count_64}
use solidframe.Utility.Bits.Count.{ones, bit_count_64_lem}
use solidframe.Utility.Bits.Leading.{IsBitLength, leading_zero_count_64_lem}
use solidframe.Utility.Revert.{pack, unpack}
use solidframe.Utility.Revert.Laws.{unpack-pack}
use solidframe.Utility.Circular.{
  overflow_safe_less_32, overflow_safe_max_32, circular_distance, overflow_safe_less_32_ahead,
  circular_distance_lem,
}
use solidframe.Utility.FindCmp.{find_cmp, First, find_cmp-First}
use solidframe.Utility.Search.{
  below, same, above, basic_comparator, binary_search, binary_search_first, binary_search_last,
}
use solidframe.Utility.Search.Laws.{
  Ordered, Outcome, FirstSame, binary_search-Outcome, binary_search_first-FirstSame,
  binary_search_last_endless,
}
use solidframe.Utility.Padding.{max_padded_byte_cout_64}
use solidframe.Utility.Padding.Laws.{IsByteCount, max_padded_byte_cout_64_lem}
use solidframe.Utility.Crc.{compute_value_with_crc_64, check_value_with_crc_64}
use solidframe.Utility.Crc.Laws.{check_value_with_crc_64_iff}
use solidframe.Utility.InnerList.{
  Links, InnerList, clear_link, empty_list, push_back, push_front, erase, clear, for_each,
  invalid_index,
}
use solidframe.Utility.InnerList.Chain.{IsList}
use solidframe.Utility.InnerList.Push.{push_back-IsList, push_front-IsList}
use solidframe.Utility.InnerList.Erase.{erase-IsList}
use solidframe.Utility.InnerList.Walk.{Clears, visit, clear-Clears, for_each-visit}

bit_count_64_lem_example : bit_count_64 0xf0f0_0000_0000_0001 ≡ ones 64 0xf0f0_0000_0000_0001
bit_count_64_lem_example = bit_count_64_lem 0xf0f0_0000_0000_0001

leading_zero_count_64_lem_example :
    (n : ℕ) × (n ≤ 64) × IsBitLength n 300 × (leading_zero_count_64 300 ≡ 64 - n)
leading_zero_count_64_lem_example = leading_zero_count_64_lem 300 (omega arith)

max_padded_byte_cout_64_lem_example :
    (max_padded_byte_cout_64 300 ≤ 8) × IsByteCount (max_padded_byte_cout_64 300) 300
max_padded_byte_cout_64_lem_example = max_padded_byte_cout_64_lem 300 (omega arith)

check_value_with_crc_64_iff_example :
    (check_value_with_crc_64 0xc2 ≡ some 3) ↔ (compute_value_with_crc_64 3 ≡ some 0xc2)
check_value_with_crc_64_iff_example = check_value_with_crc_64_iff 3 0xc2 (omega arith)

-- A list of two over fresh links, built as the code builds it.
abbrev fresh : Links
fresh j = clear_link

fresh-IsList : IsList fresh empty_list []
fresh-IsList = record {
  linked = tt;
  back_first = refl;
  front_last = refl;
  size_length = refl;
  distinct = tt;
  valid = tt;
}

abbrev one : Links × InnerList
one = push_back 3 fresh empty_list

one-IsList : IsList one.0 one.1 (3 ∷ [])
one-IsList = push_back-IsList fresh empty_list 3 [] (omega arith) tt fresh-IsList

abbrev two : Links × InnerList
two = push_back 5 one.0 one.1

two-IsList : IsList two.0 two.1 (5 ∷ 3 ∷ [])
two-IsList = push_back-IsList one.0 one.1 5 (3 ∷ []) (omega arith) (omega arith) one-IsList

push_back-IsList_example : IsList two.0 two.1 (5 ∷ 3 ∷ [])
push_back-IsList_example =
    push_back-IsList one.0 one.1 5 (3 ∷ []) (omega arith) (omega arith) one-IsList

erase-IsList_example : IsList (erase 3 two.0 two.1).0 (erase 3 two.0 two.1).1 (5 ∷ [])
erase-IsList_example = erase-IsList two.0 two.1 3 (5 ∷ []) [] two-IsList

clear-Clears_example : Clears two.0 (5 ∷ 3 ∷ []) (clear 3 two.0 two.1)
clear-Clears_example = clear-Clears 3 two.0 two.1 (5 ∷ 3 ∷ []) (omega arith) two-IsList

unpack-pack_example :
    (unpack (pack 7 9) ≡ (7, 9)) × (pack (unpack 0x1_0002).0 (unpack 0x1_0002).1 ≡ 0x1_0002)
unpack-pack_example = unpack-pack 7 9 0x1_0002 (omega arith) (omega arith) (omega arith)

overflow_safe_less_32_ahead_example :
    (overflow_safe_less_32 0xffff_ffff 2 ≡ true)
    × (overflow_safe_less_32 2 0xffff_ffff ≡ false)
    × (overflow_safe_max_32 0xffff_ffff 2 ≡ 2)
overflow_safe_less_32_ahead_example =
    overflow_safe_less_32_ahead 0xffff_ffff 3 (omega arith) (omega arith) (omega arith)

-- The even numbers, in their order.
abbrev evens : ℕ → ℕ
evens i = i * 2

evens_below :
    (i j : ℕ) → i ≤ j → basic_comparator (evens j) 6 ≡ below → basic_comparator (evens i) 6 ≡ below
unfolding basic_comparator
evens_below i j h e = ground arith

evens_above :
    (i j : ℕ) → i ≤ j → basic_comparator (evens i) 6 ≡ above → basic_comparator (evens j) 6 ≡ above
unfolding basic_comparator
evens_above i j h e = ground arith

evens-Ordered : Ordered basic_comparator evens 6 1 5
evens-Ordered = record {
  falls = λ i j a b c e. evens_below i j b e;
  rises = λ i j a b c e. evens_above i j b e;
}

binary_search-Outcome_example :
    Outcome basic_comparator evens 6 1 5 (binary_search basic_comparator evens 6 9 1 5)
binary_search-Outcome_example =
    binary_search-Outcome basic_comparator evens 6 1 5 9 (omega arith) (omega arith) evens-Ordered

abbrev sevens : ℕ → ℕ
sevens i = 7

sevens_same : (i : ℕ) → basic_comparator (sevens i) 7 ≡ same
unfolding basic_comparator
sevens_same i = refl

-- All the keys are the same, so the first is at the start.
sevens-Ordered : Ordered basic_comparator sevens 7 2 9
unfolding basic_comparator
sevens-Ordered = record { falls = λ i j a b c e. e; rises = λ i j a b c e. e }

binary_search_first-FirstSame_example :
    FirstSame basic_comparator sevens 7 2 9 (binary_search_first basic_comparator sevens 7 12 2 9)
binary_search_first-FirstSame_example =
    binary_search_first-FirstSame basic_comparator sevens 7 2 12 9 (omega arith) (omega arith)
      sevens-Ordered

binary_search_last_endless_example : binary_search_last basic_comparator sevens 7 100 0 3 ≡ none
binary_search_last_endless_example =
    binary_search_last_endless basic_comparator sevens 7 sevens_same 100

ltb_asymmetric : (a b : ℕ) → ltb a b ≡ true → ltb b a ≡ false
ltb_asymmetric a b e = ground arith

ltb_transitive : (a b c : ℕ) → ltb b a ≡ false → ltb c b ≡ false → ltb c a ≡ false
ltb_transitive a b c e f = ground arith

find_cmp-First_example : (off : ℕ) × (find_cmp ltb evens 5 2 5 ≡ some off) × First ltb evens 2 5 off
find_cmp-First_example =
    find_cmp-First ltb evens (λ a b e. ltb_asymmetric a b e) (λ a b c e f. ltb_transitive a b c e f)
      5 2 5 (omega arith) (omega arith)
