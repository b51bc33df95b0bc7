-- ===== src/Utility/InnerList.antt =====
-- `InnerList` of solid/utility/innerlist.hpp: a doubly linked list that is threaded through the nodes of a
-- vector. `Links` is the link of each node that belongs to the list (`Link` of the template), by the
-- node's index; lists over the same links share them. A function takes the links and the list's own
-- fields, and returns both as they are after the call. `InvalidIndex` is the greatest `size_t`.
pub mod Chain
mod Count
pub mod Push
pub mod Erase
pub mod Walk
use solidframe.Prelude.{
  ℕ, zero, suc, ◌+◌, ◌-◌, ◌%◌, ◌^◌, Bool, true, false, not, ◌||◌, ◌&&◌, Option, none, some, ◌==◌,
  if◌then◌else◌,
}

abbrev pub invalid_index : ℕ
invalid_index = 2 ^ 64 - 1

pub record InnerLink : Type 0 where
  pub prev : ℕ
  pub next : ℕ

-- `InnerLink::clear`, which is also what a new node has.
abbrev pub clear_link : InnerLink
clear_link = record { prev = invalid_index; next = invalid_index }

abbrev pub Links : Type 0
Links = ℕ → InnerLink

pub update : Links → ℕ → InnerLink → Links
update ls i v j = if j == i then v else ls j

abbrev pub set_prev : Links → ℕ → ℕ → Links
set_prev ls i p = update ls i (record { prev = p; next = (ls i).next })

abbrev pub set_next : Links → ℕ → ℕ → Links
set_next ls i n = update ls i (record { prev = (ls i).prev; next = n })

-- The fields `size_`, `back_` and `front_`.
pub record InnerList : Type 0 where
  pub size : ℕ
  pub back : ℕ
  pub front : ℕ

abbrev pub empty_list : InnerList
empty_list = record { size = 0; back = invalid_index; front = invalid_index }

-- `++size_` and `--size_` on a `size_t`.
abbrev pub increment : ℕ → ℕ
increment n = (n + 1) % 2 ^ 64

abbrev pub decrement : ℕ → ℕ
decrement n = (n + 2 ^ 64 - 1) % 2 ^ 64

unfoldable pub push_back : ℕ → Links → InnerList → Links × InnerList
unfolding update
push_back index ls l =
    let ls1 = update ls index (record { prev = invalid_index; next = l.back }) in
    if not (l.back == invalid_index)
    then (
      set_prev ls1 l.back index,
      record { size = increment l.size; back = index; front = l.front },
    )
    else (ls1, record { size = increment l.size; back = index; front = index })

unfoldable pub push_front : ℕ → Links → InnerList → Links × InnerList
unfolding update
push_front index ls l =
    let ls1 = update ls index (record { prev = l.front; next = invalid_index }) in
    if not (l.front == invalid_index)
    then (
      set_next ls1 l.front index,
      record { size = increment l.size; back = l.back; front = index },
    )
    else (ls1, record { size = increment l.size; back = index; front = index })

-- The two halves of `erase`: the node before, then the node behind. Each reads the link of `index` anew.
pub unlink_prev : ℕ → Links → InnerList → Links × InnerList
unlink_prev index ls l =
    let crt = ls index in
    if not (crt.prev == invalid_index)
    then (set_next ls crt.prev crt.next, l)
    else (ls, record { size = l.size; back = crt.next; front = l.front })

pub unlink_next : ℕ → Links → InnerList → Links × InnerList
unlink_next index ls l =
    let crt = ls index in
    if not (crt.next == invalid_index)
    then (set_prev ls crt.next crt.prev, l)
    else (ls, record { size = l.size; back = l.back; front = crt.prev })

unfoldable pub erase : ℕ → Links → InnerList → Links × InnerList
unfolding unlink_prev unlink_next update
erase index ls l =
    let (ls1, l1) = unlink_prev index ls l in
    let (ls2, l2) = unlink_next index ls1 l1 in
    (
      update ls2 index clear_link,
      record { size = decrement l2.size; back = l2.back; front = l2.front },
    )

-- The index that was popped comes last.
unfoldable pub pop_front : Links → InnerList → Links × InnerList × ℕ
unfolding erase
pop_front ls l = let (ls', l') = erase l.front ls l in (ls', l', l.front)

unfoldable pub pop_back : Links → InnerList → Links × InnerList × ℕ
unfolding erase
pop_back ls l = let (ls', l') = erase l.back ls l in (ls', l', l.back)

abbrev pub front_index : InnerList → ℕ
front_index l = l.front

abbrev pub back_index : InnerList → ℕ
back_index l = l.back

abbrev pub is_empty : InnerList → Bool
is_empty l = l.size == 0

abbrev pub previous_index : Links → ℕ → ℕ
previous_index ls index = (ls index).prev

abbrev pub fast_clear : InnerList → InnerList
fast_clear l = empty_list

-- `check`.
pub check : InnerList → Bool
check l =
    if (l.back == invalid_index) || (l.front == invalid_index) then l.back == l.front else true

pub contains : Links → InnerList → ℕ → Bool
contains ls l index =
    not ((ls index).prev == invalid_index)
    || (not ((ls index).next == invalid_index) || (index == l.front))

-- `while(size()) popFront();` on fuel; `none` means that the fuel ran out.
pub clear : ℕ → Links → InnerList → Option (Links × InnerList)
clear zero ls l = none
clear (suc fuel) ls l =
    let (ls', l', _) = pop_front ls l in
    let rest = clear fuel ls' l' in if l.size == 0 then some (ls, l) else rest

-- The loop of `forEach` from the index `it`, on fuel, over any state `S` from which `links` reads the
-- links; the next index is read before the callback runs.
pub for_each {ℓ} : {S : Type ℓ} → (S → Links) → (ℕ → S → S) → ℕ → ℕ → S → Option S
for_each links f zero it s = none
for_each links f (suc fuel) it s =
    let rest = for_each links f fuel (links s it).next (f it s) in
    if it == invalid_index then some s else rest
