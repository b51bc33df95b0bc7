-- ===== src/Frame/Tests/Shared.antt =====
-- The theorems on the store of shared objects at concrete stores. The objects are numbers, the functions to call are
-- numbers too.
use solidframe.Prelude.{ℕ, ◌≡◌, refl, true, false, inl, List, [], ◌∷◌, ◌++◌, arith}
use solidframe.Frame.Common.{UniqueId}
use solidframe.Frame.SharedStore.{
  WaitKind, unique_wait, shared_wait, shared_lock_state, WaitStub, Stub, Pointer, new_stub,
  can_clear, do_try_get_alive, do_decrement_object_use_count, do_execute_erase, deliver_waits,
  can_deliver, delivered, push_wait, increment_count, decrement_count,
}
use solidframe.Frame.SharedStore.Locks.{
  Holders, nobody, total, Reached, start, next, got_alive, waited, dropped_alive, erased, Exclusive,
  given,
}
use solidframe.Frame.SharedStore.Exclusive.Steps.{Reached-Exclusive}
use solidframe.Frame.SharedStore.Waits.{Delivers, served, turn, sharers}
use solidframe.Frame.SharedStore.Waits.Turns.{do_execute_erase-Delivers}
use solidframe.Frame.SharedStore.Store.{
  do_allocate_index, Store, Controller, new_shared_store, insert_alive, clear_pointer, get, insert,
  put_stub, erase_pointer,
}
use solidframe.Frame.SharedStore.Store.Execute.{do_cache_object_index, on_raise}
use solidframe.Frame.SharedStore.Wake.{Keeps-refl}
use solidframe.Frame.SharedStore.Wake.Serve.{Polite}
use solidframe.Frame.SharedStore.Wake.Reached.{
  by_drop, inserted, got, nothing, and_then, made, operated, Seen, Reached-Told,
}
use solidframe.Frame.SharedStore.Indices.{
  OneOwner, none_used, allocated, given_back, Indices-OneOwner,
}
use solidframe.Frame.SharedStore.Reuse.Twice.{drop_twice_reuses}

-- An object to which there was an alive pointer, and for which a function waits to share it.
abbrev waited_for : Stub ℕ ℕ
waited_for = push_wait 0 5 shared_wait (do_try_get_alive 3 (new_stub 7)).0

abbrev released : Stub ℕ ℕ
released = (do_decrement_object_use_count (record { index = 3; unique = 0 }) true waited_for).0

abbrev one_sharer : Holders
one_sharer = record { alive = 0; shared = 1; unique = 0 }

sharing : Reached 3 7 (do_execute_erase 3 released []).0 one_sharer
unfolding do_try_get_alive increment_count decrement_count do_decrement_object_use_count
    do_execute_erase given deliver_waits can_deliver delivered
sharing =
    next released nobody _ _
      (next waited_for (record nobody { alive = 1 }) released nobody
        (next _ (record nobody { alive = 1 }) waited_for _
          (next (new_stub 7) nobody _ _ start got_alive (omega arith)) (waited 0 5 shared_wait)
          (omega arith))
        (dropped_alive (omega arith)) (omega arith))
      erased (omega arith)

Reached-Exclusive_example :
    Exclusive (do_execute_erase 3 released []).0 one_sharer
    × (can_clear (do_execute_erase 3 released []).0 ≡ true → total one_sharer ≡ 0)
Reached-Exclusive_example =
    Reached-Exclusive 3 7 (do_execute_erase 3 released []).0 one_sharer (omega arith) sharing

abbrev wait_for : ℕ → WaitKind → WaitStub ℕ
wait_for f k = record { node = f; kind = k; fnc = f }

-- Two functions that share, one that does not, and one more that would share.
abbrev crowd : List (WaitStub ℕ)
crowd =
    wait_for 1 shared_wait
    ∷ wait_for 2 shared_wait
    ∷ wait_for 3 unique_wait
    ∷ wait_for 4 shared_wait
    ∷ []

abbrev crowded : Stub ℕ ℕ
crowded = record (new_stub 7) { waits = crowd }

do_execute_erase-Delivers_example :
    Delivers 3 crowded [] (do_execute_erase 3 crowded []) (served crowded).0 (served crowded).1
do_execute_erase-Delivers_example = do_execute_erase-Delivers 3 crowded [] (omega arith)

crowd_served : served crowded ≡ (
  wait_for 1 shared_wait ∷ wait_for 2 shared_wait ∷ [],
  wait_for 3 unique_wait ∷ wait_for 4 shared_wait ∷ [],
)
unfolding served turn sharers
crowd_served = refl

-- A controller that does nothing, and functions that write down their numbers and leave the pointer to its end.
abbrev plain : Controller ℕ ℕ (List ℕ)
plain = record {
  call = λ f p err st w. record { ptr = p; store = st; world = f ∷ w };
  prepare_index = λ f flags a. record { found = false; fnc = f; idx = 0; err = 0; access = a };
  prepare_pointer = λ f p flags a. record { done = true; fnc = f; ptr = p; err = 0; access = a };
  execute_on_signal = λ sm a. a;
  execute_before_erase = λ a. (false, a);
  clear = λ o idx a. (false, o, a);
}

plain-Polite : Polite plain
plain-Polite = record {
  calls = λ f p err st w. Keeps-refl st;
  prepares_index = λ f flags a. record { more = omega arith; vector = refl };
  prepares_pointer = λ f p flags a. record { more = omega arith; vector = refl };
  signals = λ sm a. record { more = omega arith; vector = refl };
  erases = λ a. omega arith;
  clears = λ o idx a. record { more = omega arith; vector = refl };
}

-- A store with an object, and after its pointer was dropped.
abbrev filled : Store ℕ ℕ × Pointer
filled = insert_alive 7 (new_shared_store 7)

abbrev emptied : Store ℕ ℕ
emptied = (clear_pointer filled.1 filled.0).1

-- The pointer is dropped, and the object is asked for after that.
Reached-Told_example :
    let asked = (get do_try_get_alive filled.1.uid emptied).0 in
    Seen plain (filled.0.fill_erase_vector ++ filled.1.uid ∷ []) asked []
unfolding insert do_try_get_alive do_allocate_index put_stub
Reached-Told_example =
    Reached-Told plain plain-Polite 7 filled.0 [] _ emptied
      (get do_try_get_alive filled.1.uid emptied).0 []
      (operated (new_shared_store 7) [] filled.0 [] (made []) (inserted (λ s. s) do_try_get_alive))
      (by_drop filled.1 refl refl (omega arith))
      (and_then emptied [] _ [] nothing (got do_try_get_alive filled.1.uid))

-- A store with one object that two share.
abbrev shared_store : Store ℕ ℕ
shared_store = record (new_shared_store 7) {
  objmaxcnt = 1;
  stubs = λ i. record (new_stub 7) { usecnt = 2; state = shared_lock_state };
}

abbrev first_id : UniqueId
first_id = record { index = 0; unique = 0 }

drop_twice_reuses_example :
    let dropped = erase_pointer first_id false (erase_pointer first_id false shared_store) in
    let later = (on_raise plain dropped []).0 in
    ((insert_alive 7 later).1.uid.index ≡ 0)
    × ((insert_alive 7 (insert_alive 7 later).0).1.uid ≡ (insert_alive 7 later).1.uid)
drop_twice_reuses_example =
    drop_twice_reuses plain 7 first_id shared_store [] plain-Polite (λ a. refl)
      (record {
        awake = record { told = inl refl; sent = λ f. absurd (grind (arith, f)) };
        fill = refl;
        vector = refl;
        caching = refl;
        waiting = refl;
      })
      (record { range = omega arith; current = refl; uses = refl; lives = refl; waits = refl })

-- An index is taken, given back, and taken again.
abbrev taken_once : Store ℕ ℕ × ℕ
taken_once = do_allocate_index 7 (new_shared_store 7)

abbrev given_once : Store ℕ ℕ
given_once = do_cache_object_index taken_once.1 taken_once.0

Indices-OneOwner_example :
    OneOwner (do_allocate_index 7 given_once).0 ((do_allocate_index 7 given_once).1 ∷ [])
Indices-OneOwner_example =
    Indices-OneOwner 7 (do_allocate_index 7 given_once).0 ((do_allocate_index 7 given_once).1 ∷ [])
      (allocated given_once []
        (given_back taken_once.0 [] taken_once.1 [] (allocated (new_shared_store 7) [] none_used)))
