-- ===== src/Frame/Tests.antt =====
-- The time store's theorem at concrete entries.
mod Shared
use solidframe.Prelude.{ℕ, ◌≡◌, some, List, [], ◌∷◌, ltb, arith}
use solidframe.Frame.TimeStore.{TimePair, TimeStore, pop_until}
use solidframe.Frame.TimeStore.Pop.{Popped, least, write_down, ignore, pop_until-Popped}

-- Three timers, of which the first and the last are due at 20.
abbrev timers : TimeStore ℕ ℕ
timers = record {
  tv =
      record { first = 20; second = 1 }
      ∷ record { first = 30; second = 2 }
      ∷ record { first = 10; second = 3 }
      ∷ [];
  mint = 10;
}

pop_until-Popped_example :
    (ys : List (TimePair ℕ ℕ)) × (vs : List ℕ) × (pop_until ltb 1000 20
        (write_down ltb 20)
        (ignore ltb 20)
        4
        timers
        []
      ≡ some (record { tv = ys; mint = least ltb 20 1000 ys }, vs))
    × Popped ltb 20 timers.tv ys [] vs
pop_until-Popped_example = pop_until-Popped ltb 20 1000 4 timers (omega arith)
