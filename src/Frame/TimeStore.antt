-- ===== src/Frame/TimeStore.antt =====
-- `TimeStore` of solid/frame/timestore.hpp: values with the times at which they are due. The times are of any type
-- with a comparison, as `NanoTime` has one. A function that the store calls changes a state of the caller.
pub mod Pop
use solidframe.Prelude.{
  ℕ, zero, suc, ◌+◌, ◌-◌, Bool, Option, none, some, List, [], ◌∷◌, ◌++◌, if◌then◌else◌,
}
use solidframe.Prelude.Lists.{length}

pub record TimePair (T V : Type 0) : Type 0 where
  pub first : T
  pub second : V

pub record TimeStore (T V : Type 0) : Type 0 where
  pub tv : List (TimePair T V)
  pub mint : T

module _ {A : Type 0} where
  -- The last of a list that is not empty, and the others.
  pub back : A → List A → A
  back x [] = x
  back x (y ∷ ys) = back y ys

  pub but_back : A → List A → List A
  but_back x [] = []
  but_back x (y ∷ ys) = x ∷ but_back y ys

  -- `tv[0] = tv.back(); tv.pop_back();`
  pub replace_by_back : List A → List A
  replace_by_back [] = []
  replace_by_back (x ∷ []) = []
  replace_by_back (x ∷ y ∷ ys) = back y ys ∷ but_back y ys

  -- The same at an index.
  pub remove_at : ℕ → List A → List A
  remove_at zero xs = replace_by_back xs
  remove_at (suc i) [] = []
  remove_at (suc i) (x ∷ xs) = x ∷ remove_at i xs

  -- `if(i < tv.size()) f(tv[i]);`
  pub with_at : {S : Type 0} → ℕ → List A → (A → S → S) → S → S
  with_at i [] f s = s
  with_at zero (x ∷ xs) f s = f x s
  with_at (suc i) (x ∷ xs) f s = with_at i xs f s

  pub set_at : ℕ → (A → A) → List A → List A
  set_at i f [] = []
  set_at zero f (x ∷ xs) = f x ∷ xs
  set_at (suc i) f (x ∷ xs) = x ∷ set_at i f xs

module _ {T : Type 0} (less : T → T → Bool) where
  pub earlier : T → T → T
  earlier t m = if less t m then t else m

  module _ {V : Type 0} where
    pub new_store : T → TimeStore T V
    new_store maximum = record { tv = []; mint = maximum }

    -- The result is the value's index.
    pub push : T → V → TimeStore T V → TimeStore T V × ℕ
    push rt rv ts = (
      record { tv = ts.tv ++ record { first = rt; second = rv } ∷ []; mint = earlier rt ts.mint },
      length ts.tv,
    )

    -- `pop(_idx, _rf)`: the last entry takes the place of the popped one, and its value hears of its new and its old
    -- index.
    pub pop_index : {S : Type 0} → ℕ → (V → ℕ → ℕ → S → S) → TimeStore T V → S → TimeStore T V × S
    pop_index idx rf ts s =
        let tv = remove_at idx ts.tv in
        (record ts { tv = tv }, with_at idx tv (λ e. rf e.second idx (length ts.tv - 1)) s)

    -- The result is the value at the index, if there is one.
    pub change : ℕ → T → TimeStore T V → TimeStore T V × Option V
    change idx rt ts = (
      record { tv = set_at idx (λ e. record e { first = rt }) ts.tv; mint = earlier rt ts.mint },
      with_at idx ts.tv (λ e _. some e.second) none,
    )

    -- The loop of `pop(_rt, _rf1, _rf2)` on the entries from the index `i` on; the loop does not touch the
    -- entries before it. The result is the entries that are left of them, the least time seen, and the state.
    pub pop_from :
        {S : Type 0}
        → T
        → (ℕ → V → S → S)
        → (V → ℕ → ℕ → S → S)
        → ℕ
        → ℕ
        → List (TimePair T V)
        → T
        → S
        → Option (List (TimePair T V) × T × S)
    pop_from rt rf1 rf2 zero i xs crtmin s = none
    pop_from rt rf1 rf2 (suc fuel) i [] crtmin s = some ([], crtmin, s)
    pop_from rt rf1 rf2 (suc fuel) i (x ∷ xs) crtmin s =
        let moved = replace_by_back (x ∷ xs) in
        let kept = pop_from rt rf1 rf2 fuel (i + 1) xs (earlier x.first crtmin) s in
        let popped =
          pop_from rt rf1 rf2 fuel i moved crtmin
            (rf1 i x.second (with_at zero moved (λ e. rf2 e.second i (i + length xs)) s)) in
        if less rt x.first
        then elim kept [ none ↦ none | some (ys, m, t) ↦ some (x ∷ ys, m, t) ]
        else popped

    -- `pop(_rt, _rf1, _rf2)`.
    pub pop_until :
        {S : Type 0}
        → T
        → T
        → (ℕ → V → S → S)
        → (V → ℕ → ℕ → S → S)
        → ℕ
        → TimeStore T V
        → S
        → Option (TimeStore T V × S)
    pop_until maximum rt rf1 rf2 fuel ts s = elim (pop_from rt rf1 rf2 fuel 0 ts.tv maximum s) [
      | none ↦ none
      | some (ys, m, t) ↦ some (record { tv = ys; mint = m }, t)
    ]

    pub next : TimeStore T V → T
    next ts = ts.mint
