-- ===== src/Utility/Search/Laws.antt =====
-- `binary_search`, `binary_search_first` and `binary_search_last` of algorithm.hpp, on ordered and on equal keys.
use solidframe.Prelude.{
  ℕ, zero, suc, ◌+◌, ◌-◌, ◌/◌, ◌≤◌, ◌<◌, ◌≡◌, refl, ap, ◌∙◌, Bool, true, false, Bool-cases, Option,
  none, some, ◌⊎◌, inl, inr, not, ltb, ◌==◌, if◌then◌else◌, arith,
}
use native.Mathlib.Decide.{dec_lt}
use solidframe.Utility.Search.{
  Compared, below, same, above, is_same, search, binary_search, first_loop, binary_search_first,
  last_loop, binary_search_last,
}

Compared-cases : (c : Compared) → (c ≡ below) ⊎ (c ≡ same) ⊎ (c ≡ above)
Compared-cases below = inl refl
Compared-cases same = inr (inl refl)
Compared-cases above = inr (inr refl)

module _ {A : Type 0} {K : Type 0} (compare : A → K → Compared) (at : ℕ → A) (key : K)
    (beg stop : ℕ) where
  -- The array is ordered by the comparator, between the two positions.
  pub record Ordered : Type 0 where
    pub falls :
        (i j : ℕ)
        → beg ≤ i
        → i ≤ j
        → j < stop
        → compare (at j) key ≡ below
        → compare (at i) key ≡ below
    pub rises :
        (i j : ℕ)
        → beg ≤ i
        → i ≤ j
        → j < stop
        → compare (at i) key ≡ above
        → compare (at j) key ≡ above

  -- Either the position of a key that is the same, or the one that parts the smaller keys from the greater.
  pub data Outcome : Option (Bool × ℕ) → Type 0 where
    found : (p : ℕ) → beg + p < stop → compare (at (beg + p)) key ≡ same → Outcome (some (true, p))
    missing :
        (p : ℕ)
        → beg + p ≤ stop
        → ((i : ℕ) → beg ≤ i → i < beg + p → compare (at i) key ≡ below)
        → ((i : ℕ) → beg + p ≤ i → i < stop → compare (at i) key ≡ above)
        → Outcome (some (false, p))

  search-Outcome :
      Ordered
      → (fuel start end : ℕ) → beg ≤ start
      → start ≤ end
      → end ≤ stop
      → end - start < fuel
      → ((i : ℕ) → beg ≤ i → i < start → compare (at i) key ≡ below)
      → ((i : ℕ) → end ≤ i → i < stop → compare (at i) key ≡ above)
      → Outcome (search compare at key fuel beg start end)
  unfolding search
  search-Outcome o zero start end a b c d lower upper = absurd (omega arith)
  search-Outcome o (suc fuel) start end a b c d lower upper = elim (dec_lt start end) [
    | no ge ↦
        let test : ltb start end ≡ false = ground arith in
        let p : beg + (start - beg) ≡ start = omega arith in
        rw test (
          missing (start - beg) (omega arith) (λ i l r. lower i l (omega arith))
            (λ i l r. upper i (omega arith) r))
    | yes lt ↦
        let test : ltb start end ≡ true = ground arith in
        let mid = (end - start) / 2 in
        let in_range : start + mid < end = omega arith in
        elim (Compared-cases (compare (at (start + mid)) key)) [
          | inl e ↦
              rw (test, e)
                (search-Outcome o fuel (start + (mid + 1)) end (omega arith) (omega arith) c
                  (omega arith) (λ i l r. o.falls i (start + mid) l (omega arith) (omega arith) e)
                  upper)
          | inr (inl e) ↦
              let p : beg + (start - beg + mid) ≡ start + mid = omega arith in
              rw (test, e)
                (found (start - beg + mid) (omega arith) (ap (λ t. compare (at t) key) p ∙ e))
          | inr (inr e) ↦
              rw (test, e)
                (search-Outcome o fuel start (start + mid) a (omega arith) (omega arith)
                  (omega arith) lower (λ i l r. o.rises (start + mid) i (omega arith) l r e))
        ]
  ]

  -- On an array that is ordered by the comparator between two positions, and with more fuel than positions, the
  -- search ends. It gives the offset of a key that is the same, or says that there is none and gives the offset
  -- that parts the keys: all before it are below the searched key, and all from it on are above.
  pub binary_search-Outcome :
      (fuel : ℕ)
      → beg ≤ stop
      → stop - beg < fuel
      → Ordered
      → Outcome (binary_search compare at key fuel beg stop)
  unfolding binary_search
  binary_search-Outcome fuel le enough o =
      search-Outcome o fuel beg stop (omega arith) le (omega arith) enough
        (λ i l r. absurd (omega arith)) (λ i l r. absurd (omega arith))

module _ {A : Type 0} {K : Type 0} (compare : A → K → Compared) (at : ℕ → A) (key : K)
    (beg : ℕ) where
  Ordered-below :
      (stop stop' : ℕ)
      → stop' ≤ stop
      → Ordered compare at key beg stop
      → Ordered compare at key beg stop'
  Ordered-below stop stop' h o = record {
    falls = λ i j l m r. o.falls i j l m (omega arith);
    rises = λ i j l m r. o.rises i j l m (omega arith);
  }

  -- The first of the keys that are the same, or the position that parts the smaller keys from the greater.
  pub data FirstSame (stop : ℕ) : Option (Bool × ℕ) → Type 0 where
    first :
        (p : ℕ)
        → beg + p < stop
        → compare (at (beg + p)) key ≡ same
        → ((i : ℕ) → beg ≤ i → i < beg + p → compare (at i) key ≡ below)
        → FirstSame stop (some (true, p))
    none_same :
        (p : ℕ)
        → beg + p ≤ stop
        → ((i : ℕ) → beg ≤ i → i < beg + p → compare (at i) key ≡ below)
        → ((i : ℕ) → beg + p ≤ i → i < stop → compare (at i) key ≡ above)
        → FirstSame stop (some (false, p))

  -- Before a key that is the same stand keys that are below, if the one next to it is another.
  all_below :
      (stop p : ℕ)
      → Ordered compare at key beg stop
      → beg + suc p < stop
      → compare (at (beg + suc p)) key ≡ same
      → is_same (compare (at (beg + p)) key) ≡ false
      → (i : ℕ) → beg ≤ i
      → i < beg + suc p
      → compare (at i) key ≡ below
  all_below stop p o inside e other i l r = elim (Compared-cases (compare (at (beg + p)) key)) [
    | inl b ↦ o.falls i (beg + p) l (omega arith) (omega arith) b
    | inr (inl b) ↦ absurd (ground (arith, b, other))
    | inr (inr b) ↦
        let above_too = o.rises (beg + p) (beg + suc p) (omega arith) (omega arith) inside b in
        absurd (grind (arith, above_too, e))
  ]

  first_loop-FirstSame :
      (fuel stop p : ℕ)
      → Ordered compare at key beg stop
      → beg + p < stop
      → compare (at (beg + p)) key ≡ same
      → p + 1 < fuel
      → FirstSame stop (first_loop compare at key fuel beg (true, p))
  unfolding first_loop
  first_loop-FirstSame zero stop p o inside e enough = absurd (omega arith)
  first_loop-FirstSame (suc fuel) stop zero o inside e enough =
      first 0 inside e (λ i l r. absurd (omega arith))
  first_loop-FirstSame (suc fuel) stop (suc p) o inside e enough =
      let before : beg + suc p - 1 ≡ beg + p = omega arith in
      let some_before : (suc p == 0) ≡ false = ground arith in
      elim (Bool-cases (is_same (compare (at (beg + p)) key))) [
        | inr t ↦
            rw (before, some_before, t) (first (suc p) inside e (all_below stop p o inside e t))
        | inl t ↦
            rw (before, some_before, t)
              (again (λ q. first_loop-FirstSame fuel stop q o) t _
                (binary_search-Outcome compare at key beg (beg + suc p) fuel (omega arith)
                  (omega arith) (Ordered-below stop (beg + suc p) (omega arith) o)))
      ]
    where
      again :
          ((q : ℕ)
            → beg + q < stop
            → compare (at (beg + q)) key ≡ same
            → q + 1 < fuel
            → FirstSame stop (first_loop compare at key fuel beg (true, q)))
          → is_same (compare (at (beg + p)) key) ≡ true
          → (x : Option (Bool × ℕ)) → Outcome compare at key beg (beg + suc p) x
          → FirstSame stop (elim x [ none ↦ none | some q ↦ first_loop compare at key fuel beg q ])
      again rest t _ (found q l here) = rest q (omega arith) here (omega arith)
      again rest t _ (missing q l lower upper) = elim (dec_lt (beg + p) (beg + q)) [
        | yes lt ↦ absurd (grind (arith, t, lower (beg + p) (omega arith) lt))
        | no ge ↦ absurd (grind (arith, t, upper (beg + p) (omega arith) (omega arith)))
      ]

  -- On an array that is ordered by the comparator between two positions, and with more fuel than positions,
  -- `binary_search_first` ends. If it gives a position, the key there is the same and all keys before it are below;
  -- if it says that there is none, it gives the offset that parts the keys: all before it are below the searched
  -- key, and all from it on are above.
  pub binary_search_first-FirstSame :
      (fuel stop : ℕ)
      → beg ≤ stop
      → stop - beg < fuel
      → Ordered compare at key beg stop
      → FirstSame stop (binary_search_first compare at key fuel beg stop)
  unfolding binary_search_first
  binary_search_first-FirstSame fuel stop le enough o =
      after _ (binary_search-Outcome compare at key beg stop fuel le enough o)
    where
      after :
          (x : Option (Bool × ℕ))
          → Outcome compare at key beg stop x
          → FirstSame stop (elim x [
            | none ↦ none
            | some p ↦ if not p.0 then some p else first_loop compare at key fuel beg p
          ])
      after _ (found p l here) = first_loop-FirstSame fuel stop p o l here (omega arith)
      after _ (missing p l lower upper) = none_same p l lower upper

module _ {A : Type 0} {K : Type 0} (compare : A → K → Compared) (at : ℕ → A) (key : K) where
  module _ (all_same : (i : ℕ) → compare (at i) key ≡ same) where
    last_loop_endless :
        (fuel : ℕ)
        → (last_loop compare at key fuel 0 3 (true, 0) ≡ none)
          × (last_loop compare at key fuel 0 3 (true, 1) ≡ none)
    unfolding last_loop binary_search search
    last_loop_endless zero = (refl, refl)
    last_loop_endless (suc zero) = (rw (all_same 1) refl, rw (all_same 2) refl)
    last_loop_endless (suc (suc fuel)) =
        let (from_0, from_1) = last_loop_endless (suc fuel) in
        (rw (all_same 1, all_same 2) from_1, rw (all_same 2) from_0)

    -- On three positions whose keys are all the same, the search for the last of them never ends, whatever the
    -- fuel: the offsets of the inner searches, which start further on, are taken for offsets from the start.
    pub binary_search_last_endless : (fuel : ℕ) → binary_search_last compare at key fuel 0 3 ≡ none
    unfolding binary_search_last binary_search search
    binary_search_last_endless zero = refl
    binary_search_last_endless (suc fuel) = rw (all_same 1) (last_loop_endless (suc fuel)).1
