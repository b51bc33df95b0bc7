-- ===== src/Frame/TimeStore/Pop.antt =====
-- `pop` of solid/frame/timestore.hpp at a time.
use solidframe.Prelude.{
  ℕ, zero, suc, ◌+◌, ◌<◌, ◌≡◌, refl, Bool, true, false, not, ◌&&◌, Bool-cases, some, List, [], ◌∷◌,
  inl, inr, arith,
}
use solidframe.Prelude.Lists.{length}
use solidframe.Frame.TimeStore.{
  TimePair, TimeStore, back, but_back, replace_by_back, with_at, earlier, pop_from, pop_until,
}

abbrev one_if : Bool → ℕ
one_if true = 1
one_if false = 0

-- How many of the list pass the test.
abbrev pub count : {A : Type 0} → (A → Bool) → List A → ℕ
count p [] = 0
count p (x ∷ xs) = one_if (p x) + count p xs

count-but_back :
    {A : Type 0} (p : A → Bool) (x : A) (xs : List A)
    → one_if (p (back x xs)) + count p (but_back x xs) ≡ one_if (p x) + count p xs
unfolding back but_back
count-but_back p x [] = refl
count-but_back p x (y ∷ ys) = omega (arith, count-but_back p y ys)

length-but_back : {A : Type 0} (x : A) (xs : List A) → length (but_back x xs) ≡ length xs
unfolding but_back
length-but_back x [] = refl
length-but_back x (y ∷ ys) = omega (arith, length-but_back y ys)

-- The first is gone, and the others are there.
count-replace_by_back :
    {A : Type 0} (p : A → Bool) (x : A) (xs : List A)
    → count p (replace_by_back (x ∷ xs)) ≡ count p xs
unfolding replace_by_back
count-replace_by_back p x [] = refl
count-replace_by_back p x (y ∷ ys) = count-but_back p y ys

length-replace_by_back :
    {A : Type 0} (x : A) (xs : List A) → length (replace_by_back (x ∷ xs)) ≡ length xs
unfolding replace_by_back
length-replace_by_back x [] = refl
length-replace_by_back x (y ∷ ys) = omega (arith, length-but_back y ys)

module _ {T V : Type 0} (less : T → T → Bool) (rt : T) where
  abbrev later : TimePair T V → Bool
  later e = less rt e.first

  -- The least time of the entries and `m`, as the code compares them.
  abbrev pub least : T → List (TimePair T V) → T
  least m [] = m
  least m (e ∷ es) = least (earlier less e.first m) es

  -- The callbacks that write down the popped values.
  abbrev pub write_down : ℕ → V → List V → List V
  write_down i v vs = v ∷ vs

  abbrev pub ignore : V → ℕ → ℕ → List V → List V
  ignore v i j vs = vs

  -- What is left of the entries, and what was popped, as multisets.
  pub record Popped (xs ys : List (TimePair T V)) (vs vs' : List V) : Type 0 where
    pub kept : (q : TimePair T V → Bool) → count q ys ≡ count (λ e. less rt e.first && q e) xs
    pub popped :
        (p : V → Bool)
        → count p vs' ≡ count (λ e. not (less rt e.first) && p e.second) xs + count p vs

  with_ignore :
      (i : ℕ) (n m : ℕ) (xs : List (TimePair T V)) (vs : List V)
      → with_at i xs (λ e. ignore e.second n m) vs ≡ vs
  unfolding with_at
  with_ignore i n m [] vs = refl
  with_ignore zero n m (x ∷ xs) vs = refl
  with_ignore (suc i) n m (x ∷ xs) vs = with_ignore i n m xs vs

  pop_from-Popped :
      (fuel i : ℕ) (xs : List (TimePair T V)) (m : T) (vs : List V)
      → length xs < fuel
      → (ys : List (TimePair T V)) × (vs' : List V) × (pop_from less rt write_down ignore fuel i xs
            m vs
          ≡ some (ys, least m ys, vs'))
        × Popped xs ys vs vs'
  unfolding pop_from
  pop_from-Popped zero i xs m vs h = absurd (omega arith)
  pop_from-Popped (suc fuel) i [] m vs h =
      ([], vs, refl, record { kept = λ q. refl; popped = λ p. omega arith })
  pop_from-Popped (suc fuel) i (x ∷ xs) m vs h = elim (Bool-cases (less rt x.first)) [
    | inl e ↦
        let (ys, vs', run, r) =
          pop_from-Popped fuel (i + 1) xs (earlier less x.first m) vs (omega arith) in
        (
          x ∷ ys,
          vs',
          rw (e, run) refl,
          record {
            kept = λ q. rw e (omega (arith, r.kept q));
            popped = λ p. rw e (omega (arith, r.popped p));
          },
        )
    | inr e ↦
        let moved = replace_by_back (x ∷ xs) in
        let (ys, vs', run, r) =
          pop_from-Popped fuel i moved m (x.second ∷ vs)
            (omega (arith, length-replace_by_back x xs)) in
        (
          ys,
          vs',
          rw (e, with_ignore zero i (i + length xs) moved vs, run) refl,
          record {
            kept = λ q.
                rw e (
                  omega
                    (arith, r.kept q, count-replace_by_back (λ t. less rt t.first && q t) x xs));
            popped = λ p. rw e (
                omega (
                  arith,
                  r.popped p,
                  count-replace_by_back (λ t. not (less rt t.first) && p t.second) x xs,
                ));
          },
        )
  ]

  -- With more fuel than entries, and with a first function that writes down the values it is called
  -- with and a second that does nothing, `pop` at a time ends. The entries after are, as a multiset,
  -- those before that are due later than that time; the values written down are, as a multiset, those
  -- of all other entries; and the next time is the least time of the entries that are left, or the
  -- maximum.
  pub pop_until-Popped :
      (maximum : T) (fuel : ℕ) (ts : TimeStore T V)
      → length ts.tv < fuel
      → (ys : List (TimePair T V)) × (vs : List V) × (pop_until less maximum rt write_down ignore
            fuel ts []
          ≡ some (record { tv = ys; mint = least maximum ys }, vs))
        × Popped ts.tv ys [] vs
  unfolding pop_until
  pop_until-Popped maximum fuel ts h =
      let (ys, vs, run, r) = pop_from-Popped fuel 0 ts.tv maximum [] h in
      (ys, vs, rw (run, pop_until) refl, r)
