-- ===== src/Utility/InnerList/Walk.antt =====
-- `contains`, `check`, and the loops `clear` and `forEach`.
use solidframe.Prelude.{
  ℕ, zero, suc, ◌<◌, ◌≡◌, true, false, refl, sym, subst, ap, ◌∙◌, inl, inr, Option, some, List, [],
  ◌∷◌, ◌++◌, ◌==◌, zero_test, suc_test, arith,
}
use solidframe.Prelude.Lists.{length, length-append}
use solidframe.Utility.InnerList.{
  Links, InnerList, invalid_index, clear_link, pop_front, check, contains, clear, for_each,
}
use solidframe.Utility.InnerList.Chain.{
  NotIn, Below, Chain, IsList, first, last, ne-last, last-lt, Chain-append, Below-append,
  Distinct-append, NotIn-append, Apart-cons, snoc_cases,
}
use solidframe.Utility.InnerList.Erase.{
  pop_front_lem, pop_front-IsList, erase_cleared, erase_elsewhere,
}

module _ (ls : Links) (l : InnerList) (i : ℕ) where
  contains_by_prev : (p : ℕ) → (ls i).prev ≡ p → p < invalid_index → contains ls l i ≡ true
  unfolding contains
  contains_by_prev p e h = ground arith

  contains_by_next : (n : ℕ) → (ls i).next ≡ n → n < invalid_index → contains ls l i ≡ true
  unfolding contains
  contains_by_next n e h = ground arith

  contains_by_front : l.front ≡ i → contains ls l i ≡ true
  unfolding contains
  contains_by_front e = ground arith

-- `contains` answers true for every index that the links and the list hold.
pub contains_member :
    (ls : Links) (l : InnerList) (i : ℕ) (us vs : List ℕ)
    → IsList ls l (us ++ i ∷ vs)
    → contains ls l i ≡ true
contains_member ls l i [] [] v = contains_by_front ls l i v.front_last
contains_member ls l i [] (y ∷ vs) v = contains_by_next ls l i y v.linked.1 v.valid.1.0
contains_member ls l i (u ∷ us) vs v =
    let (fore, aft) = Chain-append ls invalid_index invalid_index (u ∷ us) (i ∷ vs) v.linked in
    contains_by_prev ls l i (last u us) aft.0
      (last-lt u us (Below-append invalid_index (u ∷ us) (i ∷ vs) v.valid).0)

-- `contains` answers false for a valid index that the links and the list do not hold and whose own
-- link is clear.
pub contains_stranger :
    (ls : Links) (l : InnerList) (i : ℕ) (xs : List ℕ)
    → i < invalid_index
    → IsList ls l xs
    → NotIn i xs
    → ls i ≡ clear_link
    → contains ls l i ≡ false
unfolding contains
contains_stranger ls l i [] ok v h e = rw e (ground (arith, v.front_last))
contains_stranger ls l i (x ∷ xs) ok v h e = rw e (ground (arith, v.front_last, ne-last i x xs h))

-- `check` passes on every list.
pub check_lem : (ls : Links) (l : InnerList) (xs : List ℕ) → IsList ls l xs → check l ≡ true
unfolding check
check_lem ls l [] v = ground arith
check_lem ls l (x ∷ xs) v = ground (arith, last-lt x xs v.valid)

abbrev pub Cleared : Links → List ℕ → Type 0
Cleared ls [] = Unit {0}
Cleared ls (x ∷ xs) = (ls x ≡ clear_link) × Cleared ls xs

append-Cleared :
    (ls : Links) (us vs : List ℕ) → Cleared ls us → Cleared ls vs → Cleared ls (us ++ vs)
append-Cleared ls [] vs h k = k
append-Cleared ls (u ∷ us) vs h k = (h.0, append-Cleared ls us vs h.1 k)

-- `clear` ends, and leaves an empty list: the links that were the list's are clear, no other changes.
abbrev pub Clears : Links → List ℕ → Option (Links × InnerList) → Type 0
Clears ls xs result =
    (after : Links × InnerList) × (result ≡ some after)
    × IsList after.0 after.1 []
    × Cleared after.0 xs
    × ((j : ℕ) → NotIn j xs → after.0 j ≡ ls j)

-- With more fuel than indices, `clear` ends on links and a list that hold the indices `xs`: the list
-- is empty, the links of every index of `xs` are cleared, and all other links are as before.
pub clear-Clears :
    (fuel : ℕ) (ls : Links) (l : InnerList) (xs : List ℕ)
    → length xs < fuel
    → IsList ls l xs
    → Clears ls xs (clear fuel ls l)
unfolding clear
clear-Clears zero ls l xs h v = absurd (omega arith)
clear-Clears (suc fuel) ls l xs h v = elim (snoc_cases xs) [
  | inl e ↦
      let v' : IsList ls l [] = subst (IsList ls l) e v in
      let done : (l.size == 0) ≡ true = zero_test l.size v'.size_length in
      rw (done, e) ((ls, l), refl, v', tt, λ j _. refl)
  | inr (us, x, e) ↦
      let v' : IsList ls l (us ++ x ∷ []) = subst (IsList ls l) e v in
      let popped = pop_front_lem ls l x us v' in
      let count = length-append us (x ∷ []) in
      let (after, done, w, cleared, same) =
        clear-Clears fuel (pop_front ls l).0 (pop_front ls l).1 us
          (omega (arith, ap length e, count)) (pop_front-IsList ls l x us v') in
      let more : (l.size == 0) ≡ false =
        suc_test l.size (length us) (omega (arith, v'.size_length, count)) in
      let apart = (Distinct-append us (x ∷ []) v'.distinct).2 in
      let still : after.0 x ≡ clear_link =
        same x (Apart-cons x us [] apart).0
        ∙ ap (λ t. t.0 x) popped
        ∙ erase_cleared ls l x us [] v' in
      rw (more, e)
        (
          after,
          done,
          w,
          append-Cleared after.0 us (x ∷ []) cleared (still, tt),
          λ j h.
              same j (NotIn-append j us (x ∷ []) h).0
              ∙ ap (λ t. t.0 j) popped
              ∙ erase_elsewhere ls l x us [] v' j h,
        )
]

abbrev pub visit {ℓ} : {S : Type ℓ} → (ℕ → S → S) → List ℕ → S → S
visit f [] s = s
visit f (x ∷ xs) s = visit f xs (f x s)

module _ {ℓ} {S : Type ℓ} (links : S → Links) (f : ℕ → S → S) where
  -- With a callback that leaves the links alone, and more fuel than indices, the walk from the first
  -- of a chain of valid indices ends, and has applied the callback to each index once, in the chain's
  -- order.
  pub for_each-visit :
      ((i : ℕ) (s : S) → links (f i s) ≡ links s)
      → (fuel : ℕ) (s : S) (p : ℕ) (xs : List ℕ) → length xs < fuel
      → Below invalid_index xs
      → Chain (links s) p xs invalid_index
      → for_each links f fuel (first xs invalid_index) s ≡ some (visit f xs s)
  unfolding for_each
  for_each-visit keep zero s p xs h b c = absurd (omega arith)
  for_each-visit keep (suc fuel) s p [] h b c = refl
  for_each-visit keep (suc fuel) s p (x ∷ xs) h b c =
      let more : (x == invalid_index) ≡ false = ground arith in
      rw (more, c.1)
        (for_each-visit keep fuel (f x s) x xs (omega arith) b.1
          (subst (λ t. Chain t x xs invalid_index) (sym (keep x s)) c.2))
