-- ===== src/Utility/InnerList/Push.antt =====
-- `pushBack` and `pushFront` of innerlist.hpp on a list of indices.
use solidframe.Prelude.{
  ℕ, ◌+◌, ◌<◌, ◌≡◌, ◌≢◌, false, refl, sym, ◌∙◌, List, [], ◌∷◌, ◌++◌, ◌==◌, arith,
}
use solidframe.Prelude.Lists.{length, length-append}
use solidframe.Utility.InnerList.{
  Links, InnerList, invalid_index, update, increment, set_prev, set_next, push_back, push_front,
}
use solidframe.Utility.InnerList.Chain.{
  NotIn, Distinct, Below, IsList, last, update_self, update_ne, Chain-update, relink_first,
  relink_last, append-Chain, ne-last, last-lt, append-Distinct, append-Below, last-append,
  cons-Apart, Apart-nil,
}
use solidframe.Utility.InnerList.Count.{length-le_of_Below}

module _ (ls : Links) (l : InnerList) (index : ℕ) where
  abbrev back_link : ℕ → Links
  back_link b = update ls index (record { prev = invalid_index; next = b })

  push_back_nil :
      l.back ≡ invalid_index
      → push_back index ls l
        ≡ (back_link invalid_index, record { size = increment l.size; back = index; front = index })
  unfolding push_back
  push_back_nil e = rw e

  push_back_cons :
      (b : ℕ)
      → l.back ≡ b
      → b < invalid_index
      → push_back index ls l ≡ (
        set_prev (back_link b) b index,
        record { size = increment l.size; back = index; front = l.front },
      )
  unfolding push_back
  push_back_cons b e lt = let ne : (b == invalid_index) ≡ false = ground arith in rw (e, ne)

  abbrev front_link : ℕ → Links
  front_link f = update ls index (record { prev = f; next = invalid_index })

  push_front_nil :
      l.front ≡ invalid_index
      → push_front index ls l ≡ (
        front_link invalid_index,
        record { size = increment l.size; back = index; front = index },
      )
  unfolding push_front
  push_front_nil e = rw e

  push_front_cons :
      (f : ℕ)
      → l.front ≡ f
      → f < invalid_index
      → push_front index ls l ≡ (
        set_next (front_link f) f index,
        record { size = increment l.size; back = l.back; front = index },
      )
  unfolding push_front
  push_front_cons f e lt = let ne : (f == invalid_index) ≡ false = ground arith in rw (e, ne)

pub increment-length :
    (n index : ℕ) (xs : List ℕ)
    → n ≡ length xs
    → index < invalid_index
    → NotIn index xs
    → Distinct xs
    → Below invalid_index xs
    → increment n ≡ length xs + 1
increment-length n index xs e ok h d b =
    omega (arith, length-le_of_Below invalid_index (index ∷ xs) (h, d) (ok, b))

-- On links and a list that hold the indices `xs`, pushing a valid index that is none of them to the
-- back makes it the first: the new links and list hold it followed by `xs`.
pub push_back-IsList :
    (ls : Links) (l : InnerList) (index : ℕ) (xs : List ℕ)
    → index < invalid_index
    → NotIn index xs
    → IsList ls l xs
    → IsList (push_back index ls l).0 (push_back index ls l).1 (index ∷ xs)
push_back-IsList ls l index [] ok h v = rw (push_back_nil ls l index v.back_first) record {
  linked = rw (update_self ls index _) (refl, refl, tt);
  back_first = refl;
  front_last = refl;
  size_length = omega (arith, v.size_length);
  distinct = (tt, tt);
  valid = (ok, tt);
}
push_back-IsList ls l index (x ∷ xs) ok h v =
    rw (push_back_cons ls l index x v.back_first v.valid.0) record {
      linked =
          rw (update_ne (back_link ls l index x) x index _ h.0, update_self ls index _)
            (
              refl,
              refl,
              relink_first (back_link ls l index x) _ index _ x xs v.distinct.0
                  (Chain-update ls index _ _ _ (x ∷ xs) h v.linked),
            );
      back_first = refl;
      front_last = v.front_last;
      size_length =
          omega
            (arith, increment-length l.size index (x ∷ xs) v.size_length ok h v.distinct v.valid);
      distinct = (h, v.distinct);
      valid = (ok, v.valid);
    }

front_cons :
    (ls : Links) (l : InnerList) (index x : ℕ) (xs : List ℕ)
    → index < invalid_index
    → NotIn index (x ∷ xs)
    → IsList ls l (x ∷ xs)
    → IsList
        (set_next (front_link ls l index (last x xs)) (last x xs) index)
        (record { size = increment l.size; back = l.back; front = index })
        ((x ∷ xs) ++ index ∷ [])
front_cons ls l index x xs ok h v = record {
  linked =
      append-Chain _ _ _ (x ∷ xs) (index ∷ [])
        (relink_last (front_link ls l index (last x xs)) _ index _ x xs v.distinct
          (Chain-update ls index _ _ _ (x ∷ xs) h v.linked))
        (rw
          (
            update_ne (front_link ls l index (last x xs)) (last x xs) index _
                (ne-last index x xs h),
            update_self ls index _,
          )
          (refl, refl, tt));
  back_first = v.back_first;
  front_last = sym (last-append x xs (index ∷ []));
  size_length = omega (
    arith,
    increment-length l.size index (x ∷ xs) v.size_length ok h v.distinct v.valid,
    length-append (x ∷ xs) (index ∷ []),
  );
  distinct =
      append-Distinct (x ∷ xs) (index ∷ []) v.distinct (tt, tt)
        (cons-Apart index (x ∷ xs) [] h (Apart-nil (x ∷ xs)));
  valid = append-Below invalid_index (x ∷ xs) (index ∷ []) v.valid (ok, tt);
}

-- On links and a list that hold the indices `xs`, pushing a valid index that is none of them to the
-- front makes it the last: the new links and list hold `xs` followed by it.
pub push_front-IsList :
    (ls : Links) (l : InnerList) (index : ℕ) (xs : List ℕ)
    → index < invalid_index
    → NotIn index xs
    → IsList ls l xs
    → IsList (push_front index ls l).0 (push_front index ls l).1 (xs ++ index ∷ [])
push_front-IsList ls l index [] ok h v = rw (push_front_nil ls l index v.front_last) record {
  linked = rw (update_self ls index _) (refl, refl, tt);
  back_first = refl;
  front_last = refl;
  size_length = omega (arith, v.size_length);
  distinct = (tt, tt);
  valid = (ok, tt);
}
push_front-IsList ls l index (x ∷ xs) ok h v =
    rw (push_front_cons ls l index (last x xs) v.front_last (last-lt x xs v.valid))
      (front_cons ls l index x xs ok h v)

-- A push writes to the links of the index and of the list alone.
pub push_back_elsewhere :
    (ls : Links) (l : InnerList) (index j : ℕ) (xs : List ℕ)
    → IsList ls l xs
    → j ≢ index
    → NotIn j xs
    → (push_back index ls l).0 j ≡ ls j
push_back_elsewhere ls l index j [] v ne h =
    rw (push_back_nil ls l index v.back_first) (update_ne ls index j _ ne)
push_back_elsewhere ls l index j (x ∷ xs) v ne h =
    rw (push_back_cons ls l index x v.back_first v.valid.0)
      (update_ne (back_link ls l index x) x j _ h.0 ∙ update_ne ls index j _ ne)

pub push_front_elsewhere :
    (ls : Links) (l : InnerList) (index j : ℕ) (xs : List ℕ)
    → IsList ls l xs
    → j ≢ index
    → NotIn j xs
    → (push_front index ls l).0 j ≡ ls j
push_front_elsewhere ls l index j [] v ne h =
    rw (push_front_nil ls l index v.front_last) (update_ne ls index j _ ne)
push_front_elsewhere ls l index j (x ∷ xs) v ne h =
    rw (push_front_cons ls l index (last x xs) v.front_last (last-lt x xs v.valid)) (
      update_ne (front_link ls l index (last x xs)) (last x xs) j _ (ne-last j x xs h)
      ∙ update_ne ls index j _ ne)
