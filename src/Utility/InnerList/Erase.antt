-- ===== src/Utility/InnerList/Erase.antt =====
-- `erase` and `popFront` of innerlist.hpp on a list of indices.
use solidframe.Prelude.{
  ℕ, ◌<◌, ◌≡◌, true, false, append-nil, refl, sym, ◌∙◌, List, [], ◌∷◌, ◌++◌, ◌==◌, arith,
}
use mathlib.Core.Path.{ap₂, ap}
use solidframe.Prelude.Lists.{length-append}
use solidframe.Utility.InnerList.{
  Links, InnerList, invalid_index, clear_link, set_prev, set_next, unlink_prev, unlink_next, erase,
  pop_front,
}
use solidframe.Utility.InnerList.Chain.{
  NotIn, Distinct, Below, Chain, IsList, first, last, update_self, update_ne, Chain-update,
  relink_first, relink_last, Chain-append, append-Chain, ne-last, last-lt, Distinct-append,
  append-Distinct, append-Below, last-NotIn, Below-append, Apart-cons, NotIn-append, last-append,
}
use solidframe.Utility.InnerList.Count.{length-le_of_Below}

module _ (ls : Links) (l : InnerList) (x : ℕ) where
  unlink_prev_first :
      (ls x).prev ≡ invalid_index
      → unlink_prev x ls l ≡ (ls, record { size = l.size; back = (ls x).next; front = l.front })
  unfolding unlink_prev
  unlink_prev_first e =
      let at_end : ((ls x).prev == invalid_index) ≡ true = ground arith in rw at_end

  unlink_prev_inner :
      (p n : ℕ)
      → (ls x).prev ≡ p
      → (ls x).next ≡ n
      → p < invalid_index
      → unlink_prev x ls l ≡ (set_next ls p n, l)
  unfolding unlink_prev
  unlink_prev_inner p n e f lt =
      let inner : ((ls x).prev == invalid_index) ≡ false = ground arith in
      rw inner (ap₂ (λ t w. (set_next ls t w, l)) e f)

  unlink_next_last :
      (ls x).next ≡ invalid_index
      → unlink_next x ls l ≡ (ls, record { size = l.size; back = l.back; front = (ls x).prev })
  unfolding unlink_next
  unlink_next_last e =
      let at_end : ((ls x).next == invalid_index) ≡ true = ground arith in rw at_end

  unlink_next_inner :
      (p n : ℕ)
      → (ls x).prev ≡ p
      → (ls x).next ≡ n
      → n < invalid_index
      → unlink_next x ls l ≡ (set_prev ls n p, l)
  unfolding unlink_next
  unlink_next_inner p n e f lt =
      let inner : ((ls x).next == invalid_index) ≡ false = ground arith in
      rw inner (ap₂ (λ w t. (set_prev ls t w, l)) e f)

-- After the first half the nodes before `x` end at what follows it, and `x` still reads as it did.
record PrevDone (ls : Links) (l : InnerList) (x : ℕ) (us vs : List ℕ) (r : Links × InnerList)
    : Type 0 where
  before : Chain r.0 invalid_index us (first vs invalid_index)
  behind : Chain r.0 (last invalid_index us) (x ∷ vs) invalid_index
  back_first : r.1.back ≡ first (us ++ vs) invalid_index
  front_same : r.1.front ≡ l.front
  size_same : r.1.size ≡ l.size
  elsewhere : (j : ℕ) → NotIn j us → r.0 j ≡ ls j

unlink_prev-PrevDone :
    (ls : Links) (l : InnerList) (x : ℕ) (us vs : List ℕ)
    → IsList ls l (us ++ x ∷ vs)
    → PrevDone ls l x us vs (unlink_prev x ls l)
unlink_prev-PrevDone ls l x [] vs v = rw (unlink_prev_first ls l x v.linked.0) record {
  before = tt;
  behind = v.linked;
  back_first = v.linked.1;
  front_same = refl;
  size_same = refl;
  elsewhere = λ j h. refl;
}
unlink_prev-PrevDone ls l x (u ∷ us) vs v =
    let (fore, aft) = Chain-append ls invalid_index invalid_index (u ∷ us) (x ∷ vs) v.linked in
    let (d, e, apart) = Distinct-append (u ∷ us) (x ∷ vs) v.distinct in
    let below = (Below-append invalid_index (u ∷ us) (x ∷ vs) v.valid).0 in
    rw (unlink_prev_inner ls l x (last u us) _ aft.0 aft.1 (last-lt u us below)) record {
      before = relink_last ls invalid_index (first vs invalid_index) x u us d fore;
      behind =
          Chain-update ls (last u us) (last u us) invalid_index _ (x ∷ vs)
            (last-NotIn u us (x ∷ vs) apart) aft;
      back_first = v.back_first;
      front_same = refl;
      size_same = refl;
      elsewhere = λ j h. update_ne ls (last u us) j _ (ne-last j u us h);
    }

-- After the second half `x` is linked by no other node.
record NextDone (ls : Links) (l : InnerList) (x : ℕ) (us vs : List ℕ) (r : Links × InnerList)
    : Type 0 where
  before : Chain r.0 invalid_index us (first vs invalid_index)
  behind : Chain r.0 (last invalid_index us) vs invalid_index
  back_same : r.1.back ≡ l.back
  front_last : r.1.front ≡ last invalid_index (us ++ vs)
  size_same : r.1.size ≡ l.size
  elsewhere : (j : ℕ) → NotIn j vs → r.0 j ≡ ls j

unlink_next-NextDone :
    (ls : Links) (l : InnerList) (x : ℕ) (us vs : List ℕ)
    → Distinct (us ++ x ∷ vs)
    → Below invalid_index (us ++ x ∷ vs)
    → l.front ≡ last invalid_index (us ++ x ∷ vs)
    → Chain ls invalid_index us (first vs invalid_index)
    → Chain ls (last invalid_index us) (x ∷ vs) invalid_index
    → NextDone ls l x us vs (unlink_next x ls l)
unlink_next-NextDone ls l x us [] d b f fore aft = rw (unlink_next_last ls l x aft.1) record {
  before = fore;
  behind = tt;
  back_same = refl;
  front_last = rw (append-nil us) aft.0;
  size_same = refl;
  elsewhere = λ j h. refl;
}
unlink_next-NextDone ls l x us (y ∷ vs) d b f fore aft =
    let (du, dv, apart) = Distinct-append us (x ∷ y ∷ vs) d in
    let below = (Below-append invalid_index us (x ∷ y ∷ vs) b).1 in
    rw (unlink_next_inner ls l x _ y aft.0 aft.1 below.1.0) record {
      before =
          Chain-update ls y invalid_index y _ us
            (Apart-cons y us vs (Apart-cons x us (y ∷ vs) apart).1).0 fore;
      behind = relink_first ls x (last invalid_index us) invalid_index y vs dv.1.0 aft.2;
      back_same = refl;
      front_last =
          f
          ∙ last-append invalid_index us (x ∷ y ∷ vs)
          ∙ sym (last-append invalid_index us (y ∷ vs));
      size_same = refl;
      elsewhere = λ j h. update_ne ls y j _ h.0;
    }

module _ (ls : Links) (l : InnerList) (x : ℕ) (us vs : List ℕ)
    (v : IsList ls l (us ++ x ∷ vs)) where
  prev_done : PrevDone ls l x us vs (unlink_prev x ls l)
  prev_done = unlink_prev-PrevDone ls l x us vs v

  abbrev half : Links × InnerList
  half = unlink_prev x ls l

  abbrev whole : Links × InnerList
  whole = unlink_next x half.0 half.1

  next_done : NextDone half.0 half.1 x us vs (unlink_next x half.0 half.1)
  next_done =
      unlink_next-NextDone half.0 half.1 x us vs v.distinct v.valid
        (prev_done.front_same ∙ v.front_last) prev_done.before prev_done.behind

  -- On links and a list that hold the indices `us`, `x` and `vs` in that order, `erase x` leaves links
  -- and a list that hold `us` and `vs` in that order.
  pub erase-IsList : IsList (erase x ls l).0 (erase x ls l).1 (us ++ vs)
  unfolding erase
  erase-IsList =
      let (du, dv, apart) = Distinct-append us (x ∷ vs) v.distinct in
      let (bu, bv) = Below-append invalid_index us (x ∷ vs) v.valid in
      let (not_us, apart') = Apart-cons x us vs apart in
      record {
        linked =
            append-Chain _ _ _ us vs (Chain-update _ x _ _ _ us not_us next_done.before)
              (Chain-update _ x _ _ _ vs dv.0 next_done.behind);
        back_first = next_done.back_same ∙ prev_done.back_first;
        front_last = next_done.front_last;
        size_length = omega (
          arith,
          next_done.size_same,
          prev_done.size_same,
          v.size_length,
          length-append us (x ∷ vs),
          length-append us vs,
          length-le_of_Below invalid_index (us ++ x ∷ vs) v.distinct v.valid,
        );
        distinct = append-Distinct us vs du dv.1 apart';
        valid = append-Below invalid_index us vs bu bv.1;
      }

  -- Its link is cleared, and only the links of the list change.
  pub erase_cleared : (erase x ls l).0 x ≡ clear_link
  unfolding erase
  erase_cleared = update_self whole.0 x clear_link

  pub erase_elsewhere : (j : ℕ) → NotIn j (us ++ x ∷ vs) → (erase x ls l).0 j ≡ ls j
  unfolding erase
  erase_elsewhere j h =
      let (hu, hv) = NotIn-append j us (x ∷ vs) h in
      update_ne whole.0 x j clear_link hv.0 ∙ next_done.elsewhere j hv.1 ∙ prev_done.elsewhere j hu

module _ (ls : Links) (l : InnerList) (x : ℕ) (us : List ℕ) (v : IsList ls l (us ++ x ∷ [])) where
  -- The front is the last of the list.
  pub front_lem : l.front ≡ x
  front_lem = v.front_last ∙ last-append invalid_index us (x ∷ [])

  -- `pop_front` erases the front and returns it.
  pub pop_front_lem : pop_front ls l ≡ ((erase x ls l).0, (erase x ls l).1, x)
  unfolding pop_front
  pop_front_lem = ap (λ t. ((erase t ls l).0, (erase t ls l).1, t)) front_lem

  -- On links and a list that hold the indices `us` followed by `x`, from the back to the front,
  -- `pop_front` leaves links and a list that hold `us`.
  pub pop_front-IsList : IsList (pop_front ls l).0 (pop_front ls l).1 us
  pop_front-IsList = rw pop_front_lem (rw append-nil at (erase-IsList ls l x us [] v))
