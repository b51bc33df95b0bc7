-- ===== src/Utility/FindCmp.antt =====
-- `find_cmp` of solid/utility/algorithm.hpp, whose recursion on the number of elements is one of templates.
use solidframe.Prelude.{
  ℕ, zero, suc, ◌+◌, ◌-◌, ◌/◌, ◌≤◌, ◌<◌, ◌≡◌, ◌==◌, refl, subst, Bool, true, false, Bool-cases,
  Option, none, some, ◌⊎◌, inl, inr, if◌then◌else◌, arith,
}
use native.Mathlib.Decide.{dec_lt}
use mathlib.Core.Path.{subst₂}

module _ {A : Type 0} (cmp : A → A → Bool) (at : ℕ → A) where
  -- The offset of the one of the two that comes first; the second where `cmp` does not prefer the first.
  pub prefer : ℕ → ℕ → ℕ → ℕ
  prefer it off1 off2 = if cmp (at (it + off1)) (at (it + off2)) then off1 else off2

  -- On fuel; `none` means that it ran out.
  pub find_cmp : ℕ → ℕ → ℕ → Option ℕ
  find_cmp zero it s = none
  find_cmp (suc fuel) it s =
      let left = find_cmp fuel it (s / 2) in
      let right = find_cmp fuel (it + s / 2) (s - s / 2) in
      if s == 1 then some 0 else if s == 2 then some (prefer it 0 1) else elim left [
        | none ↦ none
        | some off1 ↦ elim right [ none ↦ none | some off2 ↦ some (prefer it off1 (off2 + s / 2)) ]
      ]

  -- None of the elements comes before the one at the offset.
  pub record First (it s off : ℕ) : Type 0 where
    pub inside : off < s
    pub unbeaten : (i : ℕ) → i < s → cmp (at (it + i)) (at (it + off)) ≡ false

  module _ (asymmetric : (a b : A) → cmp a b ≡ true → cmp b a ≡ false)
      (transitive : (a b c : A) → cmp b a ≡ false → cmp c b ≡ false → cmp c a ≡ false) where
    -- The preferred one of two firsts is the first of all.
    prefer-First :
        (it k l off1 off2 : ℕ)
        → First it k off1
        → First (it + k) l off2
        → First it (k + l) (prefer it off1 (off2 + k))
    unfolding prefer
    prefer-First it k l off1 off2 f g =
        let shift : (i : ℕ) → it + k + i ≡ it + (i + k) = λ i. omega arith in
        let right : (i : ℕ) → i < l → cmp (at (it + (i + k))) (at (it + (off2 + k))) ≡ false =
          λ i h.
            subst₂ (λ t u. cmp (at t) (at u) ≡ false) (shift i) (shift off2) (g.unbeaten i h) in
        let far : (i : ℕ) → k ≤ i → i < k + l → cmp (at (it + i)) (at (it + (off2 + k))) ≡ false =
          λ i h h'.
            let e : i - k + k ≡ i = omega arith in
            subst (λ t. cmp (at (it + t)) (at (it + (off2 + k))) ≡ false) e
              (right (i - k) (omega arith)) in
        elim (Bool-cases (cmp (at (it + off1)) (at (it + (off2 + k))))) [
          | inl e ↦ rw e (record {
            inside = omega (arith, f.inside);
            unbeaten = λ i h. elim (dec_lt i k) [
              | yes lt ↦ f.unbeaten i lt
              | no ge ↦ transitive _ _ _ (asymmetric _ _ e) (far i (omega arith) h)
            ];
          })
          | inr e ↦ rw e (record {
            inside = omega (arith, g.inside);
            unbeaten = λ i h. elim (dec_lt i k) [
              | yes lt ↦ transitive _ _ _ e (f.unbeaten i lt)
              | no ge ↦ far i (omega arith) h
            ];
          })
        ]

    one-First : (it : ℕ) → First it 1 0
    one-First it = record {
      inside = omega arith;
      unbeaten = λ i h. let e : i ≡ 0 = omega arith in rw e (irreflexive (at (it + 0)));
    }
      where
        irreflexive : (a : A) → cmp a a ≡ false
        irreflexive a = elim (Bool-cases (cmp a a)) [ inl e ↦ asymmetric a a e | inr e ↦ e ]

    -- For a comparison that is asymmetric and whose negation is transitive, and with as much fuel as there are
    -- elements, of which there is one at least: `find_cmp` ends, and no element comes before the one that it finds.
    pub find_cmp-First :
        (fuel it s : ℕ)
        → 1 ≤ s
        → s ≤ fuel
        → (off : ℕ) × (find_cmp fuel it s ≡ some off) × First it s off
    unfolding find_cmp
    find_cmp-First zero it s h le = absurd (omega arith)
    find_cmp-First (suc fuel) it s h le = elim (cases s h) [
      | inl e ↦ rw e (0, refl, one-First it)
      | inr (inl e) ↦
          rw e (prefer it 0 1, refl, prefer-First it 1 1 0 0 (one-First it) (one-First (it + 1)))
      | inr (inr big) ↦
          let (off1, run1, f) = find_cmp-First fuel it (s / 2) (omega arith) (omega arith) in
          let (off2, run2, g) =
            find_cmp-First fuel (it + s / 2) (s - s / 2) (omega arith) (omega arith) in
          let one : (s == 1) ≡ false = ground arith in
          let two : (s == 2) ≡ false = ground arith in
          let whole : s / 2 + (s - s / 2) ≡ s = omega arith in
          (
            prefer it off1 (off2 + s / 2),
            rw (one, two, run1, run2) refl,
            subst (λ t. First it t (prefer it off1 (off2 + s / 2))) whole
                (prefer-First it (s / 2) (s - s / 2) off1 off2 f g),
          )
    ]
      where
        cases : (n : ℕ) → 1 ≤ n → (n ≡ 1) ⊎ (n ≡ 2) ⊎ (3 ≤ n)
        cases n h = elim (dec_lt n 2) [
          | yes lt ↦ inl (omega arith)
          | no ge ↦ elim (dec_lt n 3) [
            | yes lt ↦ inr (inl (omega arith))
            | no ge' ↦ inr (inr (omega arith))
          ]
        ]
