-- ===== src/Mpipc/Pool/Asyncs.antt =====
-- The asynchronous messages among those of an order list of `ConnectionPoolStub` of mpipcservice.cpp.
use solidframe.Prelude.{
  ℕ, ◌≡◌, ◌≢◌, refl, sym, ap, ◌∙◌, Bool, Bool-cases, inl, inr, List, [], ◌∷◌, ◌++◌, if◌then◌else◌,
}
use solidframe.Utility.InnerList.Chain.{NotIn}
use solidframe.Mpipc.Message.{is_asynchronous}
use solidframe.Mpipc.Pool.{PoolMessage}

abbrev pub is_async : (ℕ → PoolMessage) → ℕ → Bool
is_async m i = is_asynchronous (m i).msgbundle.message_flags

-- In the order of the list.
unfoldable pub asyncs : (ℕ → PoolMessage) → List ℕ → List ℕ
asyncs m [] = []
asyncs m (i ∷ os) = let rest = asyncs m os in if is_async m i then i ∷ rest else rest

pub asyncs-NotIn : (m : ℕ → PoolMessage) (i : ℕ) (os : List ℕ) → NotIn i os → NotIn i (asyncs m os)
unfolding asyncs
asyncs-NotIn m i [] h = tt
asyncs-NotIn m i (j ∷ os) h = elim (Bool-cases (is_async m j)) [
  | inl e ↦ rw e (h.0, asyncs-NotIn m i os h.1)
  | inr e ↦ rw e (asyncs-NotIn m i os h.1)
]

pub asyncs-append :
    (m : ℕ → PoolMessage) (us vs : List ℕ) → asyncs m (us ++ vs) ≡ asyncs m us ++ asyncs m vs
unfolding asyncs
asyncs-append m [] vs = refl
asyncs-append m (i ∷ us) vs = elim (Bool-cases (is_async m i)) [
  | inl e ↦ rw e (ap (λ t. i ∷ t) (asyncs-append m us vs))
  | inr e ↦ rw e (asyncs-append m us vs)
]

-- Another message does not matter.
pub asyncs-frame :
    (m m' : ℕ → PoolMessage) (i : ℕ) (os : List ℕ)
    → NotIn i os
    → ((j : ℕ) → j ≢ i → is_async m' j ≡ is_async m j)
    → asyncs m' os ≡ asyncs m os
unfolding asyncs
asyncs-frame m m' i [] n same = refl
asyncs-frame m m' i (j ∷ os) n same =
    ap (λ t. if is_async m' j then j ∷ t else t) (asyncs-frame m m' i os n.1 same)
    ∙ ap (λ b. if b then j ∷ asyncs m os else asyncs m os) (same j (λ e. n.0 (sym e)))

pub asyncs-same :
    (m m' : ℕ → PoolMessage) (os : List ℕ)
    → ((j : ℕ) → is_async m' j ≡ is_async m j)
    → asyncs m' os ≡ asyncs m os
unfolding asyncs
asyncs-same m m' [] same = refl
asyncs-same m m' (j ∷ os) same =
    ap (λ t. if is_async m' j then j ∷ t else t) (asyncs-same m m' os same)
    ∙ ap (λ b. if b then j ∷ asyncs m os else asyncs m os) (same j)
