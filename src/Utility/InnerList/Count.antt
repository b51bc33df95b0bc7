-- ===== src/Utility/InnerList/Count.antt =====
-- The length of a list of distinct indices, for the size of an `InnerList`.
use solidframe.Prelude.{ℕ, zero, suc, ◌+◌, ◌≤◌, List, [], ◌∷◌, ◌==◌, if◌then◌else◌, arith}
use solidframe.Prelude.Lists.{length}
use solidframe.Utility.InnerList.Chain.{NotIn, Distinct, Below}

remove : ℕ → List ℕ → List ℕ
remove n [] = []
remove n (x ∷ xs) = if x == n then xs else x ∷ remove n xs

length-remove : (n : ℕ) (xs : List ℕ) → length xs ≤ length (remove n xs) + 1
unfolding remove
length-remove n [] = omega arith
length-remove n (x ∷ xs) = ground (arith, length-remove n xs)

NotIn-remove : (i n : ℕ) (xs : List ℕ) → NotIn i xs → NotIn i (remove n xs)
unfolding remove
NotIn-remove i n [] h = tt
NotIn-remove i n (x ∷ xs) h = ground (arith, NotIn-remove i n xs)

remove-Distinct : (n : ℕ) (xs : List ℕ) → Distinct xs → Distinct (remove n xs)
unfolding remove
remove-Distinct n [] h = tt
remove-Distinct n (x ∷ xs) h = ground (arith, remove-Distinct n xs, NotIn-remove x n xs)

NotIn-Below : (n : ℕ) (xs : List ℕ) → NotIn n xs → Below (suc n) xs → Below n xs
NotIn-Below n [] h b = tt
NotIn-Below n (x ∷ xs) (ne, h) b = (omega arith, NotIn-Below n xs h b.1)

remove-Below : (n : ℕ) (xs : List ℕ) → Distinct xs → Below (suc n) xs → Below n (remove n xs)
unfolding remove
remove-Below n [] d b = tt
remove-Below n (x ∷ xs) d b = ground (arith, remove-Below n xs, NotIn-Below n xs)

pub length-le_of_Below : (n : ℕ) (xs : List ℕ) → Distinct xs → Below n xs → length xs ≤ n
length-le_of_Below zero [] d b = omega arith
length-le_of_Below zero (x ∷ xs) d b = absurd (omega arith)
length-le_of_Below (suc n) xs d b = omega (
  arith,
  length-remove n xs,
  length-le_of_Below n (remove n xs) (remove-Distinct n xs d) (remove-Below n xs d b),
)
