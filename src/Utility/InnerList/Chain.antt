-- ===== src/Utility/InnerList/Chain.antt =====
-- What it means that links and the fields of an `InnerList` hold a list of indices.
use solidframe.Prelude.{ℕ, ◌<◌, ◌≤◌, ◌≡◌, ◌≢◌, refl, sym, ◌⊎◌, inl, inr, List, [], ◌∷◌, ◌++◌, arith}
use solidframe.Prelude.Lists.{length}
use solidframe.Utility.InnerList.{
  clear_link, InnerLink, Links, InnerList, invalid_index, update, set_prev, set_next,
}

-- `i` is none of the list.
abbrev pub NotIn : ℕ → List ℕ → Type 0
NotIn i [] = Unit {0}
NotIn i (x ∷ xs) = (i ≢ x) × NotIn i xs

abbrev pub Distinct : List ℕ → Type 0
Distinct [] = Unit {0}
Distinct (x ∷ xs) = NotIn x xs × Distinct xs

-- No index stands in both lists.
abbrev pub Apart : List ℕ → List ℕ → Type 0
Apart [] ys = Unit {0}
Apart (x ∷ xs) ys = NotIn x ys × Apart xs ys

abbrev pub Below : ℕ → List ℕ → Type 0
Below n [] = Unit {0}
Below n (x ∷ xs) = (x < n) × Below n xs

abbrev pub Valid : List ℕ → Type 0
Valid = Below invalid_index

abbrev pub first : List ℕ → ℕ → ℕ
first [] n = n
first (x ∷ xs) n = x

abbrev pub last : ℕ → List ℕ → ℕ
last p [] = p
last p (x ∷ xs) = last x xs

-- The nodes of the list are linked in its order, between `p` and `n`.
abbrev pub Chain : Links → ℕ → List ℕ → ℕ → Type 0
Chain ls p [] n = Unit {0}
Chain ls p (x ∷ xs) n = ((ls x).prev ≡ p) × ((ls x).next ≡ first xs n) × Chain ls x xs n

-- The list from the back to the front.
pub record IsList (ls : Links) (l : InnerList) (xs : List ℕ) : Type 0 where
  pub linked : Chain ls invalid_index xs invalid_index
  pub back_first : l.back ≡ first xs invalid_index
  pub front_last : l.front ≡ last invalid_index xs
  pub size_length : l.size ≡ length xs
  pub distinct : Distinct xs
  pub valid : Valid xs

pub update_self : (ls : Links) (i : ℕ) (v : InnerLink) → update ls i v i ≡ v
unfolding update
update_self ls i v = ground arith

pub update_ne : (ls : Links) (i j : ℕ) (v : InnerLink) → j ≢ i → update ls i v j ≡ ls j
unfolding update
update_ne ls i j v h = ground arith

pub NotIn-append : (i : ℕ) (us vs : List ℕ) → NotIn i (us ++ vs) → NotIn i us × NotIn i vs
NotIn-append i [] vs h = (tt, h)
NotIn-append i (a ∷ us) vs h = let (l, r) = NotIn-append i us vs h.1 in ((h.0, l), r)

pub append-NotIn : (i : ℕ) (us vs : List ℕ) → NotIn i us → NotIn i vs → NotIn i (us ++ vs)
append-NotIn i [] vs h k = k
append-NotIn i (a ∷ us) vs h k = (h.0, append-NotIn i us vs h.1 k)

pub Distinct-append :
    (us vs : List ℕ) → Distinct (us ++ vs) → Distinct us × Distinct vs × Apart us vs
Distinct-append [] vs h = (tt, h, tt)
Distinct-append (a ∷ us) vs (h, hs) =
    let (d, e, p) = Distinct-append us vs hs in
    let (l, r) = NotIn-append a us vs h in ((l, d), e, (r, p))

pub append-Distinct :
    (us vs : List ℕ) → Distinct us → Distinct vs → Apart us vs → Distinct (us ++ vs)
append-Distinct [] vs d e p = e
append-Distinct (a ∷ us) vs d e p = (append-NotIn a us vs d.0 p.0, append-Distinct us vs d.1 e p.1)

pub Apart-cons : (x : ℕ) (us vs : List ℕ) → Apart us (x ∷ vs) → NotIn x us × Apart us vs
Apart-cons x [] vs p = (tt, tt)
Apart-cons x (a ∷ us) vs ((ne, q), p) =
    let (n, r) = Apart-cons x us vs p in (((λ e. ne (sym e)), n), (q, r))

pub cons-Apart : (x : ℕ) (us vs : List ℕ) → NotIn x us → Apart us vs → Apart us (x ∷ vs)
cons-Apart x [] vs n p = tt
cons-Apart x (a ∷ us) vs (ne, n) (q, p) = (((λ e. ne (sym e)), q), cons-Apart x us vs n p)

pub Below-append : (n : ℕ) (us vs : List ℕ) → Below n (us ++ vs) → Below n us × Below n vs
Below-append n [] vs h = (tt, h)
Below-append n (a ∷ us) vs h = let (l, r) = Below-append n us vs h.1 in ((h.0, l), r)

pub Below-NotIn : (n : ℕ) (xs : List ℕ) → Below n xs → NotIn n xs
Below-NotIn n [] b = tt
Below-NotIn n (x ∷ xs) b = (λ e. absurd (omega (arith, b.0, e)), Below-NotIn n xs b.1)

pub append-Below : (n : ℕ) (us vs : List ℕ) → Below n us → Below n vs → Below n (us ++ vs)
append-Below n [] vs h k = k
append-Below n (a ∷ us) vs h k = (h.0, append-Below n us vs h.1 k)

-- The last of the list is one of it, so what is none of the list is not its last.
pub ne-last : (i x : ℕ) (xs : List ℕ) → NotIn i (x ∷ xs) → i ≢ last x xs
ne-last i x [] h = h.0
ne-last i x (y ∷ ys) h = ne-last i y ys h.1

pub last-NotIn : (x : ℕ) (us vs : List ℕ) → Apart (x ∷ us) vs → NotIn (last x us) vs
last-NotIn x [] vs p = p.0
last-NotIn x (y ∷ us) vs p = last-NotIn y us vs p.1

pub last-lt : (x : ℕ) (xs : List ℕ) → Valid (x ∷ xs) → last x xs < invalid_index
last-lt x [] h = h.0
last-lt x (y ∷ ys) h = last-lt y ys h.1

pub Apart-nil : (us : List ℕ) → Apart us []
Apart-nil [] = tt
Apart-nil (a ∷ us) = (tt, Apart-nil us)

pub last-append : (p : ℕ) (us vs : List ℕ) → last p (us ++ vs) ≡ last (last p us) vs
last-append p [] vs = refl
last-append p (a ∷ us) vs = last-append a us vs

pub first-append : (n : ℕ) (us vs : List ℕ) → first (us ++ vs) n ≡ first us (first vs n)
first-append n [] vs = refl
first-append n (a ∷ us) vs = refl

-- A write to a node outside the chain leaves it.
pub Chain-update :
    (ls : Links) (i p n : ℕ) (v : InnerLink) (xs : List ℕ)
    → NotIn i xs
    → Chain ls p xs n
    → Chain (update ls i v) p xs n
Chain-update ls i p n v [] h c = tt
Chain-update ls i p n v (x ∷ xs) (ne, h) (a, b, c) =
    rw (update_ne ls i x v (λ e. ne (sym e))) (a, b, Chain-update ls i x n v xs h c)

pub Chain-append :
    (ls : Links) (p n : ℕ) (us vs : List ℕ)
    → Chain ls p (us ++ vs) n
    → Chain ls p us (first vs n) × Chain ls (last p us) vs n
Chain-append ls p n [] vs c = (tt, c)
Chain-append ls p n (a ∷ []) vs (x, y, c) = ((x, y, tt), c)
Chain-append ls p n (a ∷ b ∷ us) vs (x, y, c) =
    let (l, r) = Chain-append ls a n (b ∷ us) vs c in ((x, y, l), r)

pub append-Chain :
    (ls : Links) (p n : ℕ) (us vs : List ℕ)
    → Chain ls p us (first vs n)
    → Chain ls (last p us) vs n
    → Chain ls p (us ++ vs) n
append-Chain ls p n [] vs c d = d
append-Chain ls p n (a ∷ []) vs (x, y, c) d = (x, y, d)
append-Chain ls p n (a ∷ b ∷ us) vs (x, y, c) d = (x, y, append-Chain ls a n (b ∷ us) vs c d)

-- Each writing of a link at an end of a chain moves that end.
pub relink_first :
    (ls : Links) (p q n x : ℕ) (xs : List ℕ)
    → NotIn x xs
    → Chain ls p (x ∷ xs) n
    → Chain (set_prev ls x q) q (x ∷ xs) n
relink_first ls p q n x xs h (a, b, c) =
    rw (update_self ls x (record { prev = q; next = (ls x).next }))
      (refl, b, Chain-update ls x x n _ xs h c)

pub relink_last :
    (ls : Links) (p m n x : ℕ) (xs : List ℕ)
    → Distinct (x ∷ xs)
    → Chain ls p (x ∷ xs) n
    → Chain (set_next ls (last x xs) m) p (x ∷ xs) m
relink_last ls p m n x [] d (a, b, c) =
    rw (update_self ls x (record { prev = (ls x).prev; next = m })) (a, refl, tt)
relink_last ls p m n x (y ∷ ys) (h, d) (a, b, c) =
    rw (update_ne ls (last y ys) x _ (ne-last x y ys h)) (a, b, relink_last ls x m n y ys d c)

Chain-frame :
    (ls ls' : Links) (p n : ℕ) (xs ys : List ℕ)
    → Apart xs ys
    → ((j : ℕ) → NotIn j ys → ls' j ≡ ls j)
    → Chain ls p xs n
    → Chain ls' p xs n
Chain-frame ls ls' p n [] ys h same c = tt
Chain-frame ls ls' p n (x ∷ xs) ys (hx, h) same (a, b, c) =
    rw (same x hx) (a, b, Chain-frame ls ls' x n xs ys h same c)

-- A list stays one where only links of other indices change.
pub IsList-frame :
    (ls ls' : Links) (l : InnerList) (xs ys : List ℕ)
    → Apart xs ys
    → ((j : ℕ) → NotIn j ys → ls' j ≡ ls j)
    → IsList ls l xs
    → IsList ls' l xs
IsList-frame ls ls' l xs ys h same v = record {
  linked = Chain-frame ls ls' _ _ xs ys h same v.linked;
  back_first = v.back_first;
  front_last = v.front_last;
  size_length = v.size_length;
  distinct = v.distinct;
  valid = v.valid;
}

-- Two lists are apart both ways.
pub Apart-symm : (us vs : List ℕ) → Apart us vs → Apart vs us
Apart-symm us [] h = tt
Apart-symm us (v ∷ vs) h = let (n, p) = Apart-cons v us vs h in (n, Apart-symm us vs p)

pub Apart-append : (us vs ws : List ℕ) → Apart (us ++ vs) ws → Apart us ws × Apart vs ws
Apart-append [] vs ws h = (tt, h)
Apart-append (u ∷ us) vs ws h = let (l, r) = Apart-append us vs ws h.1 in ((h.0, l), r)

pub append-Apart : (us vs ws : List ℕ) → Apart us ws → Apart vs ws → Apart (us ++ vs) ws
append-Apart [] vs ws h k = k
append-Apart (u ∷ us) vs ws h k = (h.0, append-Apart us vs ws h.1 k)

pub Below-mono : (m n : ℕ) (xs : List ℕ) → m ≤ n → Below m xs → Below n xs
Below-mono m n [] h b = tt
Below-mono m n (x ∷ xs) h b = (omega arith, Below-mono m n xs h b.1)

-- What is at the bound is none of a list below it.
pub bound-NotIn : (n : ℕ) (xs : List ℕ) → Below n xs → NotIn n xs
bound-NotIn n [] b = tt
bound-NotIn n (x ∷ xs) b = (omega arith, bound-NotIn n xs b.1)

pub Apart-snoc : (x : ℕ) (us vs : List ℕ) → NotIn x us → Apart us vs → Apart us (vs ++ x ∷ [])
Apart-snoc x [] vs n p = tt
Apart-snoc x (u ∷ us) vs (ne, n) (q, p) =
    (append-NotIn u vs (x ∷ []) q ((λ e. ne (sym e)), tt), Apart-snoc x us vs n p)

pub snoc_cases : (xs : List ℕ) → (xs ≡ []) ⊎ ((us : List ℕ) × (x : ℕ) × (xs ≡ us ++ x ∷ []))
snoc_cases [] = inl refl
snoc_cases (x ∷ xs) = elim (snoc_cases xs) [
  | inl e ↦ inr ([], x, rw e)
  | inr (us, y, e) ↦ inr (x ∷ us, y, rw e)
]

-- A new node's links are outside every list.
pub frame_new :
    (ls : Links) (l : InnerList) (n : ℕ) (xs : List ℕ)
    → Below n xs
    → IsList ls l xs
    → IsList (update ls n clear_link) l xs
frame_new ls l n xs b v =
    IsList-frame ls _ l xs (n ∷ []) (Apart-snoc n xs [] (bound-NotIn n xs b) (Apart-nil xs))
      (λ j h. update_ne ls n j clear_link h.0) v
