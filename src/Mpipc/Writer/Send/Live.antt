-- ===== src/Mpipc/Writer/Send/Live.antt =====
-- The invariant of the writer while doFillPacket runs: the messages of the write list are live or canceled, and the
-- current synchronous message is one of them.
use solidframe.Prelude.{
  ℕ, ◌+◌, ◌≤◌, ◌≡◌, ◌≢◌, refl, sym, ap, subst, ◌∙◌, true, false, Bool-cases, ◌⊎◌, inl, inr, none,
  List, [], ◌∷◌, ◌++◌, ◌==◌, if◌then◌else◌, arith,
}
use solidframe.Prelude.Lists.{length, length-append}
use solidframe.Utility.InnerList.{invalid_index}
use solidframe.Utility.InnerList.Chain.{NotIn, NotIn-append, append-NotIn}
use solidframe.Mpipc.Writer.{MessageWriter, MessageStub}
use solidframe.Mpipc.Writer.Lists.{Holds}

abbrev pub In : ℕ → List ℕ → Type 0
In i [] = ⊥
In i (x ∷ xs) = (i ≡ x) ⊎ In i xs

pub In-split : (i : ℕ) (xs : List ℕ) → In i xs → (us : List ℕ) × (vs : List ℕ) × (xs ≡ us ++ i ∷ vs)
In-split i [] m = absurd m
In-split i (x ∷ xs) (inl e) = ([], xs, rw e refl)
In-split i (x ∷ xs) (inr m) = let (us, vs, e) = In-split i xs m in (x ∷ us, vs, rw e refl)

pub In-remove : (j i : ℕ) (us vs : List ℕ) → j ≢ i → In j (us ++ i ∷ vs) → In j (us ++ vs)
In-remove j i [] vs ne (inl e) = absurd (ne e)
In-remove j i [] vs ne (inr m) = m
In-remove j i (u ∷ us) vs ne (inl e) = inl e
In-remove j i (u ∷ us) vs ne (inr m) = inr (In-remove j i us vs ne m)

pub NotIn-remove : (j i : ℕ) (us vs : List ℕ) → NotIn j (us ++ i ∷ vs) → NotIn j (us ++ vs)
NotIn-remove j i us vs n = let (l, r) = NotIn-append j us (i ∷ vs) n in append-NotIn j us vs l r.1

pub NotIn-turn : (j i : ℕ) (us : List ℕ) → NotIn j (i ∷ us) → NotIn j (us ++ i ∷ [])
NotIn-turn j i us (ne, n) = append-NotIn j us (i ∷ []) n (ne, tt)

pub NotIn-self : (i : ℕ) (us : List ℕ) → NotIn i (us ++ i ∷ []) → ⊥
NotIn-self i us n = (NotIn-append i us (i ∷ []) n).1.0 refl

-- Where an index stands in a list with a last one: there, or before it.
pub snoc_split :
    (us : List ℕ) (i c : ℕ) (w1 w2 : List ℕ)
    → us ++ i ∷ [] ≡ w1 ++ c ∷ w2
    → (c ≡ i) ⊎ ((v2 : List ℕ) × (us ≡ w1 ++ c ∷ v2) × (length w2 ≡ length v2 + 1))
snoc_split [] i c [] w2 e = inl cc
snoc_split [] i c (x ∷ []) w2 e = absurd cc
snoc_split [] i c (x ∷ y ∷ w1) w2 e = absurd cc
snoc_split (u ∷ us) i c [] w2 e =
    let w2_is : us ++ i ∷ [] ≡ w2 = cc in
    let c_is : u ≡ c = cc in
    inr (us, rw c_is refl, ap length (sym w2_is) ∙ length-append us (i ∷ []))
snoc_split (u ∷ us) i c (x ∷ w1) w2 e =
    let tails : us ++ i ∷ [] ≡ w1 ++ c ∷ w2 = cc in
    let heads : u ≡ x = cc in
    elim (snoc_split us i c w1 w2 tails) [
      | inl same ↦ inl same
      | inr (v2, at, len) ↦ inr (v2, rw (heads, at) refl, len)
    ]

-- The current synchronous message is one of the write list, with `d` messages before it; or there is none.
pub data Synchronous (c : ℕ) (ws : List ℕ) : ℕ → Type 0 where
  free : c ≡ invalid_index → Synchronous c ws 0
  held : (w1 w2 : List ℕ) → ws ≡ w1 ++ c ∷ w2 → Synchronous c ws (length w2)

-- The distance is shorter than the list.
pub Synchronous-le : (c : ℕ) (ws : List ℕ) (d : ℕ) → Synchronous c ws d → d ≤ length ws
Synchronous-le c ws _ (free e) = omega arith
Synchronous-le c ws _ (held w1 w2 e) = omega (arith, ap length e, length-append w1 (c ∷ w2))

-- The message at the front leaves, and is not the current one then.
pub Synchronous-leave :
    (c i : ℕ) (us : List ℕ) {d : ℕ}
    → Synchronous c (us ++ i ∷ []) d
    → (d' : ℕ) × Synchronous (if c == i then invalid_index else c) us d'
Synchronous-leave c i us (free e) = elim (Bool-cases (c == i)) [
  | inl t ↦ (0, free (rw t refl))
  | inr t ↦ (0, free (rw t e))
]
Synchronous-leave c i us (held w1 w2 e) = elim (Bool-cases (c == i)) [
  | inl t ↦ (0, free (rw t refl))
  | inr t ↦ elim (snoc_split us i c w1 w2 e) [
    | inl same ↦ absurd (ground (arith, same, t))
    | inr (v2, at, len) ↦ (length v2, held w1 v2 (rw t at))
  ]
]

-- The message at the front goes to the back, and is not the current one.
pub Synchronous-rotate :
    (c i : ℕ) (us : List ℕ) (d : ℕ)
    → c ≢ i
    → c ≢ invalid_index
    → Synchronous c (us ++ i ∷ []) d
    → (d' : ℕ) × (d ≡ d' + 1) × Synchronous c (i ∷ us) d'
Synchronous-rotate c i us _ ne ok (free e) = absurd (ok e)
Synchronous-rotate c i us _ ne ok (held w1 w2 e) = elim (snoc_split us i c w1 w2 e) [
  | inl same ↦ absurd (ne same)
  | inr (v2, at, len) ↦ (length v2, len, held (i ∷ w1) v2 (rw at refl))
]

-- The message at the front goes to the back, whichever is the current one.
pub Synchronous-turn :
    (c i : ℕ) (us : List ℕ) {d : ℕ}
    → Synchronous c (us ++ i ∷ []) d
    → (d' : ℕ) × Synchronous c (i ∷ us) d'
Synchronous-turn c i us (free e) = (0, free e)
Synchronous-turn c i us (held w1 w2 e) = elim (snoc_split us i c w1 w2 e) [
  | inl same ↦ (length us, held [] us (rw same refl))
  | inr (v2, at, len) ↦ (length v2, held (i ∷ w1) v2 (rw at refl))
]

module _ {S : Type 0} where
  -- Two stubs have the same object, and both are canceled or none is.
  abbrev pub SameMark : MessageStub S → MessageStub S → Type 0
  SameMark m m' =
      (m.msgbundle.message_flags.canceled ≡ m'.msgbundle.message_flags.canceled)
      × (m.msgbundle.message_ptr ≡ m'.msgbundle.message_ptr)

  -- A message of the write list is in the order list exactly if it is not canceled, and has an object then.
  abbrev pub Live : (ℕ → MessageStub S) → List ℕ → ℕ → Type 0
  Live m os i =
      (((m i).msgbundle.message_flags.canceled ≡ true) × NotIn i os)
      ⊎ (((m i).msgbundle.message_flags.canceled ≡ false)
          × In i os
          × ((m i).msgbundle.message_ptr ≢ none))

  abbrev pub AllLive : (ℕ → MessageStub S) → List ℕ → List ℕ → Type 0
  AllLive m os [] = Unit {0}
  AllLive m os (i ∷ ws) = Live m os i × AllLive m os ws

  -- A stub that the write list does not hold has no serializer.
  abbrev pub Idle : (ℕ → MessageStub S) → List ℕ → Type 0
  Idle m ws = (j : ℕ) → NotIn j ws → (m j).serializer_ptr ≡ none

  pub record Sending (w : MessageWriter S) (os ws cs : List ℕ) (d : ℕ) : Type 0 where
    pub holds : Holds w os ws cs
    pub live : AllLive w.stubs os ws
    pub idle : Idle w.stubs ws
    pub synchronous : Synchronous w.current_synchronous_message_idx ws d

  -- A stub changes, or leaves the list without a serializer.
  pub Idle-change :
      (m m' : ℕ → MessageStub S) (ws ws' : List ℕ) (i : ℕ)
      → Idle m ws
      → ((j : ℕ) → j ≢ i → m' j ≡ m j)
      → ((j : ℕ) → j ≢ i → NotIn j ws' → NotIn j ws)
      → (NotIn i ws' → (m' i).serializer_ptr ≡ none)
      → Idle m' ws'
  Idle-change m m' ws ws' i idle same write mine j n = elim (Bool-cases (j == i)) [
    | inl t ↦
        let e : j ≡ i = ground arith in
        let here = mine (subst (λ k. NotIn k ws') e n) in ap (λ k. (m' k).serializer_ptr) e ∙ here
    | inr t ↦
        let ne : j ≢ i = ground arith in
        ap MessageStub.serializer_ptr (same j ne) ∙ idle j (write j ne n)
  ]

  pub AllLive-append :
      (m : ℕ → MessageStub S) (os us vs : List ℕ)
      → AllLive m os (us ++ vs)
      → AllLive m os us × AllLive m os vs
  AllLive-append m os [] vs a = (tt, a)
  AllLive-append m os (u ∷ us) vs (l, a) = let (b, c) = AllLive-append m os us vs a in ((l, b), c)

  -- A change at one index keeps the others live, if it keeps each of them live.
  pub AllLive-change :
      (m m' : ℕ → MessageStub S) (os os' : List ℕ) (i : ℕ) (ws : List ℕ)
      → ((j : ℕ) → j ≢ i → Live m os j → Live m' os' j)
      → NotIn i ws
      → AllLive m os ws
      → AllLive m' os' ws
  AllLive-change m m' os os' i [] keep n a = tt
  AllLive-change m m' os os' i (j ∷ ws) keep (ne, n) (l, a) =
      (keep j (λ e. ne (sym e)) l, AllLive-change m m' os os' i ws keep n a)

  pub AllLive-frame :
      (m m' : ℕ → MessageStub S) (os ws : List ℕ)
      → ((j : ℕ) → SameMark (m' j) (m j))
      → AllLive m os ws
      → AllLive m' os ws
  AllLive-frame m m' os [] same a = tt
  AllLive-frame m m' os (j ∷ ws) same (l, a) = (
    elim l [
      | inl (e, n) ↦ inl ((same j).0 ∙ e, n)
      | inr (e, n, some_object) ↦ inr ((same j).0 ∙ e, n, λ p. some_object (sym (same j).1 ∙ p))
    ],
    AllLive-frame m m' os ws same a,
  )

  -- The lists and the flags are those of the same writer with another current message.
  pub current-Holds :
      (c : ℕ) (w : MessageWriter S) (os ws cs : List ℕ)
      → Holds w os ws cs
      → Holds (record w { current_synchronous_message_idx = c }) os ws cs
  current-Holds c w os ws cs h = record {
    order = h.order;
    write = h.write;
    cache = h.cache;
    write_apart = h.write_apart;
    order_apart = h.order_apart;
    order_below = h.order_below;
    write_below = h.write_below;
    cache_below = h.cache_below;
    vec_fits = h.vec_fits;
  }
