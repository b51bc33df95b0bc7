-- ===== src/Mpipc/Reader/Switches.antt =====
-- The message switches of `doConsumePacket` of mpipcmessagereader.cpp: what they do to the queue of the messages that are
-- being read.
use solidframe.Prelude.{
  ℕ, ◌+◌, ◌≤◌, ◌≡◌, refl, Bool-cases, Option-cases, inl, inr, Option, none, some, List, [], ◌∷◌,
  ◌++◌, ◌==◌, arith,
}
use solidframe.Prelude.Lists.{length, length-append}
use solidframe.Mpipc.Packet.{
  switch_to_new_message_type, switch_to_old_message_type, continued_message_type,
  switch_to_old_canceled_message_type, continued_canceled_message_type,
}
use solidframe.Mpipc.Protocol.{ReaderProtocol}
use solidframe.Mpipc.Reader.{
  ReaderConfiguration, MessageStub, Switched, running, canceled, refused, undefined_switch,
  next_in_queue, cancel_front, open_front, switch_to_new, continued, message_switch,
}

module _ {D : Type 0} where
  -- A queue whose front can not be run.
  pub data Unready : List (MessageStub D) → Type 0 where
    no_message : Unready []
    no_deserializer :
        (m : MessageStub D) (q : List (MessageStub D)) → m.deserializer_ptr ≡ none → Unready (m ∷ q)

  -- A switch that the queue has no message for, or none that was begun: to an old message or to go on, where the front
  -- is then missing or has no deserializer; or to an old message that is canceled, where there is none. It is never the
  -- switch to a new message, nor the one to the canceled front.
  pub data Unserved (t : ℕ) : List (MessageStub D) → Type 0 where
    no_old :
        (m : MessageStub D) (q : List (MessageStub D))
        → t ≡ switch_to_old_message_type
        → Unready (next_in_queue m q)
        → Unserved t (m ∷ q)
    not_begun :
        (m : MessageStub D) (q : List (MessageStub D))
        → t ≡ continued_message_type
        → m.deserializer_ptr ≡ none
        → Unserved t (m ∷ q)
    no_old_to_cancel :
        (m : MessageStub D) (q : List (MessageStub D))
        → t ≡ switch_to_old_canceled_message_type
        → next_in_queue m q ≡ []
        → Unserved t (m ∷ q)

  front_none :
      (m : MessageStub D) (q : List (MessageStub D)) → Unready (m ∷ q) → m.deserializer_ptr ≡ none
  front_none m q (no_deserializer _ _ e) = e

module _ {D : Type 0} (config : ReaderConfiguration) where
  -- There is a front, and no more messages than are allowed.
  pub record Multiplexed (q : List (MessageStub D)) : Type 0 where
    pub has_front : 1 ≤ length q
    pub bounded : length q ≤ config.max_message_count_multiplex

  -- What a switch `t` does to the queue `q`; it may leave none where the code goes on to use its front.
  pub data AfterSwitch (t : ℕ) (q : List (MessageStub D)) : Switched D → Type 0 where
    runs :
        (q' : List (MessageStub D))
        → length q' ≤ config.max_message_count_multiplex
        → (Unready q' → Unserved t q)
        → AfterSwitch t q (running q')
    cancels : (q' : List (MessageStub D)) → Multiplexed q' → AfterSwitch t q (canceled q')
    refuses : (e : ℕ) → AfterSwitch t q (refused e)
    breaks : Unserved t q → AfterSwitch t q undefined_switch

module _ {D T : Type 0} (config : ReaderConfiguration) (proto : ReaderProtocol D T)
    (some_room : 1 ≤ config.max_message_count_multiplex) where
  length-next_in_queue :
      (m : MessageStub D) (q : List (MessageStub D)) → length (next_in_queue m q) ≤ length q + 1
  unfolding next_in_queue
  length-next_in_queue m q = by_pointer m.message_ptr
    where
      by_pointer :
          (x : Option ℕ) → length (elim x [ some ptr ↦ q ++ m ∷ [] | none ↦ q ]) ≤ length q + 1
      by_pointer none = omega arith
      by_pointer (some ptr) = omega (arith, length-append q (m ∷ []))

  front_canceled :
      (t : ℕ) (q q' : List (MessageStub D))
      → length q' ≤ config.max_message_count_multiplex
      → (q' ≡ [] → Unserved t q)
      → AfterSwitch config t q (cancel_front q')
  unfolding cancel_front
  front_canceled t q [] h empty = breaks (empty refl)
  front_canceled t q (m ∷ q') h empty = cancels _ (record { has_front = omega arith; bounded = h })

  opened_Ready :
      (t : ℕ) (q q' : List (MessageStub D)) (m : MessageStub D)
      → Unready (open_front config proto m ∷ q')
      → Unserved t q
  unfolding open_front
  opened_Ready t q q' m u = let e = front_none _ q' u in absurd (grind (arith, e))

  new_opened :
      (t : ℕ) (q0 : List (MessageStub D)) (m : MessageStub D) (q : List (MessageStub D))
      → Multiplexed config (m ∷ q)
      → AfterSwitch config t q0 (switch_to_new config proto m q)
  unfolding switch_to_new
  new_opened s q0 m q fit = elim (Option-cases m.message_ptr) [
    | inl e ↦ rw e (runs _ fit.bounded (opened_Ready s _ _ _))
    | inr (p, e) ↦ elim (Bool-cases (length (m ∷ q) == config.max_message_count_multiplex)) [
      | inl t ↦ rw (e, t) (refuses _)
      | inr t ↦
          rw (e, t)
            (runs _
              (ground (arith, fit.bounded, length-append q (record m { packet_count = 0 } ∷ [])))
              (opened_Ready s _ _ _))
    ]
  ]

  pub switched :
      (t : ℕ) (q : List (MessageStub D))
      → Multiplexed config q
      → AfterSwitch config t q (message_switch config proto t q)
  unfolding message_switch continued
  switched t [] fit = absurd (omega (arith, fit.has_front))
  switched t (m ∷ q) fit =
      let fewer : length (next_in_queue m q) ≤ config.max_message_count_multiplex =
        omega (arith, fit.bounded, length-next_in_queue m q) in
      elim (Bool-cases (t == switch_to_new_message_type)) [
        | inl e ↦ rw e (new_opened t (m ∷ q) m q fit)
        | inr e1 ↦ elim (Bool-cases (t == switch_to_old_message_type)) [
          | inl e ↦ rw (e1, e) (runs _ fewer (no_old m q (ground (arith, e))))
          | inr e2 ↦ elim (Bool-cases (t == continued_message_type)) [
            | inl e ↦
                rw (e1, e2, e)
                  (runs _ fit.bounded (λ u. not_begun m q (ground (arith, e)) (front_none _ q u)))
            | inr e3 ↦ elim (Bool-cases (t == switch_to_old_canceled_message_type)) [
              | inl e ↦
                  rw (e1, e2, e3, e)
                    (front_canceled t _ _ fewer (no_old_to_cancel m q (ground (arith, e))))
              | inr e4 ↦ elim (Bool-cases (t == continued_canceled_message_type)) [
                | inl e ↦
                    rw (e1, e2, e3, e4, e)
                      (front_canceled t _ _ fit.bounded (λ n. absurd (grind (arith, n))))
                | inr e ↦ rw (e1, e2, e3, e4, e) (refuses _)
              ]
            ]
          ]
        ]
      ]
