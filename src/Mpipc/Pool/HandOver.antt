-- ===== src/Mpipc/Pool/HandOver.antt =====
-- `Service::doTryPushMessageToConnection` of mpipcservice.cpp: a message of the pool is given to the writer of a
-- connection, by `Connection::tryPushMessage` of mpipcconnection.cpp.
use solidframe.Prelude.{
  ℕ, ◌<◌, ◌≡◌, refl, sym, ap, subst, ◌∙◌, Bool, true, false, Bool-cases, inl, inr, Option, none,
  some, List, ◌∷◌, ◌++◌, ◌==◌, ==_iff, if◌then◌else◌, arith,
}
use solidframe.Utility.InnerList.{invalid_index}
use solidframe.Mpipc.Message.{MessageId, no_message_id, moved, undisrupted, is_asynchronous}
use solidframe.Mpipc.Writer.{WriterConfiguration, MessageWriter, enqueue, refuses}
use solidframe.Mpipc.Writer.Lists.{Holds}
use solidframe.Mpipc.Writer.Enqueue.{Enqueued, enqueue-Enqueued}
use solidframe.Mpipc.Pool.{ObjectId, PoolMessage, Pool, set_message, unlink, release}
use solidframe.Mpipc.Pool.Lists.{Linked, set_message-Linked}
use solidframe.Mpipc.Pool.Asyncs.{is_async, asyncs, asyncs-same}
use solidframe.Mpipc.Pool.Insert.{Pooled, set_message_ne, set_message_self}
use solidframe.Mpipc.Pool.Remove.{unlink-Linked, erase_keeps, release-Removed}

-- The connection has taken the message, and given it the id `id`.
pub handed_message : MessageId → PoolMessage → PoolMessage
handed_message id m = record m { msgbundle = moved (undisrupted m.msgbundle); msgid = id }

-- The pool keeps the place of a message that can be canceled, with the connection that has it.
pub hand_over : Bool → ObjectId → MessageId → ℕ → Bool → Pool → Pool
hand_over true objid id i asynchronous p =
    unlink i asynchronous
      (set_message i (record (handed_message id (p.messages i)) { objid = objid }) p)
hand_over false objid id i asynchronous p =
    release i asynchronous (set_message i (handed_message id (p.messages i)) p)

-- The id by which the connection tells the pool of the message.
pub pool_id_of : ℕ → PoolMessage → MessageId
pool_id_of i m = if m.cancelable then record { index = i; unique = m.unique } else no_message_id

module _ {S : Type 0} (config : WriterConfiguration) where
  pub after_try :
      ObjectId → ℕ → Pool → Option (MessageWriter S × MessageId) → Option (Pool × MessageWriter S)
  after_try objid i p none = none
  after_try objid i p (some (w, id)) =
      let m = p.messages i in
      some (hand_over m.cancelable objid id i (is_asynchronous m.msgbundle.message_flags) p, w)

  -- `none` is the result `false`, which leaves everything as it was.
  pub do_try_push_message_to_connection :
      ObjectId → ℕ → Pool → MessageWriter S → Option (Pool × MessageWriter S)
  do_try_push_message_to_connection objid i p w =
      let m = p.messages i in
      elim m.msgbundle.message_ptr [
        | none ↦ none
        | some ptr ↦ after_try objid i p (enqueue config m.msgbundle (pool_id_of i m) w)
      ]

touched :
    (i : ℕ) (m : PoolMessage) (p : Pool) (os cs : List ℕ)
    → is_asynchronous m.msgbundle.message_flags ≡ is_async p.messages i
    → Pooled p os cs
    → Pooled (set_message i m p) os cs
touched i m p os cs e h = record {
  linked =
      subst (λ bs. Linked (set_message i m p) os bs cs)
        (sym (asyncs-same p.messages (set_message i m p).messages os same))
        (set_message-Linked i p os (asyncs p.messages os) cs m h.linked);
}
  where
    same : (j : ℕ) → is_async (set_message i m p).messages j ≡ is_async p.messages j
    same j = elim (Bool-cases (j == i)) [
      | inl t ↦
          let eq = (==_iff j i).0 t in
          ap (is_async (set_message i m p).messages) eq
          ∙ ap (λ x. is_asynchronous x.msgbundle.message_flags) (set_message_self i m p)
          ∙ e
          ∙ ap (is_async p.messages) (sym eq)
      | inr t ↦
          ap (λ x. is_asynchronous x.msgbundle.message_flags)
            (set_message_ne i j m p (ground (arith, t)))
    ]

hand_over-Pooled :
    (cancelable : Bool) (objid : ObjectId) (id : MessageId) (i : ℕ) (p : Pool) (o1 o2 cs : List ℕ)
    → Pooled p (o1 ++ i ∷ o2) cs
    → (cs' : List ℕ) × Pooled
        (hand_over cancelable objid id i (is_async p.messages i) p)
        (o1 ++ o2)
        cs'
unfolding hand_over handed_message
hand_over-Pooled true objid id i p o1 o2 cs h =
    let m = record (handed_message id (p.messages i)) { objid = objid } in
    let p0 = set_message i m p in
    let a = is_async p.messages i in
    let e : is_async p0.messages i ≡ a =
      ap (λ x. is_asynchronous x.msgbundle.message_flags) (set_message_self i m p) in
    (
      cs,
      record {
        linked =
            subst (λ f. Linked (unlink i a p0) (o1 ++ o2) (asyncs f (o1 ++ o2)) cs)
              (sym (erase_keeps i a p0).0)
              (unlink-Linked i a p0 o1 o2 cs e (touched i m p (o1 ++ i ∷ o2) cs refl h));
      },
    )
hand_over-Pooled false objid id i p o1 o2 cs h =
    let m = handed_message id (p.messages i) in
    let p0 = set_message i m p in
    let a = is_async p.messages i in
    let e : is_async p0.messages i ≡ a =
      ap (λ x. is_asynchronous x.msgbundle.message_flags) (set_message_self i m p) in
    (i ∷ cs, (release-Removed i a p0 o1 o2 cs e (touched i m p (o1 ++ i ∷ o2) cs refl h)).pooled)

module _ {S : Type 0} (config : WriterConfiguration) where
  -- For such a pool, a message of its order list with an object, and a writer whose three lists hold lists of indices,
  -- which has room for one more node and does not refuse the message: the message passes from the pool to the writer.
  -- Its index leaves the order list of the pool, and the list of asynchronous messages stays the asynchronous part of
  -- it; the writer has the pool's message as its newest, and its lists go on holding lists of indices.
  pub do_try_push_message_to_connection-Passes :
      (objid : ObjectId) (i ptr : ℕ) (p : Pool) (o1 o2 cs : List ℕ) (w : MessageWriter S)
      (os ws ks : List ℕ)
      → Pooled p (o1 ++ i ∷ o2) cs
      → (p.messages i).msgbundle.message_ptr ≡ some ptr
      → refuses config (p.messages i).msgbundle w ≡ false
      → w.vec_size < invalid_index
      → Holds w os ws ks
      → (p' : Pool) × (w' : MessageWriter S) × (id : MessageId) × (cs' : List ℕ)
        × (do_try_push_message_to_connection config objid i p w ≡ some (p', w'))
        × Pooled p' (o1 ++ o2) cs'
        × Enqueued (p.messages i).msgbundle (pool_id_of i (p.messages i)) w os ws w' id
  unfolding do_try_push_message_to_connection after_try
  do_try_push_message_to_connection-Passes objid i ptr p o1 o2 cs w os ws ks h e accepts room
        holds =
      let m = p.messages i in
      let (w', id, given, enqueued) =
        enqueue-Enqueued config m.msgbundle (pool_id_of i m) w os ws ks accepts room holds in
      let (cs', pooled) = hand_over-Pooled m.cancelable objid id i p o1 o2 cs h in
      (
        hand_over m.cancelable objid id i (is_async p.messages i) p,
        w',
        id,
        cs',
        passes m.msgbundle.message_ptr (enqueue config m.msgbundle (pool_id_of i m) w) e given,
        pooled,
        enqueued,
      )
    where
      passes :
          {w1 : MessageWriter S} {id1 : MessageId} (x : Option ℕ)
          (y : Option (MessageWriter S × MessageId))
          → x ≡ some ptr
          → y ≡ some (w1, id1)
          → elim x [ none ↦ none | some _ ↦ after_try config objid i p y ]
            ≡ some (hand_over (p.messages i).cancelable objid id1 i (is_async p.messages i) p, w1)
      passes x y s g = rw (s, g) refl
