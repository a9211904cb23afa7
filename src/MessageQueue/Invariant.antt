-- ===== src/MessageQueue/Invariant.antt =====
-- The invariant of the queue of src/flowmq/message_queue.hpp: the five containers agree.
use flowmq.Base.{
  ℤ, ◌==ℤ◌, eq_iff, Bytes, [], ◌∷◌, Option, none, some, Bool, true, false, not, ◌&&◌, ◌||◌, ◌≡◌,
  refl, arith, if◌then◌else◌, Option-cases, inl, inr,
}
use flowmq.Containers.OrdSet
use flowmq.Containers.OrdSet.{
  OrdSet, contains, contains-nil, contains-insert, contains-erase, IsAscending, insert-IsAscending,
  erase-IsAscending,
}
use flowmq.Containers.OrdMap.{lookup, has, find_or, lookup-assign, lookup-remove}
use flowmq.MessageQueue.{
  MessageQueue, empty, insert_message, release_from_consumer, commit_message,
  deliver_message_to_client_id, put_back, handle_client_disconnected,
}

-- Is the message with this consumer in the set of the consumer `c`?
abbrev pub held_by : Option ℤ → ℤ → Bool
held_by none c = false
held_by (some d) c = d ==ℤ c

-- What the containers say of the message `m`, and of `m` and the consumer `c`.
pub record Agrees (q : MessageQueue) (m : ℤ) : Type 0 where
  pub waiting : contains q.undelivered_messages m ≡ (
      has q.message_store m
      && (not (contains q.committed_messages m) && not (has q.message_id_to_consumer m)))
  pub stored :
      contains q.committed_messages m || has q.message_id_to_consumer m ≡ true
      → has q.message_store m ≡ true
  pub settled : contains q.committed_messages m ≡ true → lookup q.message_id_to_consumer m ≡ none

pub record IsValid (q : MessageQueue) : Type 0 where
  pub agrees : (m : ℤ) → Agrees q m
  pub inverse :
      (m c : ℤ)
      → contains (find_or q.consumer_id_delivered_messages c []) m
        ≡ held_by (lookup q.message_id_to_consumer m) c
  pub ordered : IsAscending q.undelivered_messages

pub empty-IsValid : IsValid empty
unfolding lookup contains
empty-IsValid = record {
  agrees = λ m. record { waiting = refl; stored = λ h. cc; settled = λ h. cc };
  inverse = λ m c. refl;
  ordered = tt;
}

module _ {q : MessageQueue} (v : IsValid q) where
  insert-Agrees : (k m : ℤ) (message : Bytes) → Agrees (insert_message k message q).1 m
  unfolding insert_message
  insert-Agrees k m message = ground (
    arith,
    v.agrees m,
    v.agrees k,
    eq_iff k m,
    lookup-assign q.message_store k m message,
    contains-insert q.undelivered_messages k m,
  )

  pub insert_message-IsValid : (k : ℤ) (message : Bytes) → IsValid (insert_message k message q).1
  unfolding insert_message
  insert_message-IsValid k message = record {
    agrees = λ m. insert-Agrees k m message;
    inverse = λ m c. ground (arith, v.inverse m c);
    ordered = ground (arith, insert-IsAscending q.undelivered_messages k v.ordered);
  }

  commit-Agrees : (k m : ℤ) → Agrees (commit_message k q).1 m
  unfolding commit_message release_from_consumer
  commit-Agrees k m = ground (
    arith,
    v.agrees m,
    v.agrees k,
    eq_iff k m,
    lookup-remove q.message_id_to_consumer k m,
    contains-insert q.committed_messages k m,
    contains-erase q.undelivered_messages k m,
  )

  commit-inverse :
      (k m c : ℤ)
      → let r = (commit_message k q).1 in
        contains (find_or r.consumer_id_delivered_messages c []) m
        ≡ held_by (lookup r.message_id_to_consumer m) c
  unfolding commit_message release_from_consumer
  commit-inverse k m c = elim (Option-cases (lookup q.message_id_to_consumer k)) [
    | inl e ↦ ground (arith, v.inverse m c)
    | inr (d, e) ↦ ground (
      arith,
      v.inverse m c,
      v.inverse k c,
      eq_iff k m,
      eq_iff d c,
      lookup-remove q.message_id_to_consumer k m,
      lookup-assign q.consumer_id_delivered_messages d c (taken_from d),
      contains-erase (find_or q.consumer_id_delivered_messages d []) k m,
    )
  ]
    where
      taken_from : ℤ → OrdSet
      taken_from d = OrdSet.erase k (find_or q.consumer_id_delivered_messages d [])

  pub commit_message-IsValid : (k : ℤ) → IsValid (commit_message k q).1
  unfolding commit_message release_from_consumer
  commit_message-IsValid k = record {
    agrees = λ m. commit-Agrees k m;
    inverse = λ m c. commit-inverse k m c;
    ordered = ground (arith, erase-IsAscending q.undelivered_messages k v.ordered);
  }

  deliver-Agrees :
      (k client m : ℤ)
      → contains q.undelivered_messages k ≡ true
      → Agrees (deliver_message_to_client_id k client q).1 m
  unfolding deliver_message_to_client_id
  deliver-Agrees k client m h = ground (
    arith,
    v.agrees m,
    v.agrees k,
    eq_iff k m,
    lookup-assign q.message_id_to_consumer k m client,
    contains-erase q.undelivered_messages k m,
  )

  deliver-inverse :
      (k client m c : ℤ)
      → contains q.undelivered_messages k ≡ true
      → let r = (deliver_message_to_client_id k client q).1 in
        contains (find_or r.consumer_id_delivered_messages c []) m
        ≡ held_by (lookup r.message_id_to_consumer m) c
  unfolding deliver_message_to_client_id
  deliver-inverse k client m c h = ground (
    arith,
    v.agrees k,
    v.inverse m c,
    v.inverse m client,
    eq_iff k m,
    eq_iff client c,
    lookup-assign q.message_id_to_consumer k m client,
    lookup-assign q.consumer_id_delivered_messages client c given,
    contains-insert (find_or q.consumer_id_delivered_messages client []) k m,
  )
    where
      given : OrdSet
      given = OrdSet.insert k (find_or q.consumer_id_delivered_messages client [])

  pub deliver-IsValid :
      (k client : ℤ)
      → contains q.undelivered_messages k ≡ true
      → IsValid (deliver_message_to_client_id k client q).1
  unfolding deliver_message_to_client_id
  deliver-IsValid k client h = record {
    agrees = λ m. deliver-Agrees k client m h;
    inverse = λ m c. deliver-inverse k client m c h;
    ordered = erase-IsAscending q.undelivered_messages k v.ordered;
  }

-- A message is held by one consumer.
held_by_one : (o : Option ℤ) (c d : ℤ) → held_by o c ≡ true → held_by o d ≡ true → c ≡ d
held_by_one none c d h k = cc
held_by_one (some e) c d h k = ground (arith, eq_iff e c, eq_iff e d)

-- The loop of `handle_client_disconnected`, container by container.
pub undelivered-put_back :
    (ids : OrdSet) (q : MessageQueue) (m : ℤ)
    → contains (put_back ids q).undelivered_messages m
      ≡ (if contains ids m then true else contains q.undelivered_messages m)
unfolding put_back contains
undelivered-put_back [] q m = refl
undelivered-put_back (k ∷ ids) q m =
    rw (undelivered-put_back ids) (ground (arith, contains-insert q.undelivered_messages k m))

pub message_id_to_consumer-put_back :
    (ids : OrdSet) (q : MessageQueue) (m : ℤ)
    → lookup (put_back ids q).message_id_to_consumer m
      ≡ (if contains ids m then none else lookup q.message_id_to_consumer m)
unfolding put_back contains
message_id_to_consumer-put_back [] q m = refl
message_id_to_consumer-put_back (k ∷ ids) q m =
    rw (message_id_to_consumer-put_back ids)
      (ground (arith, lookup-remove q.message_id_to_consumer k m))

-- It leaves the other three alone.
pub put_back_rest :
    (ids : OrdSet) (q : MessageQueue)
    → ((put_back ids q).message_store ≡ q.message_store)
      × ((put_back ids q).committed_messages ≡ q.committed_messages)
      × ((put_back ids q).consumer_id_delivered_messages ≡ q.consumer_id_delivered_messages)
unfolding put_back
put_back_rest [] q = (refl, refl, refl)
put_back_rest (k ∷ ids) q = put_back_rest ids _

put_back_ordered :
    (ids : OrdSet) (q : MessageQueue)
    → IsAscending q.undelivered_messages
    → IsAscending (put_back ids q).undelivered_messages
unfolding put_back
put_back_ordered [] q h = h
put_back_ordered (k ∷ ids) q h =
    put_back_ordered ids _ (insert-IsAscending q.undelivered_messages k h)

module _ {q : MessageQueue} (v : IsValid q) where
  disconnected-Agrees : (client m : ℤ) → Agrees (handle_client_disconnected client q).1 m
  unfolding handle_client_disconnected
  disconnected-Agrees client m =
      elim (Option-cases (lookup q.consumer_id_delivered_messages client)) [
        | inl e ↦ ground (arith, v.agrees m)
        | inr (ids, e) ↦ ground (
          arith,
          v.agrees m,
          v.inverse m client,
          put_back_rest ids q,
          undelivered-put_back ids q m,
          message_id_to_consumer-put_back ids q m,
        )
      ]

  disconnected-inverse :
      (client m c : ℤ)
      → let r = (handle_client_disconnected client q).1 in
        contains (find_or r.consumer_id_delivered_messages c []) m
        ≡ held_by (lookup r.message_id_to_consumer m) c
  unfolding handle_client_disconnected
  disconnected-inverse client m c =
      elim (Option-cases (lookup q.consumer_id_delivered_messages client)) [
        | inl e ↦ ground (arith, v.inverse m c)
        | inr (ids, e) ↦ ground (
          arith,
          v.inverse m c,
          v.inverse m client,
          eq_iff client c,
          put_back_rest ids q,
          message_id_to_consumer-put_back ids q m,
          lookup-remove (put_back ids q).consumer_id_delivered_messages client c,
          contains-nil m,
          held_by_one (lookup q.message_id_to_consumer m) client c,
        )
      ]

  pub disconnected-IsValid : (client : ℤ) → IsValid (handle_client_disconnected client q).1
  unfolding handle_client_disconnected
  disconnected-IsValid client = record {
    agrees = λ m. disconnected-Agrees client m;
    inverse = λ m c. disconnected-inverse client m c;
    ordered = elim (Option-cases (lookup q.consumer_id_delivered_messages client)) [
      | inl e ↦ ground (arith, v.ordered)
      | inr (ids, e) ↦ ground (arith, put_back_ordered ids q v.ordered)
    ];
  }
