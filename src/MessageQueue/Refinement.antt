-- ===== src/MessageQueue/Refinement.antt =====
-- The methods of src/flowmq/message_queue.cpp implement the abstract queue of Spec.
use flowmq.Base.{ℤ, eq_iff, Bytes, true, ◌≡◌, arith, Option-cases, inl, inr}
use flowmq.Containers.OrdSet.{contains, contains-nil, contains-insert}
use flowmq.Containers.OrdMap.{lookup, lookup-assign, lookup-remove}
use flowmq.MessageQueue.{
  MessageQueue, insert_message, release_from_consumer, commit_message, deliver_message_to_client_id,
  handle_client_disconnected,
}
use flowmq.MessageQueue.Spec.{committed, delivered, view, inserted, moved, disconnected}
use flowmq.MessageQueue.Invariant.{IsValid, put_back_rest, message_id_to_consumer-put_back}

module _ {q : MessageQueue} (v : IsValid q) where
  pub view-insert_message :
      (k : ℤ) (message : Bytes) (m : ℤ)
      → view (insert_message k message q).1 m ≡ inserted k message (view q) m
  unfolding insert_message
  view-insert_message k message m =
      ground (arith, v.agrees k, v.agrees m, eq_iff k m, lookup-assign q.message_store k m message)

  pub view-commit_message : (k m : ℤ) → view (commit_message k q).1 m ≡ moved committed k (view q) m
  unfolding commit_message release_from_consumer
  view-commit_message k m = ground (
    arith,
    v.agrees k,
    v.agrees m,
    eq_iff k m,
    lookup-remove q.message_id_to_consumer k m,
    contains-insert q.committed_messages k m,
  )

  pub view-deliver :
      (k client m : ℤ)
      → contains q.undelivered_messages k ≡ true
      → view (deliver_message_to_client_id k client q).1 m ≡ moved (delivered client) k (view q) m
  unfolding deliver_message_to_client_id
  view-deliver k client m h =
      ground (
        arith,
        v.agrees k,
        v.agrees m,
        eq_iff k m,
        lookup-assign q.message_id_to_consumer k m client,
      )

  pub view-disconnected :
      (client m : ℤ)
      → view (handle_client_disconnected client q).1 m ≡ disconnected client (view q) m
  unfolding handle_client_disconnected
  view-disconnected client m =
      elim (Option-cases (lookup q.consumer_id_delivered_messages client)) [
        | inl e ↦ ground (arith, v.agrees m, v.inverse m client, contains-nil m)
        | inr (ids, e) ↦ ground (
          arith,
          v.agrees m,
          v.inverse m client,
          put_back_rest ids q,
          message_id_to_consumer-put_back ids q m,
        )
      ]
