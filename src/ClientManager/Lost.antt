-- ===== src/ClientManager/Lost.antt =====
-- deliver_one_message_round_robin of src/flowmq/client_manager.cpp on a partition that no client has
-- opened, and what trigger_message_delivery of src/flowmq/cluster_node.cpp makes of it.
use flowmq.Base.{
  ℤ, pos, List, [], ◌∷◌, none, true, false, ok, ◌≡◌, refl, ◌∙◌, arith, ◌==ℤ◌, if◌then◌else◌,
}
use flowmq.Containers.OrdSet.{contains, contains-erase}
use flowmq.Containers.OrdMap.{lookup}
use flowmq.Protocol.{FlowMessage, raft_message, load_server_send_message_request, set_partition_id}
use flowmq.MessageQueue.{
  MessageQueue, get_message, get_all_undelivered_messages, deliver_message_to_client_id,
}
use flowmq.ClusterNode.State.{World, leader}
use flowmq.ClusterNode.Delivery.{send_one, deliver_all, trigger_message_delivery}
use flowmq.ClientManager.{
  ClientManager, deliver_one_message_round_robin, has_consumers, client_manager,
}

-- Nothing is written, and the result is 1: the id of some client, and not -1.
deliver_unknown :
    (p : ℤ) (msg : FlowMessage) (m : ClientManager)
    → lookup m.consumer_client_id_array p ≡ none
    → deliver_one_message_round_robin p msg m ≡ ok (pos 1, m)
unfolding deliver_one_message_round_robin
deliver_unknown p msg m h = rw (h, deliver_one_message_round_robin) refl

-- The queue after a round of deliveries of which none was written.
unfoldable taken : List ℤ → MessageQueue → MessageQueue
taken [] q = q
taken (k ∷ rest) q = taken rest (deliver_message_to_client_id k (pos 1) (get_message k q).1).1

send_one_unknown :
    (p k : ℤ) (q : MessageQueue) (m : ClientManager)
    → lookup m.consumer_client_id_array p ≡ none
    → send_one p k (q, m) ≡ ok (pos 1, (get_message k q).1, m)
unfolding send_one
send_one_unknown p k q m h =
    let send = set_partition_id p (
      load_server_send_message_request (record { message_id = k; message = (get_message k q).0 })
        raft_message) in
    rw (deliver_unknown p send m h) refl

deliver_all_unknown :
    (p : ℤ) (ids : List ℤ) (q : MessageQueue) (m : ClientManager)
    → lookup m.consumer_client_id_array p ≡ none
    → deliver_all p ids (q, m) ≡ ok (taken ids q, m)
unfolding deliver_all taken ◌==ℤ◌
deliver_all_unknown p [] q m h = refl
deliver_all_unknown p (k ∷ rest) q m h =
    rw (send_one_unknown p k q m h) (
      deliver_all_unknown p rest (deliver_message_to_client_id k (pos 1) (get_message k q).1).1 m h)

get_message-undelivered :
    (k : ℤ) (q : MessageQueue) → (get_message k q).1.undelivered_messages ≡ q.undelivered_messages
unfolding get_message
get_message-undelivered k q = ground arith

taken-undelivered :
    (ids : List ℤ) (q : MessageQueue) (k : ℤ)
    → contains (taken ids q).undelivered_messages k
      ≡ (if contains ids k then false else contains q.undelivered_messages k)
unfolding taken contains deliver_message_to_client_id
taken-undelivered [] q k = refl
taken-undelivered (x ∷ xs) q k = ground (
  arith,
  taken-undelivered xs (deliver_message_to_client_id x (pos 1) (get_message x q).1).1 k,
  get_message-undelivered x q,
  contains-erase q.undelivered_messages x k,
)

module _ {S : Type 0} where
  -- A leader whose clients consume other partitions only: the delivery writes nothing to any client,
  -- and none of its messages is left to deliver.
  pub unopened_loses :
      (w : World ClientManager S)
      → w.node.state ≡ leader
      → has_consumers w.clients ≡ true
      → lookup w.clients.consumer_client_id_array w.node.partition_id ≡ none
      → (w' : World ClientManager S) × (trigger_message_delivery w ≡ ok w')
        × (w'.clients ≡ w.clients)
        × ((k : ℤ) → contains w'.node.message_queue.undelivered_messages k ≡ false)
  unfolding trigger_message_delivery get_all_undelivered_messages
  unopened_loses w l some_other h =
      let q = w.node.message_queue in
      let q' = taken q.undelivered_messages q in
      (
        record w { node = record w.node { message_queue = q' } },
        rw
            (
              l,
              some_other,
              deliver_all_unknown w.node.partition_id q.undelivered_messages q w.clients h,
            )
            refl,
        refl,
        λ k. taken-undelivered q.undelivered_messages q k ∙ ground arith,
      )
