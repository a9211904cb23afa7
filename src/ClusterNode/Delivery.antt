-- ===== src/ClusterNode/Delivery.antt =====
-- trigger_message_delivery and consumer_disconnected of src/flowmq/cluster_node.cpp.
use flowmq.Base.{
  ℤ, minus_one, List, [], ◌∷◌, Bool, true, false, Outcome, ok, ◌>>=◌, ◌==ℤ◌, if◌then◌else◌,
}
use flowmq.MessageQueue.{
  MessageQueue, get_message, get_all_undelivered_messages, deliver_message_to_client_id,
  handle_client_disconnected,
}
use flowmq.Protocol.{raft_message, load_server_send_message_request, set_partition_id}
use flowmq.Interfaces.{ClientManagerInterface}
use flowmq.ClusterNode.State.{World, State, leader}

abbrev pub is_leader : State → Bool
is_leader leader = true
is_leader s = false

module _ {C : Type 0} ⦃clients : ClientManagerInterface C⦄ where
  -- One message is handed to the client manager, which says who got it.
  unfoldable pub send_one : ℤ → ℤ → MessageQueue × C → Outcome (ℤ × MessageQueue × C)
  send_one partition_id message_id (q, c) = do
    let (message, q') = get_message message_id q
    let send = set_partition_id partition_id (
        load_server_send_message_request (record { message_id = message_id; message = message })
          raft_message)
    (consumer_id, c') ← clients.deliver_one_message_round_robin partition_id send c
    ok (consumer_id, q', c')

  -- The loop over the undelivered ids; it stops at the first message that cannot be delivered.
  unfoldable pub deliver_all : ℤ → List ℤ → MessageQueue × C → Outcome (MessageQueue × C)
  deliver_all partition_id [] s = ok s
  deliver_all partition_id (message_id ∷ rest) s = do
    r ← send_one partition_id message_id s
    let more =
        deliver_all partition_id rest ((deliver_message_to_client_id message_id r.0 r.1).1, r.2)
    if r.0 ==ℤ minus_one then ok (r.1, r.2) else more

module _ {C S : Type 0} ⦃clients : ClientManagerInterface C⦄ where
  -- Does nothing unless the node is the leader.
  unfoldable pub trigger_message_delivery : World C S → Outcome (World C S)
  trigger_message_delivery w =
      if is_leader w.node.state
      then (if clients.has_consumers w.clients
          then (do
            (q, c) ←
                deliver_all w.node.partition_id
                  (get_all_undelivered_messages [] w.node.message_queue)
                  (w.node.message_queue, w.clients)
            ok (record w { node = record w.node { message_queue = q }; clients = c }))
          else ok w)
      else ok w

  unfoldable pub consumer_disconnected : ℤ → World C S → Outcome (World C S)
  consumer_disconnected client_id w = trigger_message_delivery (record w {
    node = record w.node {
      message_queue = (handle_client_disconnected client_id w.node.message_queue).1;
    };
  })
