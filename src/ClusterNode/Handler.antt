-- ===== src/ClusterNode/Handler.antt =====
-- The events of a node of src/flowmq/cluster_node.cpp, as its io_context runs them one by one:
-- local_message_handler, the timers and consumer_disconnected.
use flowmq.Base.{
  ℤ, pos, ℕ, zero, suc, List, [], ◌∷◌, ◌++◌, Outcome, ok, ◌>>=◌, or_fault, increment, ◌==ℤ◌, ◌+ℤ◌,
  ◌-ℤ◌, if◌then◌else◌,
}
use flowmq.Containers.OrdMap
use flowmq.Containers.OrdMap.{OrdMap, find_or}
use flowmq.Protocol.{
  FlowMessage, MessageType, raft_message, load_append_entries_request, get_append_request,
  get_append_response, get_vote_request, get_vote_response, get_put_message_request,
  get_commit_message_request,
}
use flowmq.Interfaces.{ClientManagerInterface, ClusterNodeStorageInterface}
use flowmq.ClusterNode.State.{World, broad_cast, serialize_raft_message, get_address_for_node}
use flowmq.ClusterNode.Log.{
  back, check_if_previous_log_in_sync, clean_log_entries_out_of_sync, append_one, append_from,
  append_log_entries,
}
use flowmq.ClusterNode.Commit.{
  commit_log_entry, apply_entry, commit_range, commit_log_entries, store_commit, commit_between,
  commit_from, commit_up_to,
}
use flowmq.ClusterNode.Delivery.{
  is_leader, consumer_disconnected, send_one, deliver_all, trigger_message_delivery,
}
use flowmq.ClusterNode.Follower.{
  append_entries_request, answer, reject_expired, follow, update_leader_commit, append_and_answer,
  update_log, sync_log,
}
use flowmq.ClusterNode.Leader.{
  append_entries_response, client_put_message, client_commit_message, client_open_queue,
  count_synced_nodes, commit_synced, set_next_index, response_success, response_failure,
  response_received, read_response, answer_client,
}
use flowmq.ClusterNode.Vote.{
  request_vote_request, request_vote_response, vote_timer, delayed_vote, count_vote, answer_vote,
  send_vote_request,
}
use flowmq.ClusterNode.Replicate.{send_entry, trigger_entry_update, update_all, add_log_entry}
use flowmq.Containers.{containers}

-- 0, 1, …, n - 1 without the node itself, as the loops over the nodes go.
abbrev pub other_nodes : ℕ → ℤ → List ℤ
other_nodes zero node_id = []
other_nodes (suc n) node_id =
    if pos n ==ℤ node_id then other_nodes n node_id else other_nodes n node_id ++ pos n ∷ []

unfoldable pub count_pending : List ℤ → OrdMap ℤ → Outcome (OrdMap ℤ)
count_pending [] pending = ok pending
count_pending (i ∷ rest) pending = do
  count ← increment (find_or pending i (pos 0))
  count_pending rest (OrdMap.assign i count pending)

abbrev pub nodes_of : ℤ → ℕ
nodes_of (pos n) = n
nodes_of total = 0

-- What happens to a node. The time and the random id are read from the environment.
pub data Event : Type 0 where
  message : FlowMessage → ℤ → ℤ → Event
  vote_timer_fires : ℤ → Event
  delayed_vote_fires : Event
  heartbeat_timer_fires : Event
  consumer_leaves : ℤ → Event

module _ {C S : Type 0} ⦃clients : ClientManagerInterface C⦄
    ⦃disk : ClusterNodeStorageInterface S⦄ where
  -- The timer of `start_send_hearbeat`.
  unfoldable pub heartbeat_timer : World C S → Outcome (World C S)
  heartbeat_timer w =
      if is_leader w.node.state
      then (do
        last ← or_fault (back w.node.log_entries)
        let req =
            load_append_entries_request
              (record {
                term = w.node.cur_term;
                leader_id = w.node.node_id;
                prev_log_index = last.index;
                prev_log_term = last.term;
                entries = [];
                leader_commit = w.node.commit_index;
              })
              raft_message
        pending ←
            count_pending (other_nodes (nodes_of w.node.total_nodes) w.node.node_id)
              w.node.pending_append_reqs
        ok (record w {
          node = record w.node { pending_append_reqs = pending };
          outbox = w.outbox ++ broad_cast (serialize_raft_message w.node req) ∷ [];
        }))
      else ok w

  abbrev pub dispatch : MessageType → FlowMessage → ℤ → ℤ → World C S → Outcome (World C S)
  dispatch MessageType.append_entries_request m now random_id w =
      append_entries_request (get_append_request m) now w
  dispatch MessageType.append_entries_response m now random_id w =
      append_entries_response (get_append_response m) w
  dispatch MessageType.request_vote_request m now random_id w =
      ok (request_vote_request (get_vote_request m) w)
  dispatch MessageType.request_vote_response m now random_id w =
      request_vote_response (get_vote_response m) w
  dispatch MessageType.client_put_message m now random_id w =
      client_put_message (get_put_message_request m) random_id w
  dispatch MessageType.client_open_queue m now random_id w = client_open_queue w
  dispatch MessageType.client_commit_message m now random_id w =
      client_commit_message (get_commit_message_request m) w
  dispatch other m now random_id w = ok w

  unfoldable pub local_message_handler : FlowMessage → ℤ → ℤ → World C S → Outcome (World C S)
  local_message_handler m now random_id w = dispatch m.type m now random_id w

  unfoldable pub handle : Event → World C S → Outcome (World C S)
  handle (message m now random_id) w = local_message_handler m now random_id w
  handle (vote_timer_fires now) w = vote_timer now w
  handle delayed_vote_fires w = delayed_vote w.waiting_votes w
  handle heartbeat_timer_fires w = heartbeat_timer w
  handle (consumer_leaves client_id) w = consumer_disconnected client_id w

  -- A run of the io_context, event by event.
  unfoldable pub run : List Event → World C S → Outcome (World C S)
  run [] w = ok w
  run (e ∷ es) w = do w' ← handle e w; run es w'

-- A run of events names this to compute with the handlers.
unfoldable pub methods : Unit {0}
unfolding get_address_for_node check_if_previous_log_in_sync clean_log_entries_out_of_sync
    append_one append_from append_log_entries apply_entry commit_log_entry commit_range
    commit_log_entries store_commit commit_between commit_from commit_up_to count_vote answer_vote
    request_vote_request request_vote_response vote_timer send_vote_request delayed_vote send_one
    deliver_all trigger_message_delivery consumer_disconnected answer reject_expired follow
    update_leader_commit append_and_answer update_log sync_log append_entries_request count_pending
    heartbeat_timer local_message_handler handle run send_entry trigger_entry_update update_all
    add_log_entry count_synced_nodes commit_synced set_next_index response_success response_failure
    response_received read_response append_entries_response client_put_message client_commit_message
    answer_client client_open_queue containers increment ◌+ℤ◌ ◌-ℤ◌
methods = tt
