-- ===== src/ClusterNode/Leader.antt =====
-- local_message_handler of src/flowmq/cluster_node.cpp, case APPEND_ENTRIES_RESPONSE, and the
-- cases of the three client messages; start_send_hearbeat.
use flowmq.Base.{
  ℤ, pos, Bytes, ℕ, suc, List, [], ◌∷◌, Outcome, ok, ◌>>=◌, increment, ltb_ℤ, max_ℤ, ◌==ℤ◌, ◌-ℤ◌,
  if◌then◌else◌, some, none,
}
use flowmq.Protocol.{
  AppendEntriesResponse, ClientPutMessage, ClientCommitMessage, LogEntry, FlowMessage, Status,
  add_operation, commit_operation, raft_message, load_client_open_queue_response,
}
use flowmq.Interfaces.{ClientManagerInterface, ClusterNodeStorageInterface}
use flowmq.Containers.OrdMap
use flowmq.Containers.OrdMap.{OrdMap, find_or}
use flowmq.ClusterNode.State.{
  World, ClusterNode, serialize_raft_message, half, get_address_for_node,
}
use flowmq.ClusterNode.Log.{size}
use flowmq.ClusterNode.Delivery.{is_leader, trigger_message_delivery}
use flowmq.ClusterNode.Commit.{commit_up_to}
use flowmq.ClusterNode.Replicate.{add_log_entry, trigger_entry_update}

-- How many followers are known to have the entry at `index`.
unfoldable pub count_synced_nodes : ℤ → OrdMap ℤ → ℕ
count_synced_nodes index [] = 0
count_synced_nodes index ((_, matched) ∷ rest) =
    let n = count_synced_nodes index rest in if ltb_ℤ matched index then n else suc n

-- The log entries that the leader makes of the two client messages.
abbrev pub put_entry : ClientPutMessage → ℤ → ClusterNode → LogEntry
put_entry req random_id n = record {
  index = size n.log_entries;
  term = n.cur_term;
  message_id = random_id;
  operation = add_operation;
  message = req.message;
}

abbrev pub commit_entry : ClientCommitMessage → ClusterNode → LogEntry
commit_entry req n = record {
  index = size n.log_entries;
  term = n.cur_term;
  message_id = req.message_id;
  operation = commit_operation;
  message = [];
}

-- "Node is not leader."
abbrev pub not_leader_text : List ℕ
not_leader_text =
    78 ∷ 111 ∷ 100 ∷ 101 ∷ 32 ∷ 105 ∷ 115 ∷ 32 ∷ 110 ∷ 111 ∷ 116 ∷ 32 ∷ 108 ∷ 101 ∷ 97 ∷ 100 ∷ 101
    ∷ 114 ∷ 46 ∷ []

-- The two answers to an open request.
abbrev pub queue_opened : FlowMessage
queue_opened =
    load_client_open_queue_response
      (record { status = Status.success; error_message = []; leader_ip = none; leader_port = none })
      raft_message

abbrev pub not_leader : Bytes × Bytes → FlowMessage
not_leader address =
    load_client_open_queue_response
      (record {
        status = Status.error;
        error_message = not_leader_text;
        leader_ip = some address.0;
        leader_port = some address.1;
      })
      raft_message

module _ {C S : Type 0} ⦃clients : ClientManagerInterface C⦄
    ⦃disk : ClusterNodeStorageInterface S⦄ where
  -- "update commit_index_", once a majority has the entry at `last_index_synced`.
  unfoldable pub commit_synced : ℤ → World C S → Outcome (World C S)
  commit_synced last_index_synced w =
      if ltb_ℤ w.node.commit_index last_index_synced
      then (if ltb_ℤ (half w.node.total_nodes)
            (pos (suc (count_synced_nodes last_index_synced w.node.matched_index)))
          then commit_up_to (max_ℤ w.node.commit_index last_index_synced) last_index_synced w
          else ok w)
      else ok w

  -- The next entry to send is the one after the matched one.
  unfoldable pub set_next_index : ℤ → World C S → Outcome (World C S)
  set_next_index follower_id w = do
    next ← increment (find_or w.node.matched_index follower_id (pos 0))
    ok (record w {
      node = record w.node { next_index = OrdMap.assign follower_id next w.node.next_index };
    })

  unfoldable pub response_success : AppendEntriesResponse → World C S → Outcome (World C S)
  response_success resp w = do
    let matched = OrdMap.assign resp.follower_id resp.last_index_synced w.node.matched_index
    w' ←
        commit_synced resp.last_index_synced
          (record w { node = record w.node { matched_index = matched } })
    set_next_index resp.follower_id w'

  unfoldable pub response_failure : AppendEntriesResponse → World C S → World C S
  response_failure resp w =
      if ltb_ℤ w.node.cur_term resp.term
      then record w { node = record w.node { cur_term = resp.term } }
      else (let next = find_or w.node.next_index resp.follower_id (pos 0) in
          record w {
            node = record w.node {
              next_index =
                  OrdMap.assign resp.follower_id (max_ℤ (pos 1) (next -ℤ pos 1)) w.node.next_index;
            };
          })

  -- One request fewer is pending.
  unfoldable pub response_received : ℤ → World C S → World C S
  response_received follower_id w = record w {
    node = record w.node {
      pending_append_reqs =
          OrdMap.assign follower_id
            (max_ℤ (pos 0) (find_or w.node.pending_append_reqs follower_id (pos 0) -ℤ pos 1))
            w.node.pending_append_reqs;
    };
  }

  unfoldable pub read_response : AppendEntriesResponse → World C S → Outcome (World C S)
  read_response resp w =
      if resp.append_result_success ==ℤ pos 0
      then ok (response_failure resp w)
      else response_success resp w

  unfoldable pub append_entries_response : AppendEntriesResponse → World C S → Outcome (World C S)
  append_entries_response resp w = do
    w' ← read_response resp (response_received resp.follower_id w)
    trigger_entry_update resp.follower_id w'

  -- CLIENT_PUT_MESSAGE; the message id is drawn at random.
  unfoldable pub client_put_message : ClientPutMessage → ℤ → World C S → Outcome (World C S)
  client_put_message req random_id w =
      if is_leader w.node.state then add_log_entry (put_entry req random_id w.node) w else ok w

  -- CLIENT_COMMIT_MESSAGE.
  unfoldable pub client_commit_message : ClientCommitMessage → World C S → Outcome (World C S)
  client_commit_message req w =
      if is_leader w.node.state then add_log_entry (commit_entry req w.node) w else ok w

  -- The answer goes to whichever client of the partition is next; its id is dropped.
  unfoldable pub answer_client : FlowMessage → World C S → Outcome (World C S)
  answer_client m w = do
    (_, c) ←
        clients.deliver_one_message_round_robin w.node.partition_id
          (serialize_raft_message w.node m) w.clients
    ok (record w { clients = c })

  -- CLIENT_OPEN_QUEUE.
  unfoldable pub client_open_queue : World C S → Outcome (World C S)
  client_open_queue w =
      if is_leader w.node.state
      then (do w' ← answer_client queue_opened w; trigger_message_delivery w')
      else answer_client (not_leader (get_address_for_node w.servers w.node.cur_leader)) w
