-- ===== src/ClusterNode/Follower.antt =====
-- local_message_handler of src/flowmq/cluster_node.cpp, case APPEND_ENTRIES_REQUEST.
use flowmq.Base.{
  ℤ, pos, minus_one, pos_part, [], ◌∷◌, ◌++◌, Bool, true, false, ◌&&◌, ◌||◌, Outcome, ok, ◌>>=◌,
  or_fault, ltb_ℤ, if◌then◌else◌,
}
use flowmq.Protocol.{AppendEntriesRequest, raft_message, load_append_entries_response, FlowMessage}
use flowmq.Interfaces.{ClientManagerInterface, ClusterNodeStorageInterface}
use flowmq.ClusterNode.State.{
  World, ClusterNode, State, follower, candidate, write_message, serialize_raft_message,
}
use flowmq.ClusterNode.Log.{check_if_previous_log_in_sync, append_log_entries, back, size}
use flowmq.ClusterNode.Delivery.{is_leader}
use flowmq.ClusterNode.Commit.{commit_up_to}

abbrev pub is_candidate : State → Bool
is_candidate candidate = true
is_candidate s = false

abbrev append_response : ℤ → ℤ → ClusterNode → FlowMessage
append_response result last_index_synced n =
    load_append_entries_response
      (record {
        term = n.cur_term;
        follower_id = n.node_id;
        append_result_success = result;
        last_index_synced = last_index_synced;
      })
      raft_message

module _ {C S : Type 0} where
  -- The answer to the leader that sent `req`.
  unfoldable pub answer : AppendEntriesRequest → ℤ → ℤ → World C S → World C S
  answer req result last_index_synced w = record w {
    outbox =
        w.outbox
        ++ write_message req.leader_id
            (serialize_raft_message w.node (append_response result last_index_synced w.node))
          ∷ [];
  }

  -- A request of an older term.
  unfoldable pub reject_expired : AppendEntriesRequest → World C S → World C S
  reject_expired req w =
      answer req (pos 0) minus_one (record w { node = record w.node { cur_leader = minus_one } })

  -- The node takes the term and the leader of the request.
  unfoldable pub follow : AppendEntriesRequest → ℤ → World C S → World C S
  follow req now w =
      let n = w.node in
      let converts = is_candidate n.state || (is_leader n.state && ltb_ℤ n.cur_term req.term) in
      record w {
        node = record n {
          state = if converts then follower else n.state;
          last_heart_beat_received = now;
          cur_term = req.term;
          cur_leader = req.leader_id;
        };
      }

module _ {C S : Type 0} ⦃clients : ClientManagerInterface C⦄
    ⦃disk : ClusterNodeStorageInterface S⦄ where
  -- "update leader commit": the entries that this node has, up to the leader's commit index.
  unfoldable pub update_leader_commit : AppendEntriesRequest → World C S → Outcome (World C S)
  update_leader_commit req w =
      if ltb_ℤ w.node.commit_index req.leader_commit
        && ltb_ℤ req.leader_commit (size w.node.log_entries)
      then commit_up_to req.leader_commit req.leader_commit w
      else ok w

  -- "append logs from leader", and the answer with the index of the last entry.
  unfoldable pub append_and_answer : AppendEntriesRequest → World C S → Outcome (World C S)
  append_and_answer req w = do
    let log = append_log_entries (pos_part req.prev_log_index) req.entries w.node.log_entries
    last ← or_fault (back log)
    ok (answer req (pos 1) last.index (record w { node = record w.node { log_entries = log } }))

  unfoldable pub update_log : AppendEntriesRequest → World C S → Outcome (World C S)
  update_log req w = do w' ← update_leader_commit req w; append_and_answer req w'

  -- From "check if previous log in sync" on.
  unfoldable pub sync_log : AppendEntriesRequest → World C S → Outcome (World C S)
  sync_log req w = do
    in_sync ← check_if_previous_log_in_sync req.prev_log_term req.prev_log_index w.node.log_entries
    if in_sync then update_log req w else ok (answer req (pos 0) minus_one w)

  unfoldable pub append_entries_request : AppendEntriesRequest → ℤ → World C S → Outcome (World C S)
  append_entries_request req now w =
      if ltb_ℤ req.term w.node.cur_term
      then ok (reject_expired req w)
      else sync_log req (follow req now w)
