-- ===== src/ClusterNode/QueueEvents.antt =====
-- Every event of src/flowmq/cluster_node.cpp keeps the containers of the node's queue in agreement.
use flowmq.Base.{
  ℤ, ℕ, zero, suc, pos, minus_one, List, [], ◌∷◌, ok, >>=-eq-ok, ok-injective, ◌≡◌, sym, ap, subst,
  arith, inl, inr, Bool-cases, ltb_ℤ, ◌&&◌, ◌==ℤ◌, if◌then◌else◌, max_ℤ,
}
use flowmq.MessageQueue.Invariant.{IsValid}
use flowmq.Protocol.{
  AppendEntriesRequest, AppendEntriesResponse, LogEntry, FlowMessage, MessageType,
  get_append_request, get_append_response, get_put_message_request, get_commit_message_request,
}
use flowmq.Interfaces.{ClientManagerInterface, ClusterNodeStorageInterface}
use flowmq.ClusterNode.State.{World, half, get_address_for_node}
use flowmq.ClusterNode.Commit.{commit_up_to, store_commit}
use flowmq.ClusterNode.Log.{size, check_if_previous_log_in_sync}
use flowmq.ClusterNode.Frames.{commit_up_to_cases, trigger_entry_update-Sends, add_log_entry-Sends}
use flowmq.ClusterNode.Follower.{
  update_leader_commit, append_and_answer, answer, update_log, sync_log, append_entries_request,
  reject_expired, follow,
}
use flowmq.ClusterNode.Leader.{
  commit_synced, count_synced_nodes, set_next_index, read_response, response_failure,
  response_success, response_received, append_entries_response, put_entry, commit_entry,
  client_put_message, client_commit_message, client_open_queue, answer_client, queue_opened,
  not_leader,
}
use flowmq.ClusterNode.Vote.{
  request_vote_request, answer_vote, request_vote_response, count_vote, vote_timer, delayed_vote,
  send_vote_request,
}
use flowmq.ClusterNode.Replicate.{trigger_entry_update, add_log_entry}
use flowmq.ClusterNode.Delivery.{is_leader, trigger_message_delivery}
use flowmq.ClusterNode.Handler.{
  Event, message, vote_timer_fires, delayed_vote_fires, heartbeat_timer_fires, consumer_leaves,
  dispatch, heartbeat_timer, handle, run, local_message_handler,
}
use flowmq.Containers.OrdMap
use flowmq.ClusterNode.Queue.{
  commit_log_entries-IsValid, trigger_message_delivery-IsValid, consumer_disconnected-IsValid,
}

module _ {C S : Type 0} ⦃clients : ClientManagerInterface C⦄
    ⦃disk : ClusterNodeStorageInterface S⦄ where
  commit_up_to-IsValid :
      (index last : ℤ) (w w' : World C S)
      → IsValid w.node.message_queue
      → commit_up_to index last w ≡ ok w'
      → IsValid w'.node.message_queue
  unfolding store_commit
  commit_up_to-IsValid index last w w' v e =
      let (start, stop, u, a, b, c, d) = commit_up_to_cases index last w w' e in
      subst IsValid (ground (arith, d)) (commit_log_entries-IsValid start stop w u v c)

  update_leader_commit-IsValid :
      (req : AppendEntriesRequest) (w w' : World C S)
      → IsValid w.node.message_queue
      → update_leader_commit req w ≡ ok w'
      → IsValid w'.node.message_queue
  unfolding update_leader_commit
  update_leader_commit-IsValid req w w' v e =
      elim (Bool-cases (
        ltb_ℤ w.node.commit_index req.leader_commit
        && ltb_ℤ req.leader_commit (size w.node.log_entries))) [
          | inl b ↦
              commit_up_to-IsValid req.leader_commit req.leader_commit w w' v (ground (arith, e, b))
          | inr b ↦ subst IsValid (ground (arith, e, b)) v
        ]

  commit_synced-IsValid :
      (last : ℤ) (w w' : World C S)
      → IsValid w.node.message_queue
      → commit_synced last w ≡ ok w'
      → IsValid w'.node.message_queue
  unfolding commit_synced
  commit_synced-IsValid last w w' v e =
      elim (Bool-cases (
        ltb_ℤ w.node.commit_index last
        && ltb_ℤ (half w.node.total_nodes)
            (pos (suc (count_synced_nodes last w.node.matched_index))))) [
              | inl b ↦
                  commit_up_to-IsValid (max_ℤ w.node.commit_index last) last w w' v
                    (ground (arith, e, b))
              | inr b ↦ subst IsValid (ground (arith, e, b)) v
            ]

  append_and_answer-queue :
      (req : AppendEntriesRequest) (w w' : World C S)
      → append_and_answer req w ≡ ok w'
      → w.node.message_queue ≡ w'.node.message_queue
  unfolding append_and_answer answer
  append_and_answer-queue req w w' e = ground arith

  update_log-IsValid :
      (req : AppendEntriesRequest) (w w' : World C S)
      → IsValid w.node.message_queue
      → update_log req w ≡ ok w'
      → IsValid w'.node.message_queue
  unfolding update_log
  update_log-IsValid req w w' v e =
      let (u, first, rest) = >>=-eq-ok (update_leader_commit req w) (append_and_answer req) e in
      subst IsValid (append_and_answer-queue req u w' rest)
        (update_leader_commit-IsValid req w u v first)

  sync_log-IsValid :
      (req : AppendEntriesRequest) (w w' : World C S)
      → IsValid w.node.message_queue
      → sync_log req w ≡ ok w'
      → IsValid w'.node.message_queue
  unfolding sync_log answer
  sync_log-IsValid req w w' v e =
      let (in_sync, first, rest) =
        >>=-eq-ok
          (check_if_previous_log_in_sync req.prev_log_term req.prev_log_index w.node.log_entries)
          (λ in_sync. if in_sync then update_log req w else ok (answer req (pos 0) minus_one w))
          e in
      elim (Bool-cases in_sync) [
        | inl b ↦ update_log-IsValid req w w' v (ground (arith, rest, b))
        | inr b ↦ subst IsValid (ground (arith, rest, b)) v
      ]

  append_entries_request-IsValid :
      (req : AppendEntriesRequest) (now : ℤ) (w w' : World C S)
      → IsValid w.node.message_queue
      → append_entries_request req now w ≡ ok w'
      → IsValid w'.node.message_queue
  unfolding append_entries_request reject_expired answer
  append_entries_request-IsValid req now w w' v e =
      elim (Bool-cases (ltb_ℤ req.term w.node.cur_term)) [
        | inl b ↦ subst IsValid (ground (arith, e, b)) v
        | inr b ↦
            sync_log-IsValid req (follow req now w) w' (unfold follow in v) (ground (arith, e, b))
      ]

  set_next_index-queue :
      (follower_id : ℤ) (w w' : World C S)
      → set_next_index follower_id w ≡ ok w'
      → w.node.message_queue ≡ w'.node.message_queue
  unfolding set_next_index
  set_next_index-queue follower_id w w' e = ground arith

  read_response-IsValid :
      (resp : AppendEntriesResponse) (w w' : World C S)
      → IsValid w.node.message_queue
      → read_response resp w ≡ ok w'
      → IsValid w'.node.message_queue
  unfolding read_response response_failure response_success
  read_response-IsValid resp w w' v e = elim (Bool-cases (resp.append_result_success ==ℤ pos 0)) [
    | inl b ↦ subst IsValid (ground (arith, e, b)) v
    | inr b ↦
        let (u, first, rest) =
          >>=-eq-ok (commit_synced resp.last_index_synced matched) (set_next_index resp.follower_id)
            {r = w'} (ground (arith, e, b)) in
        subst IsValid (set_next_index-queue resp.follower_id u w' rest)
          (commit_synced-IsValid resp.last_index_synced matched u v first)
  ]
    where
      matched : World C S
      matched = record w {
        node = record w.node {
          matched_index =
              OrdMap.assign resp.follower_id resp.last_index_synced w.node.matched_index;
        };
      }

  append_entries_response-IsValid :
      (resp : AppendEntriesResponse) (w w' : World C S)
      → IsValid w.node.message_queue
      → append_entries_response resp w ≡ ok w'
      → IsValid w'.node.message_queue
  unfolding append_entries_response response_received
  append_entries_response-IsValid resp w w' v e =
      let w₁ = response_received resp.follower_id w in
      let (u, first, rest) =
        >>=-eq-ok (read_response resp w₁) (trigger_entry_update resp.follower_id) e in
      subst IsValid
        (sym (
          ap (λ n. n.message_queue)
            (trigger_entry_update-Sends resp.follower_id u w' rest).node_same))
        (read_response-IsValid resp w₁ u v first)

  add_log_entry-queue :
      (entry : LogEntry) (w w' : World C S)
      → add_log_entry entry w ≡ ok w'
      → w.node.message_queue ≡ w'.node.message_queue
  add_log_entry-queue entry w w' e =
      sym (ap (λ n. n.message_queue) (add_log_entry-Sends entry w w' e).node_same)

  answer_client-queue :
      (m : FlowMessage) (w w' : World C S)
      → answer_client m w ≡ ok w'
      → w.node.message_queue ≡ w'.node.message_queue
  unfolding answer_client
  answer_client-queue m w w' e = ground arith

  client_open_queue-IsValid :
      (w w' : World C S)
      → IsValid w.node.message_queue
      → client_open_queue w ≡ ok w'
      → IsValid w'.node.message_queue
  unfolding client_open_queue
  client_open_queue-IsValid w w' v e = elim (Bool-cases (is_leader w.node.state)) [
    | inl b ↦
        let (u, first, rest) =
          >>=-eq-ok (answer_client queue_opened w) trigger_message_delivery {r = w'}
            (ground (arith, e, b)) in
        trigger_message_delivery-IsValid u w'
          (subst IsValid (answer_client-queue queue_opened w u first) v) rest
    | inr b ↦
        subst IsValid
          (answer_client-queue (not_leader (get_address_for_node w.servers w.node.cur_leader)) w w'
            (ground (arith, e, b)))
          v
  ]

  dispatch-IsValid :
      (t : MessageType) (m : FlowMessage) (now id : ℤ) (w w' : World C S)
      → IsValid w.node.message_queue
      → dispatch t m now id w ≡ ok w'
      → IsValid w'.node.message_queue
  unfolding request_vote_request answer_vote request_vote_response count_vote client_put_message
      client_commit_message
  dispatch-IsValid MessageType.append_entries_request m now id w w' v e =
      append_entries_request-IsValid (get_append_request m) now w w' v e
  dispatch-IsValid MessageType.append_entries_response m now id w w' v e =
      append_entries_response-IsValid (get_append_response m) w w' v e
  dispatch-IsValid MessageType.request_vote_request m now id w w' v e =
      subst IsValid (ground (arith, e)) v
  dispatch-IsValid MessageType.request_vote_response m now id w w' v e =
      subst IsValid (ground (arith, e)) v
  dispatch-IsValid MessageType.client_put_message m now id w w' v e =
      subst IsValid
        (ground
          (arith, e, add_log_entry-queue (put_entry (get_put_message_request m) id w.node) w w'))
        v
  dispatch-IsValid MessageType.client_open_queue m now id w w' v e =
      client_open_queue-IsValid w w' v e
  dispatch-IsValid MessageType.client_commit_message m now id w w' v e =
      subst IsValid
        (ground
          (arith, e, add_log_entry-queue (commit_entry (get_commit_message_request m) w.node) w w'))
        v
  dispatch-IsValid other m now id w w' v e = subst IsValid (ground (arith, e)) v

  delayed-queue :
      (n : ℕ) (w w' : World C S)
      → delayed_vote n w ≡ ok w'
      → w.node.message_queue ≡ w'.node.message_queue
  unfolding delayed_vote send_vote_request
  delayed-queue zero w w' e = ground arith
  delayed-queue (suc n) w w' e = ground arith

  handle-IsValid :
      (e : Event) (w w' : World C S)
      → IsValid w.node.message_queue
      → handle e w ≡ ok w'
      → IsValid w'.node.message_queue
  unfolding handle local_message_handler vote_timer heartbeat_timer
  handle-IsValid (message m now id) w w' v e = dispatch-IsValid m.type m now id w w' v e
  handle-IsValid (vote_timer_fires now) w w' v e = subst IsValid (ground (arith, e)) v
  handle-IsValid delayed_vote_fires w w' v e =
      subst IsValid (delayed-queue w.waiting_votes w w' e) v
  handle-IsValid heartbeat_timer_fires w w' v e = subst IsValid (ground (arith, e)) v
  handle-IsValid (consumer_leaves c) w w' v e = consumer_disconnected-IsValid c w w' v e

  -- After a run that returns, from a valid queue on, the node's queue is valid again: each stored
  -- message is in one of its three states, the two maps between messages and consumers are inverse to
  -- one another, and the undelivered ids ascend.
  pub run-IsValid :
      (es : List Event) (w w' : World C S)
      → IsValid w.node.message_queue
      → run es w ≡ ok w'
      → IsValid w'.node.message_queue
  unfolding run
  run-IsValid [] w w' v e = subst (λ u. IsValid u.node.message_queue) (ok-injective e) v
  run-IsValid (ev ∷ es) w w' v e =
      let (u, first, rest) = >>=-eq-ok (handle ev w) (run es) e in
      run-IsValid es u w' (handle-IsValid ev w u v first) rest
