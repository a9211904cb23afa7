-- ===== src/ClusterNode/Roles.antt =====
-- How a node of src/flowmq/cluster_node.cpp changes between follower, candidate and leader.
use flowmq.Base.{
  ℤ, ℕ, zero, suc, ok, >>=-eq-ok, ◌≡◌, refl, sym, ◌∙◌, arith, ◌<ℤ◌, ◌⊎◌, inl, subst, ok-injective,
}
use flowmq.Containers.OrdMap
use flowmq.Protocol.{
  AppendEntriesRequest, AppendEntriesResponse, RequestVoteRequest, RequestVoteResponse,
  ClientPutMessage, ClientCommitMessage, FlowMessage, MessageType, get_append_request,
  get_append_response, get_vote_request, get_vote_response, get_put_message_request,
  get_commit_message_request,
}
use flowmq.Interfaces.{ClientManagerInterface, ClusterNodeStorageInterface}
use flowmq.ClusterNode.State.{World, leader, follower, candidate, half}
use flowmq.ClusterNode.Leader.{
  commit_synced, set_next_index, read_response, response_success, response_failure,
  response_received, append_entries_response, client_put_message, client_commit_message,
  client_open_queue, answer_client, put_entry, commit_entry,
}
use flowmq.ClusterNode.Replicate.{trigger_entry_update}
use flowmq.ClusterNode.Vote.{
  request_vote_request, request_vote_response, count_vote, answer_vote, vote_timer, delayed_vote,
  send_vote_request,
}
use flowmq.ClusterNode.Follower.{
  update_leader_commit, append_and_answer, update_log, sync_log, answer, reject_expired, follow,
  append_entries_request,
}
use flowmq.ClusterNode.Handler.{
  Event, message, vote_timer_fires, delayed_vote_fires, heartbeat_timer_fires, consumer_leaves,
  heartbeat_timer, dispatch, handle, local_message_handler,
}
use flowmq.ClusterNode.Frames.{
  trigger_entry_update-Sends, add_log_entry-Sends, trigger_message_delivery_frame,
  consumer_disconnected_frame,
}
use flowmq.ClusterNode.Advance.{update_leader_commit_frame, commit_synced_frame}

module _ {C S : Type 0} ⦃clients : ClientManagerInterface C⦄
    ⦃disk : ClusterNodeStorageInterface S⦄ where
  append_and_answer-role :
      (req : AppendEntriesRequest) (w w' : World C S)
      → append_and_answer req w ≡ ok w'
      → (w'.node.state ≡ w.node.state) × (w'.node.cur_term ≡ w.node.cur_term)
  unfolding append_and_answer answer
  append_and_answer-role req w w' e = ground arith

  update_log-role :
      (req : AppendEntriesRequest) (w w' : World C S)
      → update_log req w ≡ ok w'
      → (w'.node.state ≡ w.node.state) × (w'.node.cur_term ≡ w.node.cur_term)
  unfolding update_log
  update_log-role req w w' e =
      let (v, first, rest) = >>=-eq-ok (update_leader_commit req w) (append_and_answer req) e in
      ground (arith, update_leader_commit_frame req w v first, append_and_answer-role req v w' rest)

  sync_log-role :
      (req : AppendEntriesRequest) (w w' : World C S)
      → sync_log req w ≡ ok w'
      → (w'.node.state ≡ w.node.state) × (w'.node.cur_term ≡ w.node.cur_term)
  unfolding sync_log answer
  sync_log-role req w w' e = ground (arith, update_log-role req w w')

  response_success-role :
      (resp : AppendEntriesResponse) (w w' : World C S)
      → response_success resp w ≡ ok w'
      → w'.node.state ≡ w.node.state
  unfolding response_success set_next_index
  response_success-role resp w w' e =
      let matched = OrdMap.assign resp.follower_id resp.last_index_synced w.node.matched_index in
      let w₁ = record w { node = record w.node { matched_index = matched } } in
      let (v, first, rest) =
        >>=-eq-ok (commit_synced resp.last_index_synced w₁) (set_next_index resp.follower_id) e in
      ground (arith, commit_synced_frame resp.last_index_synced w₁ v first)

  append_entries_response-role :
      (resp : AppendEntriesResponse) (w w' : World C S)
      → append_entries_response resp w ≡ ok w'
      → w'.node.state ≡ w.node.state
  unfolding append_entries_response response_received read_response response_failure
  append_entries_response-role resp w w' e =
      let w₁ = response_received resp.follower_id w in
      let (v, first, rest) =
        >>=-eq-ok (read_response resp w₁) (trigger_entry_update resp.follower_id) e in
      ground (
        arith,
        response_success-role resp w₁ v,
        trigger_entry_update-Sends resp.follower_id v w' rest,
      )

  -- What a step may do to the role.
  pub record Changes (w w' : World C S) : Type 0 where
    -- A leader was leader before, or was a candidate that has counted more than half of the votes.
    pub elected :
        w'.node.state ≡ leader
        → (w.node.state ≡ leader)
          ⊎ ((w.node.state ≡ candidate) × (half w'.node.total_nodes <ℤ w'.node.votes_collected))
    -- A leader stays the leader, or becomes a follower in a later term.
    pub deposed :
        w.node.state ≡ leader
        → (w'.node.state ≡ leader)
          ⊎ ((w'.node.state ≡ follower) × (w.node.cur_term <ℤ w'.node.cur_term))

  same-Changes : {w w' : World C S} → w'.node.state ≡ w.node.state → Changes w w'
  same-Changes e = record { elected = λ l. inl (sym e ∙ l); deposed = λ l. inl (e ∙ l) }

  append_entries_request-Changes :
      (req : AppendEntriesRequest) (now : ℤ) (w w' : World C S)
      → append_entries_request req now w ≡ ok w'
      → Changes w w'
  unfolding append_entries_request reject_expired follow answer
  append_entries_request-Changes req now w w' e = record {
    elected = ground (arith, sync_log-role req (follow req now w) w');
    deposed = ground (arith, sync_log-role req (follow req now w) w');
  }

  request_vote_response-Changes :
      (resp : RequestVoteResponse) (w w' : World C S)
      → request_vote_response resp w ≡ ok w'
      → Changes w w'
  unfolding request_vote_response count_vote
  request_vote_response-Changes resp w w' e = record {
    elected = ground arith;
    deposed = ground arith;
  }

  request_vote_request-role :
      (req : RequestVoteRequest) (w : World C S)
      → (request_vote_request req w).node.state ≡ w.node.state
  unfolding request_vote_request answer_vote
  request_vote_request-role req w = ground arith

  client_put_message-role :
      (req : ClientPutMessage) (id : ℤ) (w w' : World C S)
      → client_put_message req id w ≡ ok w'
      → w'.node.state ≡ w.node.state
  unfolding client_put_message
  client_put_message-role req id w w' e =
      ground (arith, add_log_entry-Sends (put_entry req id w.node) w w')

  client_commit_message-role :
      (req : ClientCommitMessage) (w w' : World C S)
      → client_commit_message req w ≡ ok w'
      → w'.node.state ≡ w.node.state
  unfolding client_commit_message
  client_commit_message-role req w w' e =
      ground (arith, add_log_entry-Sends (commit_entry req w.node) w w')

  client_open_queue-role :
      (w w' : World C S) → client_open_queue w ≡ ok w' → w'.node.state ≡ w.node.state
  unfolding client_open_queue answer_client
  client_open_queue-role w w' e = grind (arith, trigger_message_delivery_frame)

  vote_timer-Changes : (now : ℤ) (w w' : World C S) → vote_timer now w ≡ ok w' → Changes w w'
  unfolding vote_timer
  vote_timer-Changes now w w' e = record { elected = ground arith; deposed = ground arith }

  delayed_vote-role :
      (n : ℕ) (w w' : World C S) → delayed_vote n w ≡ ok w' → w'.node.state ≡ w.node.state
  unfolding delayed_vote send_vote_request
  delayed_vote-role zero w w' e = ground arith
  delayed_vote-role (suc n) w w' e = ground arith

  heartbeat_timer-role :
      (w w' : World C S) → heartbeat_timer w ≡ ok w' → w'.node.state ≡ w.node.state
  unfolding heartbeat_timer
  heartbeat_timer-role w w' e = ground arith

  dispatch-Changes :
      (t : MessageType) (m : FlowMessage) (now id : ℤ) (w w' : World C S)
      → dispatch t m now id w ≡ ok w'
      → Changes w w'
  dispatch-Changes MessageType.append_entries_request m now id w w' e =
      append_entries_request-Changes (get_append_request m) now w w' e
  dispatch-Changes MessageType.append_entries_response m now id w w' e =
      same-Changes (append_entries_response-role (get_append_response m) w w' e)
  dispatch-Changes MessageType.request_vote_request m now id w w' e =
      subst (Changes w) (ok-injective e)
        (same-Changes (request_vote_request-role (get_vote_request m) w))
  dispatch-Changes MessageType.request_vote_response m now id w w' e =
      request_vote_response-Changes (get_vote_response m) w w' e
  dispatch-Changes MessageType.client_put_message m now id w w' e =
      same-Changes (client_put_message-role (get_put_message_request m) id w w' e)
  dispatch-Changes MessageType.client_open_queue m now id w w' e =
      same-Changes (client_open_queue-role w w' e)
  dispatch-Changes MessageType.client_commit_message m now id w w' e =
      same-Changes (client_commit_message-role (get_commit_message_request m) w w' e)
  dispatch-Changes other m now id w w' e = subst (Changes w) (ok-injective e) (same-Changes refl)

  -- In a handler that returns, a node becomes the leader only as a candidate that has counted the
  -- votes of more than half of the nodes, and the leader stops being it only as a follower in a
  -- later term.
  pub handle-Changes : (e : Event) (w w' : World C S) → handle e w ≡ ok w' → Changes w w'
  unfolding handle local_message_handler
  handle-Changes (message m now id) w w' e = dispatch-Changes m.type m now id w w' e
  handle-Changes (vote_timer_fires now) w w' e = vote_timer-Changes now w w' e
  handle-Changes delayed_vote_fires w w' e = same-Changes (delayed_vote-role w.waiting_votes w w' e)
  handle-Changes heartbeat_timer_fires w w' e = same-Changes (heartbeat_timer-role w w' e)
  handle-Changes (consumer_leaves c) w w' e =
      same-Changes (ground (arith, consumer_disconnected_frame c w w' e))
