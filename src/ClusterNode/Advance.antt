-- ===== src/ClusterNode/Advance.antt =====
-- What no event of src/flowmq/cluster_node.cpp takes back: the term and the commit index.
use flowmq.Base.{ℤ, pos, minus_one, ok, >>=-eq-ok, ◌≡◌, refl, arith, ◌≤ℤ◌, max_ℤ}
use flowmq.Protocol.{
  AppendEntriesRequest, AppendEntriesResponse, RequestVoteResponse, ClientPutMessage,
  ClientCommitMessage,
}
use flowmq.ClusterNode.Leader.{
  commit_synced, set_next_index, read_response, response_success, response_failure,
  response_received, append_entries_response, client_put_message, client_commit_message,
  client_open_queue, answer_client, put_entry, commit_entry,
}
use flowmq.Containers.OrdMap
use flowmq.ClusterNode.Replicate.{trigger_entry_update}
use flowmq.ClusterNode.Delivery.{consumer_disconnected}
use flowmq.ClusterNode.Vote.{request_vote_response, count_vote}
use flowmq.ClusterNode.Handler.{heartbeat_timer}
use flowmq.Interfaces.{ClientManagerInterface, ClusterNodeStorageInterface}
use flowmq.ClusterNode.State.{World}
use flowmq.ClusterNode.Follower.{
  update_leader_commit, append_and_answer, update_log, sync_log, answer, reject_expired, follow,
  append_entries_request,
}
use flowmq.ClusterNode.Frames.{
  commit_up_to_frame, trigger_entry_update-Sends, add_log_entry-Sends,
  trigger_message_delivery_frame, consumer_disconnected_frame, no_ballot, ballots,
}

module _ {C S : Type 0} where
  pub record Quiet (w w' : World C S) : Type 0 where
    pub term_le : w.node.cur_term ≤ℤ w'.node.cur_term
    pub commit_le : w.node.commit_index ≤ℤ w'.node.commit_index
    pub node_id_same : w'.node.node_id ≡ w.node.node_id
    pub voted_for_same : w'.node.voted_for ≡ w.node.voted_for
    pub ballots_same : ballots w'.outbox ≡ ballots w.outbox

  pub Quiet-refl : (w : World C S) → Quiet w w
  Quiet-refl w = record {
    term_le = omega arith;
    commit_le = omega arith;
    node_id_same = refl;
    voted_for_same = refl;
    ballots_same = refl;
  }

  pub answer-Quiet :
      (req : AppendEntriesRequest) (result last : ℤ) (w : World C S)
      → Quiet w (answer req result last w)
  unfolding answer
  answer-Quiet req result last w = record {
    term_le = omega arith;
    commit_le = omega arith;
    node_id_same = refl;
    voted_for_same = refl;
    ballots_same = no_ballot w.outbox _ refl;
  }

module _ {C S : Type 0} ⦃clients : ClientManagerInterface C⦄
    ⦃disk : ClusterNodeStorageInterface S⦄ where
  pub update_leader_commit_frame :
      (req : AppendEntriesRequest) (w w' : World C S)
      → update_leader_commit req w ≡ ok w'
      → (w' ≡ record w {
        node = record w.node {
          message_queue = w'.node.message_queue;
          commit_index = w'.node.commit_index;
        };
        clients = w'.clients;
        storage = w'.storage;
      })
        × (w.node.commit_index ≤ℤ w'.node.commit_index)
  unfolding update_leader_commit
  update_leader_commit_frame req w w' e =
      ground (arith, commit_up_to_frame req.leader_commit req.leader_commit w w')

  append_and_answer-Quiet :
      (req : AppendEntriesRequest) (w w' : World C S) → append_and_answer req w ≡ ok w' → Quiet w w'
  unfolding append_and_answer answer
  append_and_answer-Quiet req w w' e = grind (arith, no_ballot)

  update_log-Quiet :
      (req : AppendEntriesRequest) (w w' : World C S) → update_log req w ≡ ok w' → Quiet w w'
  unfolding update_log
  update_log-Quiet req w w' e =
      let (v, first, rest) = >>=-eq-ok (update_leader_commit req w) (append_and_answer req) e in
      ground
        (arith, update_leader_commit_frame req w v first, append_and_answer-Quiet req v w' rest)

  sync_log-Quiet :
      (req : AppendEntriesRequest) (w w' : World C S) → sync_log req w ≡ ok w' → Quiet w w'
  unfolding sync_log
  sync_log-Quiet req w w' e =
      ground (arith, update_log-Quiet req w w', answer-Quiet req (pos 0) minus_one w)

  pub append_entries_request-Quiet :
      (req : AppendEntriesRequest) (now : ℤ) (w w' : World C S)
      → append_entries_request req now w ≡ ok w'
      → Quiet w w'
  unfolding append_entries_request reject_expired follow
  append_entries_request-Quiet req now w w' e = ground (
    arith,
    sync_log-Quiet req (follow req now w) w',
    answer-Quiet req (pos 0) minus_one
        (record w { node = record w.node { cur_leader = minus_one } }),
  )

  pub commit_synced_frame :
      (last : ℤ) (w w' : World C S)
      → commit_synced last w ≡ ok w'
      → (w' ≡ record w {
        node = record w.node {
          message_queue = w'.node.message_queue;
          commit_index = w'.node.commit_index;
        };
        clients = w'.clients;
        storage = w'.storage;
      })
        × (w.node.commit_index ≤ℤ w'.node.commit_index)
  unfolding commit_synced
  commit_synced_frame last w w' e =
      ground (arith, commit_up_to_frame (max_ℤ w.node.commit_index last) last w w')

  set_next_index-Quiet :
      (follower_id : ℤ) (w w' : World C S) → set_next_index follower_id w ≡ ok w' → Quiet w w'
  unfolding set_next_index
  set_next_index-Quiet follower_id w w' e = ground arith

  response_success-Quiet :
      (resp : AppendEntriesResponse) (w w' : World C S)
      → response_success resp w ≡ ok w'
      → Quiet w w'
  unfolding response_success
  response_success-Quiet resp w w' e =
      let matched = OrdMap.assign resp.follower_id resp.last_index_synced w.node.matched_index in
      let w₁ = record w { node = record w.node { matched_index = matched } } in
      let (v, first, rest) =
        >>=-eq-ok (commit_synced resp.last_index_synced w₁) (set_next_index resp.follower_id) e in
      ground (
        arith,
        commit_synced_frame resp.last_index_synced w₁ v first,
        set_next_index-Quiet resp.follower_id v w' rest,
      )

  read_response-Quiet :
      (resp : AppendEntriesResponse) (w w' : World C S) → read_response resp w ≡ ok w' → Quiet w w'
  unfolding read_response response_failure
  read_response-Quiet resp w w' e = ground (arith, response_success-Quiet resp w w')

  pub append_entries_response-Quiet :
      (resp : AppendEntriesResponse) (w w' : World C S)
      → append_entries_response resp w ≡ ok w'
      → Quiet w w'
  unfolding append_entries_response response_received
  append_entries_response-Quiet resp w w' e =
      let w₁ = response_received resp.follower_id w in
      let (v, first, rest) =
        >>=-eq-ok (read_response resp w₁) (trigger_entry_update resp.follower_id) e in
      ground (
        arith,
        read_response-Quiet resp w₁ v first,
        trigger_entry_update-Sends resp.follower_id v w' rest,
      )

  pub request_vote_response-Quiet :
      (resp : RequestVoteResponse) (w w' : World C S)
      → request_vote_response resp w ≡ ok w'
      → Quiet w w'
  unfolding request_vote_response count_vote
  request_vote_response-Quiet resp w w' e = ground arith

  pub client_put_message-Quiet :
      (req : ClientPutMessage) (id : ℤ) (w w' : World C S)
      → client_put_message req id w ≡ ok w'
      → Quiet w w'
  unfolding client_put_message
  client_put_message-Quiet req id w w' e =
      ground (arith, add_log_entry-Sends (put_entry req id w.node) w w')

  pub client_commit_message-Quiet :
      (req : ClientCommitMessage) (w w' : World C S)
      → client_commit_message req w ≡ ok w'
      → Quiet w w'
  unfolding client_commit_message
  client_commit_message-Quiet req w w' e =
      ground (arith, add_log_entry-Sends (commit_entry req w.node) w w')

  pub client_open_queue-Quiet : (w w' : World C S) → client_open_queue w ≡ ok w' → Quiet w w'
  unfolding client_open_queue answer_client
  client_open_queue-Quiet w w' e = grind (arith, trigger_message_delivery_frame)

  pub heartbeat_timer-Quiet : (w w' : World C S) → heartbeat_timer w ≡ ok w' → Quiet w w'
  unfolding heartbeat_timer
  heartbeat_timer-Quiet w w' e = grind (arith, no_ballot)

  pub consumer_disconnected-Quiet :
      (client_id : ℤ) (w w' : World C S) → consumer_disconnected client_id w ≡ ok w' → Quiet w w'
  consumer_disconnected-Quiet client_id w w' e = grind (arith, consumer_disconnected_frame)
