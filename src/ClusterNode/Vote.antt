-- ===== src/ClusterNode/Vote.antt =====
-- local_message_handler of src/flowmq/cluster_node.cpp, cases REQUEST_VOTE_REQUEST and
-- REQUEST_VOTE_RESPONSE, and start_vote_scheduler.
use flowmq.Base.{
  ℤ, pos, minus_one, ℕ, zero, suc, [], ◌∷◌, ◌++◌, Bool, true, false, ◌&&◌, ◌||◌, not, Outcome, ok,
  ◌>>=◌, or_fault, increment, ltb_ℤ, ◌==ℤ◌, ◌+ℤ◌, if◌then◌else◌,
}
use flowmq.Protocol.{
  RequestVoteRequest, RequestVoteResponse, raft_message, load_vote_result, load_vote_request,
}
use flowmq.ClusterNode.State.{
  World, ClusterNode, State, leader, follower, candidate, broad_cast, write_message,
  serialize_raft_message, half,
}
use flowmq.ClusterNode.Log.{back}
use flowmq.ClusterNode.Delivery.{is_leader}
use flowmq.ClusterNode.Follower.{is_candidate}

abbrev pub is_follower : State → Bool
is_follower follower = true
is_follower s = false

-- HEARTBEAT_EXPIRE_SECONDS + 2
abbrev pub heartbeat_margin : ℤ
heartbeat_margin = pos 5

-- A lower term, or a vote for somebody else this term.
abbrev pub invalid_request : RequestVoteRequest → ClusterNode → Bool
invalid_request req n =
    ltb_ℤ req.term n.cur_term
    || ((req.term ==ℤ n.cur_term)
        && (not (n.voted_for ==ℤ minus_one) && not (n.voted_for ==ℤ req.candidate_id)))

-- A higher term is taken over, in every state.
abbrev pub adopt_term : RequestVoteRequest → ClusterNode → ClusterNode
adopt_term req n =
    if ltb_ℤ n.cur_term req.term
    then record n { cur_term = req.term; votes_collected = pos 0 }
    else n

-- A vote is counted; with more than half of them the node is the leader.
unfoldable pub count_vote : RequestVoteResponse → ClusterNode → Outcome ClusterNode
count_vote resp n = do
  votes ←
      (if resp.vote_result_term_granted ==ℤ pos 1
        then increment n.votes_collected
        else ok n.votes_collected)
  if ltb_ℤ (half n.total_nodes) votes
      then ok (record n { votes_collected = votes; state = leader; cur_term = resp.term })
      else ok (record n { votes_collected = votes })

module _ {C S : Type 0} where
  unfoldable pub answer_vote : RequestVoteRequest → ℤ → World C S → World C S
  answer_vote req granted w = record w {
    outbox =
        w.outbox
        ++ write_message req.candidate_id (
            serialize_raft_message w.node (
              load_vote_result (record { term = req.term; vote_result_term_granted = granted })
                raft_message))
          ∷ [];
  }

  unfoldable pub request_vote_request : RequestVoteRequest → World C S → World C S
  request_vote_request req w =
      if invalid_request req w.node
      then answer_vote req (pos 0) w
      else (let n = adopt_term req w.node in
          if is_leader n.state
          then record w { node = n }
          else answer_vote req (pos 1)
              (record w { node = record n { voted_for = req.candidate_id } }))

  unfoldable pub request_vote_response : RequestVoteResponse → World C S → Outcome (World C S)
  request_vote_response resp w =
      if is_candidate w.node.state
        && (not (resp.vote_result_term_granted ==ℤ pos 0) && not (ltb_ℤ resp.term w.node.cur_term))
      then (do n ← count_vote resp w.node; ok (record w { node = n }))
      else ok w

  -- The timer of `start_vote_scheduler`: a follower that has heard nothing becomes a candidate, and
  -- a candidate starts a new round, with its own request to follow after a random delay.
  unfoldable pub vote_timer : ℤ → World C S → Outcome (World C S)
  vote_timer now w =
      let silent = ltb_ℤ (w.node.last_heart_beat_received +ℤ heartbeat_margin) now in
      let state = if is_follower w.node.state && silent then candidate else w.node.state in
      if is_candidate state
      then (do
        term ← increment w.node.cur_term
        ok (record w {
          node = record w.node {
            state = state;
            cur_term = term;
            votes_collected = pos 0;
            voted_for = minus_one;
          };
          waiting_votes = suc w.waiting_votes;
        }))
      else ok w

  -- The delayed request: the node votes for itself, unless it has voted already.
  unfoldable pub send_vote_request : World C S → Outcome (World C S)
  send_vote_request w = if not (w.node.voted_for ==ℤ minus_one) then ok w else (do
    last ← or_fault (back w.node.log_entries)
    votes ← increment w.node.votes_collected
    let req =
        load_vote_request
          (record {
            term = w.node.cur_term;
            candidate_id = w.node.node_id;
            last_log_index = last.index;
            last_log_term = last.term;
          })
          raft_message
    ok (record w {
      node = record w.node { voted_for = w.node.node_id; votes_collected = votes };
      outbox = w.outbox ++ broad_cast (serialize_raft_message w.node req) ∷ [];
    }))

  unfoldable pub delayed_vote : ℕ → World C S → Outcome (World C S)
  delayed_vote zero w = ok w
  delayed_vote (suc n) w = send_vote_request (record w { waiting_votes = n })
