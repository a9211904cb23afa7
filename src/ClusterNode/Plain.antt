-- ===== src/ClusterNode/Plain.antt =====
-- What the events of src/flowmq/cluster_node.cpp that are no votes leave alone: the role, the count
-- of votes and the timers, and which packets they hand over.
use flowmq.Base.{
  ℤ, List, [], ◌∷◌, ◌++◌, Bool, true, false, ok, >>=-eq-ok, ◌≡◌, refl, sym, ◌∙◌, arith, All,
  All-append, subst,
}
use flowmq.Protocol.{
  LogEntry, AppendEntriesRequest, AppendEntriesResponse, ClientPutMessage, ClientCommitMessage,
  MessageType,
}
use flowmq.Containers.OrdMap
use flowmq.Interfaces.{ClientManagerInterface, ClusterNodeStorageInterface}
use flowmq.ClusterNode.State.{World, Packet, broad_cast, write_message, leader, candidate, at}
use flowmq.ClusterNode.Delivery.{consumer_disconnected}
use flowmq.ClusterNode.Replicate.{send_entry, trigger_entry_update, update_all, add_log_entry}
use flowmq.ClusterNode.Leader.{
  commit_synced, set_next_index, read_response, response_success, response_failure,
  response_received, append_entries_response, client_put_message, client_commit_message,
  client_open_queue, answer_client, put_entry, commit_entry,
}
use flowmq.ClusterNode.Follower.{
  update_leader_commit, append_and_answer, update_log, sync_log, answer, reject_expired, follow,
  append_entries_request,
}
use flowmq.ClusterNode.Handler.{heartbeat_timer}
use flowmq.ClusterNode.Frames.{
  trigger_entry_update-Sends, add_log_entry-Sends, trigger_message_delivery_frame,
  consumer_disconnected_frame,
}
use flowmq.ClusterNode.Advance.{update_leader_commit_frame, commit_synced_frame}

abbrev pub is_vote : MessageType → Bool
is_vote MessageType.request_vote_request = true
is_vote MessageType.request_vote_response = true
is_vote other = false

-- A packet that neither asks for a vote nor answers to one.
abbrev pub Plain : Packet → Type 0
Plain (broad_cast m) = is_vote m.type ≡ false
Plain (write_message dest m) = is_vote m.type ≡ false

plain_snoc : (ps : List Packet) (p : Packet) → Plain p → All Plain ps → All Plain (ps ++ p ∷ [])
plain_snoc ps p h hs = All-append Plain ps (p ∷ []) hs (h, tt)

module _ {C S : Type 0} where
  -- Only plain packets are handed over, and no timer of a vote starts or fires.
  pub record Posts (w w' : World C S) : Type 0 where
    pub plain : All Plain w.outbox → All Plain w'.outbox
    pub waiting_same : w'.waiting_votes ≡ w.waiting_votes

  Posts-trans : {u v w : World C S} → Posts u v → Posts v w → Posts u w
  Posts-trans a b = record {
    plain = λ h. b.plain (a.plain h);
    waiting_same = b.waiting_same ∙ a.waiting_same;
  }

  send_entry-Posts :
      (follower_id index : ℤ) (w w' : World C S)
      → send_entry follower_id index w ≡ ok w'
      → Posts w w'
  unfolding send_entry
  send_entry-Posts follower_id index w w' e = record {
    plain = λ h. grind (arith, plain_snoc);
    waiting_same = ground arith;
  }

  trigger_entry_update-Posts :
      (follower_id : ℤ) (w w' : World C S) → trigger_entry_update follower_id w ≡ ok w' → Posts w w'
  unfolding trigger_entry_update
  trigger_entry_update-Posts follower_id w w' e =
      ground (arith, send_entry-Posts follower_id (at follower_id w.node.next_index).0 looked_up w')
    where
      looked_up : World C S
      looked_up = record w {
        node = record w.node { next_index = (at follower_id w.node.next_index).1 };
      }

  update_all-Posts :
      (endpoints : List (ℤ × ℤ)) (w w' : World C S) → update_all endpoints w ≡ ok w' → Posts w w'
  unfolding update_all
  update_all-Posts [] w w' e = ground arith
  update_all-Posts ((endpoint, next) ∷ rest) w w' e =
      let (v, first, then') = >>=-eq-ok (trigger_entry_update endpoint w) (update_all rest) e in
      Posts-trans (trigger_entry_update-Posts endpoint w v first) (update_all-Posts rest v w' then')

  add_log_entry-Posts :
      (entry : LogEntry) (w w' : World C S) → add_log_entry entry w ≡ ok w' → Posts w w'
  unfolding add_log_entry
  add_log_entry-Posts entry w w' e =
      let p = update_all-Posts w.node.next_index _ w' e in
      record { plain = p.plain; waiting_same = p.waiting_same }

  -- Nothing of an election changes but by the node's becoming a follower.
  pub record Calm (w w' : World C S) : Type 0 where
    pub plain : All Plain w.outbox → All Plain w'.outbox
    pub waiting_same : w'.waiting_votes ≡ w.waiting_votes
    pub total_same : w'.node.total_nodes ≡ w.node.total_nodes
    pub candidate_same :
        w'.node.state ≡ candidate
        → (w.node.state ≡ candidate) × (w'.node.votes_collected ≡ w.node.votes_collected)
    pub leader_same : w'.node.state ≡ leader → w.node.state ≡ leader

  -- The members that an election is about stay.
  abbrev Same : World C S → World C S → Type 0
  Same w w' =
      (w'.waiting_votes ≡ w.waiting_votes)
      × (w'.node.total_nodes ≡ w.node.total_nodes)
      × (w'.node.state ≡ w.node.state)
      × (w'.node.votes_collected ≡ w.node.votes_collected)

  Same-Calm :
      (w w' : World C S) → (All Plain w.outbox → All Plain w'.outbox) → Same w w' → Calm w w'
  Same-Calm w w' p (waiting, total, state, votes) = record {
    plain = p;
    waiting_same = waiting;
    total_same = total;
    candidate_same = λ e. (sym state ∙ e, votes);
    leader_same = λ e. sym state ∙ e;
  }

  pub Calm-refl : (w : World C S) → Calm w w
  Calm-refl w = Same-Calm w w (λ h. h) (refl, refl, refl, refl)

module _ {C S : Type 0} ⦃clients : ClientManagerInterface C⦄
    ⦃disk : ClusterNodeStorageInterface S⦄ where
  append_and_answer-Same :
      (req : AppendEntriesRequest) (w w' : World C S)
      → append_and_answer req w ≡ ok w'
      → Same w w' × (All Plain w.outbox → All Plain w'.outbox)
  unfolding append_and_answer answer
  append_and_answer-Same req w w' e = (ground arith, λ h. grind (arith, plain_snoc))

  update_log-Same :
      (req : AppendEntriesRequest) (w w' : World C S)
      → update_log req w ≡ ok w'
      → Same w w' × (All Plain w.outbox → All Plain w'.outbox)
  unfolding update_log
  update_log-Same req w w' e =
      let (v, first, rest) = >>=-eq-ok (update_leader_commit req w) (append_and_answer req) e in
      ground (arith, update_leader_commit_frame req w v first, append_and_answer-Same req v w' rest)

  sync_log-Same :
      (req : AppendEntriesRequest) (w w' : World C S)
      → sync_log req w ≡ ok w'
      → Same w w' × (All Plain w.outbox → All Plain w'.outbox)
  unfolding sync_log answer
  sync_log-Same req w w' e = (
    ground (arith, update_log-Same req w w'),
    λ h. grind (arith, plain_snoc, update_log-Same req w w'),
  )

  pub append_entries_request-Calm :
      (req : AppendEntriesRequest) (now : ℤ) (w w' : World C S)
      → append_entries_request req now w ≡ ok w'
      → Calm w w'
  unfolding append_entries_request reject_expired follow answer
  append_entries_request-Calm req now w w' e =
      let synced = sync_log-Same req (follow req now w) w' in
      record {
        plain = λ h. grind (arith, plain_snoc, synced);
        waiting_same = ground (arith, synced);
        total_same = ground (arith, synced);
        candidate_same = ground (arith, synced);
        leader_same = ground (arith, synced);
      }

  response_success-Same :
      (resp : AppendEntriesResponse) (w w' : World C S)
      → response_success resp w ≡ ok w'
      → Same w w' × (w'.outbox ≡ w.outbox)
  unfolding response_success set_next_index
  response_success-Same resp w w' e =
      let matched = OrdMap.assign resp.follower_id resp.last_index_synced w.node.matched_index in
      let w₁ = record w { node = record w.node { matched_index = matched } } in
      let (v, first, rest) =
        >>=-eq-ok (commit_synced resp.last_index_synced w₁) (set_next_index resp.follower_id) e in
      ground (arith, commit_synced_frame resp.last_index_synced w₁ v first)

  read_response-Same :
      (resp : AppendEntriesResponse) (w w' : World C S)
      → read_response resp w ≡ ok w'
      → Same w w' × (w'.outbox ≡ w.outbox)
  unfolding read_response response_failure
  read_response-Same resp w w' e = ground (arith, response_success-Same resp w w')

  pub append_entries_response-Calm :
      (resp : AppendEntriesResponse) (w w' : World C S)
      → append_entries_response resp w ≡ ok w'
      → Calm w w'
  unfolding append_entries_response response_received
  append_entries_response-Calm resp w w' e =
      let w₁ = response_received resp.follower_id w in
      let (v, first, rest) =
        >>=-eq-ok (read_response resp w₁) (trigger_entry_update resp.follower_id) e in
      let p = trigger_entry_update-Posts resp.follower_id v w' rest in
      let s = trigger_entry_update-Sends resp.follower_id v w' rest in
      let q = read_response-Same resp w₁ v first in
      Same-Calm w w' (λ h. p.plain (subst (All Plain) (sym q.1) h))
        (ground (arith, q, s.node_same, p.waiting_same))

  pub client_put_message-Calm :
      (req : ClientPutMessage) (id : ℤ) (w w' : World C S)
      → client_put_message req id w ≡ ok w'
      → Calm w w'
  unfolding client_put_message
  client_put_message-Calm req id w w' e =
      Same-Calm w w' (λ h. ground (arith, add_log_entry-Posts (put_entry req id w.node) w w'))
        (ground (
          arith,
          add_log_entry-Sends (put_entry req id w.node) w w',
          add_log_entry-Posts (put_entry req id w.node) w w',
        ))

  pub client_commit_message-Calm :
      (req : ClientCommitMessage) (w w' : World C S)
      → client_commit_message req w ≡ ok w'
      → Calm w w'
  unfolding client_commit_message
  client_commit_message-Calm req w w' e =
      Same-Calm w w' (λ h. ground (arith, add_log_entry-Posts (commit_entry req w.node) w w'))
        (ground (
          arith,
          add_log_entry-Sends (commit_entry req w.node) w w',
          add_log_entry-Posts (commit_entry req w.node) w w',
        ))

  pub client_open_queue-Calm : (w w' : World C S) → client_open_queue w ≡ ok w' → Calm w w'
  unfolding client_open_queue answer_client
  client_open_queue-Calm w w' e =
      Same-Calm w w' (λ h. grind (arith, trigger_message_delivery_frame))
        (grind (arith, trigger_message_delivery_frame))

  pub heartbeat_timer-Calm : (w w' : World C S) → heartbeat_timer w ≡ ok w' → Calm w w'
  unfolding heartbeat_timer
  heartbeat_timer-Calm w w' e = Same-Calm w w' (λ h. grind (arith, plain_snoc)) (ground arith)

  pub consumer_disconnected-Calm :
      (client_id : ℤ) (w w' : World C S) → consumer_disconnected client_id w ≡ ok w' → Calm w w'
  consumer_disconnected-Calm client_id w w' e =
      Same-Calm w w' (λ h. grind (arith, consumer_disconnected_frame))
        (grind (arith, consumer_disconnected_frame))
