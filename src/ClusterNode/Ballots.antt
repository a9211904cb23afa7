-- ===== src/ClusterNode/Ballots.antt =====
-- Which events of src/flowmq/cluster_node.cpp cast a vote, and for whom.
use flowmq.Base.{
  ℤ, pos, minus_one, ℕ, zero, suc, List, [], ◌∷◌, ◌++◌, ◌==ℤ◌, eq_iff, ok, ◌≡◌, refl, subst,
  ok-injective, ◌∙◌, arith, ◌≤ℤ◌, increment_lem, +ℤ_parts, Bool-cases, inl, inr, false, ◌≢◌, ◌⊎◌,
  append-nil,
}
use flowmq.Protocol.{
  RequestVoteRequest, FlowMessage, MessageType, get_append_request, get_append_response,
  get_vote_request, get_vote_response, get_put_message_request, get_commit_message_request,
}
use flowmq.Interfaces.{ClientManagerInterface, ClusterNodeStorageInterface}
use flowmq.ClusterNode.State.{World, Packet}
use flowmq.ClusterNode.Vote.{
  request_vote_request, answer_vote, vote_timer, delayed_vote, send_vote_request, invalid_request,
  adopt_term,
}
use flowmq.ClusterNode.Delivery.{is_leader}
use flowmq.ClusterNode.Frames.{Ballot, ballots, ballots-append, no_ballot, ballot_of}
use flowmq.ClusterNode.Advance.{
  Quiet, Quiet-refl, append_entries_request-Quiet, append_entries_response-Quiet,
  request_vote_response-Quiet, client_put_message-Quiet, client_commit_message-Quiet,
  client_open_queue-Quiet, heartbeat_timer-Quiet, consumer_disconnected-Quiet,
}
use flowmq.ClusterNode.Handler.{
  Event, message, vote_timer_fires, delayed_vote_fires, heartbeat_timer_fires, consumer_leaves,
  dispatch, handle, local_message_handler,
}

pub ballots-snoc :
    (xs : List Packet) (p : Packet) (b : Ballot)
    → ballot_of p ≡ b ∷ []
    → ballots (xs ++ p ∷ []) ≡ ballots xs ++ b ∷ []
ballots-snoc xs p b e = ballots-append xs (p ∷ []) ∙ rw (e, append-nil)

module _ {C S : Type 0} where
  -- At most one vote is cast in a step. A vote is cast in the term that the node is in afterwards,
  -- for the candidate that it then remembers, and only if it remembered nobody else for that term.
  pub data Casts (w w' : World C S) : Type 0 where
    none_cast :
        ballots w'.outbox ≡ ballots w.outbox
        → (w.node.cur_term ≡ w'.node.cur_term → w'.node.voted_for ≡ w.node.voted_for)
        → Casts w w'
    one_cast :
        (b : Ballot)
        → ballots w'.outbox ≡ ballots w.outbox ++ b ∷ []
        → b.term ≡ w'.node.cur_term
        → b.candidate_id ≡ w'.node.voted_for
        → w'.node.voted_for ≢ minus_one
        → (w.node.cur_term ≡ w'.node.cur_term
            → (w.node.voted_for ≡ minus_one) ⊎ (w.node.voted_for ≡ b.candidate_id))
        → Casts w w'

  -- A step of a node: its term and commit index do not fall, and it casts at most one vote.
  pub record Moves (w w' : World C S) : Type 0 where
    pub term_le : w.node.cur_term ≤ℤ w'.node.cur_term
    pub commit_le : w.node.commit_index ≤ℤ w'.node.commit_index
    pub node_id_same : w'.node.node_id ≡ w.node.node_id
    pub casts : Casts w w'

  pub Quiet-Moves : {w w' : World C S} → Quiet w w' → Moves w w'
  Quiet-Moves q = record {
    term_le = q.term_le;
    commit_le = q.commit_le;
    node_id_same = q.node_id_same;
    casts = none_cast q.ballots_same (λ _. q.voted_for_same);
  }

  answer_vote_refused :
      (req : RequestVoteRequest) (w : World C S)
      → ballots (answer_vote req (pos 0) w).outbox ≡ ballots w.outbox
  unfolding answer_vote ◌==ℤ◌
  answer_vote_refused req w = no_ballot w.outbox _ refl

  answer_vote_granted :
      (req : RequestVoteRequest) (w : World C S)
      → ballots (answer_vote req (pos 1) w).outbox
        ≡ ballots w.outbox ++ record { term = req.term; candidate_id = req.candidate_id } ∷ []
  unfolding answer_vote ◌==ℤ◌
  answer_vote_granted req w = ballots-snoc w.outbox _ _ refl

  refused-Moves : (req : RequestVoteRequest) (w : World C S) → Moves w (answer_vote req (pos 0) w)
  unfolding answer_vote
  refused-Moves req w = record {
    term_le = omega arith;
    commit_le = omega arith;
    node_id_same = refl;
    casts = none_cast (answer_vote_refused req w) (λ _. refl);
  }

  adopted-Moves :
      (req : RequestVoteRequest) (w : World C S)
      → Moves w (record w { node = adopt_term req w.node })
  adopted-Moves req w = record {
    term_le = ground arith;
    commit_le = ground arith;
    node_id_same = ground arith;
    casts = none_cast refl (ground arith);
  }

  -- The vote that is granted is for the term of the request, which is the node's term then.
  granted-Moves :
      (req : RequestVoteRequest) (w : World C S)
      → req.candidate_id ≢ minus_one
      → invalid_request req w.node ≡ false
      → Moves w (
          answer_vote req
            (pos 1)
            (record w { node = record (adopt_term req w.node) { voted_for = req.candidate_id } }))
  unfolding answer_vote
  granted-Moves req w sane valid = record {
    term_le = ground arith;
    commit_le = ground arith;
    node_id_same = ground arith;
    casts =
        one_cast (record { term = req.term; candidate_id = req.candidate_id })
          (answer_vote_granted req
            (record w { node = record (adopt_term req w.node) { voted_for = req.candidate_id } }))
          (ground arith) refl sane
          (ground (
            arith,
            eq_iff req.term w.node.cur_term,
            eq_iff w.node.voted_for minus_one,
            eq_iff w.node.voted_for req.candidate_id,
          ));
  }

  pub request_vote_request-Moves :
      (req : RequestVoteRequest) (w : World C S)
      → req.candidate_id ≢ minus_one
      → Moves w (request_vote_request req w)
  unfolding request_vote_request
  request_vote_request-Moves req w sane = elim (Bool-cases (invalid_request req w.node)) [
    | inl e ↦ rw e (refused-Moves req w)
    | inr e ↦ elim (Bool-cases (is_leader (adopt_term req w.node).state)) [
      | inl l ↦ rw (e, l) (adopted-Moves req w)
      | inr l ↦ rw (e, l) (granted-Moves req w sane e)
    ]
  ]

  pub vote_timer-Moves : (now : ℤ) (w w' : World C S) → vote_timer now w ≡ ok w' → Moves w w'
  unfolding vote_timer
  vote_timer-Moves now w w' e = record {
    term_le = grind (arith, increment_lem, +ℤ_parts);
    commit_le = grind (arith, increment_lem);
    node_id_same = grind (arith, increment_lem);
    casts = none_cast (grind (arith, increment_lem)) (grind (arith, increment_lem, +ℤ_parts));
  }

  send_vote_request-Moves :
      (w w' : World C S) → w.node.node_id ≢ minus_one → send_vote_request w ≡ ok w' → Moves w w'
  unfolding send_vote_request
  send_vote_request-Moves w w' sane e = elim (Bool-cases (w.node.voted_for ==ℤ minus_one)) [
    | inl free ↦ record {
      term_le = ground arith;
      commit_le = ground arith;
      node_id_same = ground arith;
      casts =
          one_cast (record { term = w.node.cur_term; candidate_id = w.node.node_id })
            (grind (arith, ballots-snoc)) (ground arith) (ground arith) (ground arith)
            (λ _. inl ((eq_iff w.node.voted_for minus_one).0 free));
    }
    | inr voted ↦ record {
      term_le = ground arith;
      commit_le = ground arith;
      node_id_same = ground arith;
      casts = none_cast (ground arith) (ground arith);
    }
  ]

  pub delayed_vote-Moves :
      (n : ℕ) (w w' : World C S)
      → w.node.node_id ≢ minus_one
      → delayed_vote n w ≡ ok w'
      → Moves w w'
  unfolding delayed_vote
  delayed_vote-Moves zero w w' sane e = record {
    term_le = ground arith;
    commit_le = ground arith;
    node_id_same = ground arith;
    casts = none_cast (ground arith) (ground arith);
  }
  delayed_vote-Moves (suc n) w w' sane e =
      let m = send_vote_request-Moves (record w { waiting_votes = n }) w' sane e in
      record {
        term_le = m.term_le;
        commit_le = m.commit_le;
        node_id_same = m.node_id_same;
        casts = elim m.casts [
          | none_cast b v ↦ none_cast b v
          | one_cast b p q r t u ↦ one_cast b p q r t u
        ];
      }

-- A node is never asked to vote for -1, the value that stands for "nobody".
abbrev pub IsSane : Event → Type 0
IsSane (message m now id) = (get_vote_request m).candidate_id ≢ minus_one
IsSane e = Unit {0}

module _ {C S : Type 0} ⦃clients : ClientManagerInterface C⦄
    ⦃disk : ClusterNodeStorageInterface S⦄ where
  dispatch-Moves :
      (t : MessageType) (m : FlowMessage) (now id : ℤ) (w w' : World C S)
      → (get_vote_request m).candidate_id ≢ minus_one
      → dispatch t m now id w ≡ ok w'
      → Moves w w'
  dispatch-Moves MessageType.append_entries_request m now id w w' s e =
      Quiet-Moves (append_entries_request-Quiet (get_append_request m) now w w' e)
  dispatch-Moves MessageType.append_entries_response m now id w w' s e =
      Quiet-Moves (append_entries_response-Quiet (get_append_response m) w w' e)
  dispatch-Moves MessageType.request_vote_request m now id w w' s e =
      subst (Moves w) (ok-injective e) (request_vote_request-Moves (get_vote_request m) w s)
  dispatch-Moves MessageType.request_vote_response m now id w w' s e =
      Quiet-Moves (request_vote_response-Quiet (get_vote_response m) w w' e)
  dispatch-Moves MessageType.client_put_message m now id w w' s e =
      Quiet-Moves (client_put_message-Quiet (get_put_message_request m) id w w' e)
  dispatch-Moves MessageType.client_open_queue m now id w w' s e =
      Quiet-Moves (client_open_queue-Quiet w w' e)
  dispatch-Moves MessageType.client_commit_message m now id w w' s e =
      Quiet-Moves (client_commit_message-Quiet (get_commit_message_request m) w w' e)
  dispatch-Moves other m now id w w' s e =
      Quiet-Moves (subst (Quiet w) (ok-injective e) (Quiet-refl w))

  pub handle-Moves :
      (e : Event) (w w' : World C S)
      → IsSane e
      → w.node.node_id ≢ minus_one
      → handle e w ≡ ok w'
      → Moves w w'
  unfolding handle local_message_handler
  handle-Moves (message m now id) w w' s n e = dispatch-Moves m.type m now id w w' s e
  handle-Moves (vote_timer_fires now) w w' s n e = vote_timer-Moves now w w' e
  handle-Moves delayed_vote_fires w w' s n e = delayed_vote-Moves w.waiting_votes w w' n e
  handle-Moves heartbeat_timer_fires w w' s n e = Quiet-Moves (heartbeat_timer-Quiet w w' e)
  handle-Moves (consumer_leaves c) w w' s n e = Quiet-Moves (consumer_disconnected-Quiet c w w' e)
