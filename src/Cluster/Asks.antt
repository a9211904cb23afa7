-- ===== src/Cluster/Asks.antt =====
-- What the delayed request for votes of src/flowmq/cluster_node.cpp does to its node.
use flowmq.Base.{
  pos, minus_one, ℕ, zero, suc, ◌+◌, ◌≤◌, [], ◌∷◌, ◌++◌, Option, none, some, Bool, true, false, not,
  ◌&&◌, Bool-cases, ok, one_if, ◌==◌, if◌then◌else◌, ◌≡◌, refl, ap, arith, ◌+ℤ◌, ◌==ℤ◌, eq_iff, inl,
  inr, ◌⊎◌, increment_lem,
}
use flowmq.Protocol.{LogEntry, RequestVoteRequest, raft_message, load_vote_request}
use flowmq.ClusterNode.State.{World, broad_cast, serialize_raft_message}
use flowmq.ClusterNode.Log.{back}
use flowmq.ClusterNode.Vote.{delayed_vote, send_vote_request}
use flowmq.Cluster.Traffic.{asks}
use flowmq.Cluster.Answers.{ballot_for}

pub if_le : (t : Bool) (n : ℕ) → (if t then n else 0) ≤ n
if_le true n = omega arith
if_le false n = omega arith

pub one_if_le : (t : Bool) → one_if t ≤ 1
one_if_le true = omega arith
one_if_le false = omega arith

pub once_each :
    (v k : ℕ) (h : Bool)
    → one_if (not (v == k) && h) + (if k == v then one_if h + 0 else 0) ≤ one_if h
once_each v k h = ground arith

pub pos_minus_one : {k : ℕ} → pos k ≡ minus_one → ⊥
pos_minus_one e = cc

module _ {C S : Type 0} where
  -- What the request that is sent says.
  pub record Asks (w w' : World C S) : Type 0 where
    pub free : w.node.voted_for ≡ minus_one
    pub req : RequestVoteRequest
    pub for_itself :
        ballot_for req ≡ record { term = w.node.cur_term; candidate_id = w.node.node_id }
    pub out :
        w'.outbox
        ≡ w.outbox
          ++ broad_cast (serialize_raft_message w.node (load_vote_request req raft_message)) ∷ []
    pub votes : w'.node.votes_collected ≡ w.node.votes_collected +ℤ pos 1
    pub voted : w'.node.voted_for ≡ w.node.node_id
    pub term_same : w'.node.cur_term ≡ w.node.cur_term
    pub state_same : w'.node.state ≡ w.node.state
    pub total_same : w'.node.total_nodes ≡ w.node.total_nodes

  ask_last :
      (w w' : World C S) (last : Option LogEntry)
      → back w.node.log_entries ≡ last
      → send_vote_request w ≡ ok w'
      → (w.node.voted_for ==ℤ minus_one) ≡ true
      → Asks w w'
  unfolding send_vote_request
  ask_last w w' none e h free = absurd (grind arith)
  ask_last w w' (some last) e h free = record {
    free = (eq_iff w.node.voted_for minus_one).0 free;
    req = record {
      term = w.node.cur_term;
      candidate_id = w.node.node_id;
      last_log_index = last.index;
      last_log_term = last.term;
    };
    for_itself = refl;
    out = grind (arith, increment_lem);
    votes = grind (arith, increment_lem);
    voted = grind (arith, increment_lem);
    term_same = grind (arith, increment_lem);
    state_same = grind (arith, increment_lem);
    total_same = grind (arith, increment_lem);
  }

  send_vote_request-cases : (w w' : World C S) → send_vote_request w ≡ ok w' → (w' ≡ w) ⊎ Asks w w'
  unfolding send_vote_request
  send_vote_request-cases w w' e = elim (Bool-cases (w.node.voted_for ==ℤ minus_one)) [
    | inl free ↦ inr (ask_last w w' (back w.node.log_entries) refl e free)
    | inr voted ↦ inl (ground arith)
  ]

  pub delayed-cases :
      (n : ℕ) (w w' : World C S)
      → w.waiting_votes ≡ n
      → delayed_vote n w ≡ ok w'
      → ((w'.node ≡ w.node) × (w'.outbox ≡ w.outbox) × (w'.waiting_votes ≤ w.waiting_votes))
        ⊎ ((1 ≤ w.waiting_votes) × Asks w w')
  unfolding delayed_vote
  delayed-cases zero w w' h e = inl (ground arith)
  delayed-cases (suc n) w w' h e =
      elim (send_vote_request-cases (record w { waiting_votes = n }) w' e) [
        | inl same ↦ inl (
          ap (λ v. v.node) same,
          ap (λ v. v.outbox) same,
          omega (arith, ap (λ v. v.waiting_votes) same, h),
        )
        | inr asks ↦ inr (
          omega (arith, h),
          record {
            free = asks.free;
            req = asks.req;
            for_itself = asks.for_itself;
            out = asks.out;
            votes = asks.votes;
            voted = asks.voted;
            term_same = asks.term_same;
            state_same = asks.state_same;
            total_same = asks.total_same;
          },
        )
      ]
