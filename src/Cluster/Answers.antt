-- ===== src/Cluster/Answers.antt =====
-- The answers to REQUEST_VOTE_REQUEST in src/flowmq/cluster_node.cpp, as messages in the network.
use flowmq.Base.{
  ℤ, pos, ℕ, ◌+◌, [], ◌∷◌, ◌++◌, true, false, ◌&&◌, Bool-cases, count_if, one_if, ◌==◌,
  if◌then◌else◌, ◌≡◌, ◌≢◌, refl, sym, ◌∙◌, ap, arith, ◌≤ℤ◌, ltb_ℤ, ◌==ℤ◌, eq_ne, negsuc, ==_iff,
  inl, inr, ◌⊎◌,
}
use flowmq.Protocol.{
  FlowMessage, MessageType, RequestVoteRequest, get_vote_request, raft_message, load_vote_result,
}
use flowmq.ClusterNode.State.{
  World, ClusterNode, State, leader, write_message, serialize_raft_message,
}
use flowmq.ClusterNode.Delivery.{is_leader}
use flowmq.ClusterNode.Vote.{request_vote_request, answer_vote, invalid_request, adopt_term}
use flowmq.ClusterNode.Frames.{Ballot}
use flowmq.Cluster.{send_all}
use flowmq.Cluster.Traffic.{votes_in, same_ballot, requests, granted, grants, asks, pos_eq}
use flowmq.Cluster.Counts.{if_by, is_by_of, same_ballot_iff}
use flowmq.Cluster.Effects.{if_zero}

abbrev pub ballot_for : RequestVoteRequest → Ballot
ballot_for req = record { term = req.term; candidate_id = req.candidate_id }

abbrev pub vote_answer : ClusterNode → RequestVoteRequest → ℤ → FlowMessage
vote_answer n req granted =
    serialize_raft_message n (
      load_vote_result (record { term = req.term; vote_result_term_granted = granted })
        raft_message)

pub refusal_plain :
    (n : ClusterNode) (req : RequestVoteRequest) (k count : ℕ) (v : ℤ) (b : Ballot)
    → (requests v b
          (send_all k count (write_message req.candidate_id (vote_answer n req (pos 0)) ∷ []))
        ≡ 0)
      × (granted b
            (send_all k count (write_message req.candidate_id (vote_answer n req (pos 0)) ∷ []))
          ≡ 0)
unfolding count_if ◌==ℤ◌
refusal_plain n req k count v b = (ground arith, ground arith)

pub refusal_cast :
    (req : RequestVoteRequest) → (if pos 0 ==ℤ pos 1 then ballot_for req ∷ [] else []) ++ [] ≡ []
refusal_cast req = rw (eq_ne (pos 0) (pos 1) (λ e. cc)) refl

-- The request asks its node, and that only for its vote.
pub asks_for :
    (v k : ℕ) (b : Ballot) (fm : FlowMessage)
    → fm.type ≡ MessageType.request_vote_request
    → asks (pos v) b (pos k, fm) ≡ ((k == v) && same_ballot b (ballot_for (get_vote_request fm)))
asks_for v k b fm type = ground (arith, pos_eq k v)

pub grant_counts :
    (n : ClusterNode) (req : RequestVoteRequest) (b : Ballot)
    → grants b (req.candidate_id, vote_answer n req (pos 1)) ≡ same_ballot b (ballot_for req)
grant_counts n req b =
    let one : (pos 1 ==ℤ pos 0) ≡ false = eq_ne (pos 1) (pos 0) (λ e. cc) in ground (arith, one)

pub grant_asks :
    (n : ClusterNode) (req : RequestVoteRequest) (v : ℤ) (b : Ballot)
    → asks v b (req.candidate_id, vote_answer n req (pos 1)) ≡ false
grant_asks n req v b = ground arith

pub is_by_iff : (c : ℤ) (k : ℕ) → is_by_of c k ≡ true → c ≡ pos k
is_by_iff (pos c) k e = ap pos (sym ((==_iff k c).0 e))
is_by_iff (negsuc c) k e = cc

pub by_other : (k : ℕ) (b x : Ballot) → x.candidate_id ≢ pos k → if_by k b (votes_in b (x ∷ [])) ≡ 0
unfolding count_if
by_other k b x h = elim (Bool-cases (same_ballot b x)) [
  | inl same ↦ elim (Bool-cases (is_by_of b.candidate_id k)) [
    | inl by ↦
        absurd
          (h (ap (λ y. y.candidate_id) (same_ballot_iff b x same) ∙ is_by_iff b.candidate_id k by))
    | inr not_by ↦ rw not_by refl
  ]
  | inr other ↦ if_zero (is_by_of b.candidate_id k) _ (ap (λ t. one_if t + 0) other)
]

pub adopt_term_lem :
    (req : RequestVoteRequest) (n : ClusterNode)
    → ((adopt_term req n).state ≡ n.state)
      × ((adopt_term req n).total_nodes ≡ n.total_nodes)
      × ((adopt_term req n).cur_term ≤ℤ n.cur_term → (adopt_term req n) ≡ n)
adopt_term_lem req n = elim (Bool-cases (ltb_ℤ n.cur_term req.term)) [
  | inl higher ↦ rw higher (refl, refl, λ le. absurd (ground arith))
  | inr other ↦ rw other (refl, refl, λ _. refl)
]

is_leader_iff : (s : State) → is_leader s ≡ true → s ≡ leader
is_leader_iff s e = ground arith

module _ {C S : Type 0} where
  pub request-cases :
      (req : RequestVoteRequest) (w : World C S)
      → (request_vote_request req w ≡ answer_vote req (pos 0) w)
        ⊎ ((request_vote_request req w ≡ record w { node = adopt_term req w.node })
            × (w.node.state ≡ leader))
        ⊎ (request_vote_request req w
            ≡ answer_vote req (pos 1) (record w {
              node = record (adopt_term req w.node) { voted_for = req.candidate_id };
            }))
  unfolding request_vote_request
  request-cases req w = elim (Bool-cases (invalid_request req w.node)) [
    | inl invalid ↦ inl (rw invalid refl)
    | inr valid ↦ elim (Bool-cases (is_leader (adopt_term req w.node).state)) [
      | inl leads ↦ inr (
          inl (
            rw (valid, leads) refl,
            is_leader_iff w.node.state (ap is_leader (sym (adopt_term_lem req w.node).0) ∙ leads),
          ))
      | inr other ↦ inr (inr (rw (valid, other) refl))
    ]
  ]
