-- ===== src/Cluster/Tally.antt =====
-- What the nodes of src/flowmq/cluster_node.cpp, the messages between them and the elections so far
-- have to do with each other: an invariant of the cluster, and what a node has to keep in a step.
use flowmq.Base.{
  ℤ, pos, minus_one, ℕ, ◌+◌, ◌≤◌, ◌<◌, ◌/◌, List, ◌++◌, some, get_elem?, length, ◌==◌,
  if◌then◌else◌, ◌≡◌, arith, ◌≤ℤ◌, ◌+ℤ◌, All, ◌⊎◌,
}
use flowmq.Protocol.{FlowMessage}
use flowmq.ClusterNode.State.{World, ClusterNode, candidate, leader}
use flowmq.ClusterNode.Frames.{Ballot}
use flowmq.ClusterNode.Election.{IsHonest}
use flowmq.Cluster.{Member}
use flowmq.Cluster.Traffic.{votes_in, requests, granted}
use flowmq.Cluster.Counts.{own, total, if_by}

-- The vote of node k for itself in its present term.
abbrev pub itself : ℕ → ClusterNode → Ballot
itself k n = record { term = n.cur_term; candidate_id = pos k }

-- A candidate that has asked for votes has counted no more than it was given and is not under way
-- any more; one that has still to ask has counted none.
abbrev pub CountsRight : (asked given under_way waiting : ℕ) → ClusterNode → Type 0
CountsRight asked given under_way waiting n =
    (1 ≤ asked → n.votes_collected +ℤ pos under_way ≤ℤ pos given)
    × (1 ≤ waiting → n.voted_for ≡ minus_one → n.votes_collected ≤ℤ pos 0)

pub if_same : (k n : ℕ) → (if k == k then n else 0) ≡ n
if_same k n = ground arith

module _ {C S : Type 0} where
  pub record Tally (ms : List (Member C S)) (fs : List (ℤ × FlowMessage)) (es : List Ballot)
      : Type 0 where
    pub numbered :
        (k : ℕ) (m : Member C S)
        → get_elem? ms k ≡ some m
        → (m.world.node.node_id ≡ pos k) × (m.world.node.total_nodes ≡ pos (length ms))
    pub honest : (k : ℕ) (m : Member C S) → get_elem? ms k ≡ some m → IsHonest m.world.node m.cast
    pub own_le : (b : Ballot) → own b ms ≤ 1
    pub asked :
        (v : ℕ) (m : Member C S) (b : Ballot)
        → get_elem? ms v ≡ some m
        → requests (pos v) b fs + votes_in b m.cast ≤ own b ms
    pub answered : (b : Ballot) → granted b fs + own b ms ≤ total b ms
    pub counted :
        (k : ℕ) (m : Member C S)
        → get_elem? ms k ≡ some m
        → m.world.node.state ≡ candidate
        → CountsRight
            (own (itself k m.world.node) ms)
            (total (itself k m.world.node) ms)
            (granted (itself k m.world.node) fs)
            m.world.waiting_votes
            m.world.node
    pub won : All (λ b. length ms / 2 < total b ms) es
    pub led :
        (k : ℕ) (m : Member C S)
        → get_elem? ms k ≡ some m
        → m.world.node.state ≡ leader
        → (term : ℤ) × (term ≤ℤ m.world.node.cur_term)
          × (length ms / 2 < total (record { term = term; candidate_id = pos k }) ms)

  -- Node k, which was m, is w' after a step in which it cast the votes bs.
  pub record Turn (ms : List (Member C S)) (fs fs' : List (ℤ × FlowMessage)) (k : ℕ)
      (m : Member C S) (w' : World C S) (bs es : List Ballot) : Type 0 where
    pub node_id_same : w'.node.node_id ≡ m.world.node.node_id
    pub total_same : w'.node.total_nodes ≡ m.world.node.total_nodes
    pub term_le : m.world.node.cur_term ≤ℤ w'.node.cur_term
    pub honest : IsHonest w'.node (m.cast ++ bs)
    pub own_le : (b : Ballot) → own b ms + if_by k b (votes_in b bs) ≤ 1
    pub asked :
        (v : ℕ) (b : Ballot)
        → requests (pos v) b fs' + (if k == v then votes_in b bs else 0)
          ≤ requests (pos v) b fs + if_by k b (votes_in b bs)
    pub answered :
        (b : Ballot) → granted b fs' + if_by k b (votes_in b bs) ≤ granted b fs + votes_in b bs
    pub counted :
        w'.node.state ≡ candidate
        → let b = itself k w'.node in
          CountsRight
            (own b ms + votes_in b bs)
            (total b ms + votes_in b bs)
            (granted b fs')
            w'.waiting_votes
            w'.node
    pub won : All (λ b. length ms / 2 < total b ms + votes_in b bs) es
    pub leads :
        w'.node.state ≡ leader
        → (m.world.node.state ≡ leader)
          ⊎ (length ms / 2 < total (itself k w'.node) ms + votes_in (itself k w'.node) bs)
