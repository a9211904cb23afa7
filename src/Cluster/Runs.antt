-- ===== src/Cluster/Runs.antt =====
-- Runs of three nodes of src/flowmq/cluster_node.cpp as a cluster, and the theorems at them.
use flowmq.Base.{
  ℤ, pos, ℕ, zero, suc, ◌<◌, ◌/◌, List, [], ◌∷◌, some, none, ◌≤ℤ◌, ◌≢◌, Bool, true, false, map,
  length, get_elem?, count_if, ◌≡◌, refl, ap, subst,
}
use flowmq.ClientManager
use flowmq.ClientManager.{ClientManager, no_clients, client_manager}
use flowmq.MessageQueue
use flowmq.ClusterNode.State.{leader}
use flowmq.ClusterNode.Delivery.{is_leader}
use flowmq.ClusterNode.Handler.{vote_timer_fires, delayed_vote_fires, methods}
use flowmq.ClusterNode.Start.{started, first_entry}
use flowmq.ClusterNode.Frames.{Ballot}
use flowmq.ClusterNode.Runs.{NoFiles, no_files}
use flowmq.Cluster.{Member, Cluster, Step, delivers, loses, happens, run, step, act}
use flowmq.Cluster.Elections.{elected_once, leader-has_voted, IsFresh, has_voted}

abbrev member : ℕ → Member ClientManager NoFiles
member k = record {
  world =
      started (record { partition_id = pos 9; node_id = pos k; total_nodes = pos 3 }) no_clients tt
        [] (pos 0) (pos 77) (first_entry ∷ []) (pos 0);
  cast = [];
  stopped = false;
}

abbrev three_members : Cluster ClientManager NoFiles
three_members = record {
  members = member 0 ∷ member 1 ∷ member 2 ∷ [];
  in_flight = [];
  elections = [];
}

-- Node 0 asks the others, the request to node 1 is lost, and node 2 answers.
abbrev first_election : List Step
first_election =
    happens 0 (vote_timer_fires (pos 100))
    ∷ happens 0 delayed_vote_fires
    ∷ loses 1
    ∷ delivers 0 (pos 101) (pos 0)
    ∷ delivers 0 (pos 102) (pos 0)
    ∷ []

-- Then the timer of node 1 fires twice before its request is sent, which reaches the two others.
abbrev two_elections : List Step
two_elections =
    happens 0 (vote_timer_fires (pos 100))
    ∷ happens 0 delayed_vote_fires
    ∷ loses 1
    ∷ delivers 0 (pos 101) (pos 0)
    ∷ delivers 0 (pos 102) (pos 0)
    ∷ happens 1 (vote_timer_fires (pos 200))
    ∷ happens 1 (vote_timer_fires (pos 208))
    ∷ happens 1 delayed_vote_fires
    ∷ delivers 0 (pos 210) (pos 0)
    ∷ delivers 0 (pos 211) (pos 0)
    ∷ delivers 0 (pos 212) (pos 0)
    ∷ []

abbrev winner : ℤ → ℤ → Ballot
winner term node = record { term = term; candidate_id = node }

first_result : (run first_election three_members).elections ≡ winner (pos 1) (pos 0) ∷ []
unfolding run step act started methods MessageQueue.methods ClientManager.methods
first_result = refl

second_result :
    (run two_elections three_members).elections
    ≡ winner (pos 1) (pos 0) ∷ winner (pos 2) (pos 1) ∷ []
unfolding run step act started methods MessageQueue.methods ClientManager.methods
second_result = refl

-- Node 0 takes over term 2 from the request of node 1 and stays a leader, as node 1 becomes one.
abbrev role : Member ClientManager NoFiles → Bool × ℤ
role m = (is_leader m.world.node.state, m.world.node.cur_term)

two_leaders :
    map role (run two_elections three_members).members
    ≡ (true, pos 2) ∷ (true, pos 2) ∷ (false, pos 2) ∷ []
unfolding run step act started methods MessageQueue.methods ClientManager.methods
two_leaders = refl

abbrev Fresh : ℕ → Member ClientManager NoFiles → Type 0
Fresh k m =
    (m.world.node.node_id ≡ pos k)
    × (m.world.node.total_nodes ≡ pos 3)
    × (m.cast ≡ [])
    × (m.world.waiting_votes ≡ 0)
    × (m.world.node.state ≢ leader)

all-Fresh :
    (k : ℕ) (m : Member ClientManager NoFiles)
    → get_elem? three_members.members k ≡ some m
    → Fresh k m
unfolding started
all-Fresh zero m e =
    let same : member 0 ≡ m = cc in subst (Fresh 0) same (refl, refl, refl, refl, λ l. cc)
all-Fresh (suc zero) m e =
    let same : member 1 ≡ m = cc in subst (Fresh 1) same (refl, refl, refl, refl, λ l. cc)
all-Fresh (suc (suc zero)) m e =
    let same : member 2 ≡ m = cc in subst (Fresh 2) same (refl, refl, refl, refl, λ l. cc)
all-Fresh (suc (suc (suc k))) m e = cc

three_members-IsFresh : IsFresh three_members
three_members-IsFresh = (all-Fresh, refl, refl)

second_won : get_elem? (run two_elections three_members).elections 1 ≡ some (winner (pos 2) (pos 1))
second_won = ap (λ es. get_elem? es 1) second_result

elected_once_example : pos 1 ≡ pos 1
elected_once_example =
    elected_once two_elections three_members 1 1 (winner (pos 2) (pos 1)) (winner (pos 2) (pos 1))
      three_members-IsFresh second_won second_won refl

-- Node 0 leads in term 2 and has its votes in term 1.
abbrev node_0 : Member ClientManager NoFiles
node_0 = elim (get_elem? (run two_elections three_members).members 0) [
  | some m ↦ m
  | none ↦ member 0
]

node_0_found : get_elem? (run two_elections three_members).members 0 ≡ some node_0
unfolding run step act started methods MessageQueue.methods ClientManager.methods
node_0_found = refl

node_0_leads : node_0.world.node.state ≡ leader
unfolding run step act started methods MessageQueue.methods ClientManager.methods
node_0_leads = refl

leader-has_voted_example :
    (term : ℤ) × (term ≤ℤ node_0.world.node.cur_term)
    × (length (run two_elections three_members).members / 2
        < count_if
            (has_voted (record { term = term; candidate_id = pos 0 }))
            (run two_elections three_members).members)
leader-has_voted_example =
    leader-has_voted two_elections three_members 0 node_0 three_members-IsFresh node_0_found
      node_0_leads
