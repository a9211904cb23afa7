-- ===== src/Cluster.antt =====
-- The nodes of one partition and the network between them: what the processes of a cluster do that
-- run src/flowmq/cluster_node.cpp. Node k has the id k. A message that was sent may arrive at any
-- time or be lost, and messages may overtake each other, but none arrives twice. A node may stop for
-- good (a run of undefined behaviour, or a failed assertion); what it sends in its last step is lost.
pub mod Traffic
pub mod Effects
pub mod Events
pub mod Responses
pub mod Answers
pub mod Requests
pub mod Asks
pub mod Candidates
pub mod Steps
pub mod Counts
pub mod Tally
pub mod Keeps
pub mod Elections
mod Runs
use flowmq.Base.{
  ℤ, pos, negsuc, ℕ, zero, suc, List, [], ◌∷◌, ◌++◌, Option, none, some, Bool, true, false, Outcome,
  ok, fault, length, get_elem?, set_at, ◌==◌, if◌then◌else◌, map,
}
use flowmq.Protocol.{FlowMessage, MessageType}
use flowmq.Interfaces.{ClientManagerInterface, ClusterNodeStorageInterface}
use flowmq.ClusterNode.State.{World, State, Packet, broad_cast, write_message, leader}
use flowmq.ClusterNode.Handler
use flowmq.ClusterNode.Handler.{Event, handle}
use flowmq.ClusterNode.Delivery.{is_leader}
use flowmq.ClusterNode.Frames.{Ballot, ballots}

-- A node with the votes that it has sent so far, and whether it has stopped.
pub record Member (C S : Type 0) : Type 0 where
  pub world : World C S
  pub cast : List Ballot
  pub stopped : Bool

-- `elections` lists every time that a node became the leader, with its term then.
pub record Cluster (C S : Type 0) : Type 0 where
  pub members : List (Member C S)
  pub in_flight : List (ℤ × FlowMessage)
  pub elections : List Ballot

-- ClusterManager::broad_cast reaches the other nodes: all below n but k.
abbrev pub to_others : ℕ → ℕ → FlowMessage → List (ℤ × FlowMessage)
to_others k zero m = []
to_others k (suc n) m = let rest = to_others k n m in if n == k then rest else (pos n, m) ∷ rest

abbrev pub send : ℕ → ℕ → Packet → List (ℤ × FlowMessage)
send k n (broad_cast m) = to_others k n m
send k n (write_message dest m) = (dest, m) ∷ []

abbrev pub send_all : ℕ → ℕ → List Packet → List (ℤ × FlowMessage)
send_all k n [] = []
send_all k n (p ∷ ps) = send k n p ++ send_all k n ps

abbrev pub becomes_leader : Bool → Bool → Bool
becomes_leader false true = true
becomes_leader before after = false

-- What is in flight at a position, and the rest.
abbrev pub remove_at {ℓ} : {A : Type ℓ} → ℕ → List A → List A
remove_at n [] = []
remove_at zero (x ∷ xs) = xs
remove_at (suc n) (x ∷ xs) = x ∷ remove_at n xs

-- A message from a client. Clients send no messages of the nodes.
abbrev pub from_client : MessageType → Bool
from_client MessageType.client_put_message = true
from_client MessageType.client_commit_message = true
from_client MessageType.client_open_queue = true
from_client other = false

abbrev pub is_local : Event → Bool
is_local (Handler.message m now random_id) = from_client m.type
is_local other = true

pub data Step : Type 0 where
  delivers : (position : ℕ) (now random_id : ℤ) → Step
  loses : (position : ℕ) → Step
  happens : (node : ℕ) → Event → Step

module _ {C S : Type 0} where
  abbrev pub elected : World C S → World C S → List Ballot
  elected w w' =
      if becomes_leader (is_leader w.node.state) (is_leader w'.node.state)
      then record { term = w'.node.cur_term; candidate_id = w'.node.node_id } ∷ []
      else []

  -- A node takes a step from an empty outbox, and what it hands over goes into the network.
  abbrev pub stepped : Outcome (World C S) → Member C S → ℕ → Cluster C S → Cluster C S
  stepped fault m k c = record c { members = set_at k (record m { stopped = true }) c.members }
  stepped (ok w') m k c = record {
    members =
        set_at k (record { world = w'; cast = m.cast ++ ballots w'.outbox; stopped = false })
          c.members;
    in_flight = c.in_flight ++ send_all k (length c.members) w'.outbox;
    elections = c.elections ++ elected m.world w';
  }

  abbrev pub with_empty : Member C S → World C S
  with_empty m = record m.world { outbox = [] }

module _ {C S : Type 0} ⦃clients : ClientManagerInterface C⦄
    ⦃disk : ClusterNodeStorageInterface S⦄ where
  abbrev pub act_of : Option (Member C S) → ℕ → Event → Cluster C S → Cluster C S
  act_of none k e c = c
  act_of (some m) k e c = if m.stopped then c else stepped (handle e (with_empty m)) m k c

  unfoldable pub act : ℕ → Event → Cluster C S → Cluster C S
  act k e c = act_of (get_elem? c.members k) k e c

  -- A message to no node of the cluster is lost.
  abbrev pub arrive : Option (ℤ × FlowMessage) → (now random_id : ℤ) → Cluster C S → Cluster C S
  arrive none now random_id c = c
  arrive (some (pos k, m)) now random_id c = act k (Handler.message m now random_id) c
  arrive (some (negsuc k, m)) now random_id c = c

  unfoldable pub step : Step → Cluster C S → Cluster C S
  step (delivers i now random_id) c =
      arrive (get_elem? c.in_flight i) now random_id
        (record c { in_flight = remove_at i c.in_flight })
  step (loses i) c = record c { in_flight = remove_at i c.in_flight }
  step (happens k e) c = if is_local e then act k e c else c

  unfoldable pub run : List Step → Cluster C S → Cluster C S
  run [] c = c
  run (s ∷ ss) c = run ss (step s c)
