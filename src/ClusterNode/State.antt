-- ===== src/ClusterNode/State.antt =====
-- The state of a ClusterNode (src/flowmq/cluster_node.hpp) and of what its methods reach.
use flowmq.Base.{
  ℤ, pos, Bytes, List, [], ◌∷◌, ◌==ℤ◌, none, some, ℕ, if◌then◌else◌, negsuc, ◌-ℤ◌, ◌/◌, suc,
}
use flowmq.Containers.OrdMap
use flowmq.Containers.OrdMap.{OrdMap}
use flowmq.MessageQueue.{MessageQueue}
use flowmq.Configuration.{ServerPoint}
use flowmq.Protocol.{FlowMessage, LogEntry, set_partition_id}

pub data State : Type 0 where
  leader follower candidate : State

pub record ClusterNode : Type 0 where
  pub partition_id : ℤ
  pub node_id : ℤ
  pub total_nodes : ℤ
  pub state : State
  pub cur_term : ℤ
  pub cur_leader : ℤ
  pub last_heart_beat_received : ℤ
  pub votes_collected : ℤ
  pub voted_for : ℤ
  pub log_entries : List LogEntry
  pub commit_index : ℤ
  pub last_applied : ℤ
  pub next_index : OrdMap ℤ
  pub matched_index : OrdMap ℤ
  pub pending_append_reqs : OrdMap ℤ
  pub message_queue : MessageQueue

-- What a node hands to the ClusterManager: broad_cast(msg), or write_message(endpoint, msg).
pub data Packet : Type 0 where
  broad_cast : FlowMessage → Packet
  write_message : ℤ → FlowMessage → Packet

-- A node with what it reaches: the client manager, the storage, the addresses that the ClusterMaster
-- keeps, the packets handed over so far, and the number of vote timers that have not fired.
pub record World (C S : Type 0) : Type 0 where
  pub node : ClusterNode
  pub clients : C
  pub storage : S
  pub servers : List ServerPoint
  pub outbox : List Packet
  pub waiting_votes : ℕ

-- ClusterMaster::get_address_for_node (src/flowmq/cluster_master.cpp).
unfoldable pub get_address_for_node : List ServerPoint → ℤ → Bytes × Bytes
get_address_for_node [] node_id = ([], [])
get_address_for_node (p ∷ rest) node_id =
    if p.node_id ==ℤ node_id then (p.host_ip, p.client_port) else get_address_for_node rest node_id

-- serialize_raft_message: the partition id is added before the message leaves the node.
abbrev pub serialize_raft_message : ClusterNode → FlowMessage → FlowMessage
serialize_raft_message n m = set_partition_id n.partition_id m

-- m[key] of a std::map<int, int>: a missing key is inserted with 0.
abbrev pub at : ℤ → OrdMap ℤ → ℤ × OrdMap ℤ
at key m = elim (OrdMap.lookup m key) [
  | none ↦ (pos 0, OrdMap.assign key (pos 0) m)
  | some v ↦ (v, m)
]

-- total_nodes_ / 2, which C++ rounds towards 0.
abbrev pub half : ℤ → ℤ
half (pos n) = pos (n / 2)
half (negsuc n) = pos 0 -ℤ pos (suc n / 2)
