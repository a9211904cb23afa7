-- ===== src/ClusterMaster.antt =====
-- src/flowmq/cluster_master.hpp and cluster_master.cpp: the dispatch of messages to the nodes of the
-- partitions. Each node has an io_context of its own, to which its methods post.
pub mod Inbox
mod Runs
use flowmq.Base.{ℤ, Bytes, List, [], ◌∷◌, ◌++◌, Option, none, some, Outcome, ok, fault, ◌>>=◌}
use flowmq.Containers.OrdMap
use flowmq.Containers.OrdMap.{OrdMap}
use flowmq.Protocol.{FlowMessage, partition_id_of}
use flowmq.Message.{Message, FlowMessageCodec, deserialize_from_message}
use flowmq.Configuration.{ServerPoint, ServerConfiguration}

-- What waits in the io_context of a node: local_message_handler, or the function that
-- consumer_disconnected posts.
pub data Posted : Type 0 where
  local_message : FlowMessage → Posted
  lost_consumer : ℤ → Posted

pub record PartitionNode (N : Type 0) : Type 0 where
  pub node : N
  pub posted : List Posted

pub record ClusterMaster (N : Type 0) : Type 0 where
  pub nodes : OrdMap (PartitionNode N)
  pub server_config : ServerConfiguration

module _ {N : Type 0} where
  abbrev pub new_master : ServerConfiguration → ClusterMaster N
  new_master config = record { nodes = []; server_config = config }

  unfoldable pub add_cluster_node : ℤ → N → ClusterMaster N → ClusterMaster N
  add_cluster_node partition_id node m = record m {
    nodes = OrdMap.assign partition_id (record { node = node; posted = [] }) m.nodes;
  }

  -- ClusterNode::message_handler once more reads the message, and posts.
  unfoldable pub node_message_handler :
      FlowMessageCodec → Message → PartitionNode N → Outcome (PartitionNode N)
  node_message_handler codec msg n = do
    raft_msg ← deserialize_from_message codec msg
    ok (record n { posted = n.posted ++ local_message raft_msg ∷ [] })

  unfoldable pub consumer_disconnected : ℤ → PartitionNode N → PartitionNode N
  consumer_disconnected client_id n = record n { posted = n.posted ++ lost_consumer client_id ∷ [] }

  abbrev pub dispatch_to :
      FlowMessageCodec
      → Message
      → ℤ
      → Option (PartitionNode N)
      → ClusterMaster N
      → Outcome (ClusterMaster N)
  dispatch_to codec msg partition_id none m = fault
  dispatch_to codec msg partition_id (some n) m = do
    n' ← node_message_handler codec msg n
    ok (record m { nodes = OrdMap.assign partition_id n' m.nodes })

  -- An unknown partition stops at the assertion.
  unfoldable pub message_handler :
      FlowMessageCodec → Message → ClusterMaster N → Outcome (ClusterMaster N)
  message_handler codec msg m = do
    raft_msg ← deserialize_from_message codec msg
    dispatch_to codec msg (partition_id_of raft_msg)
        (OrdMap.lookup m.nodes (partition_id_of raft_msg)) m

  unfoldable pub all_disconnected : ℤ → OrdMap (PartitionNode N) → OrdMap (PartitionNode N)
  all_disconnected client_id [] = []
  all_disconnected client_id ((i, n) ∷ rest) =
      (i, consumer_disconnected client_id n) ∷ all_disconnected client_id rest

  abbrev pub client_disconnected : ℤ → ClusterMaster N → ClusterMaster N
  client_disconnected client_id m = record m { nodes = all_disconnected client_id m.nodes }

  abbrev pub nodes_in : OrdMap (PartitionNode N) → OrdMap N
  nodes_in [] = []
  nodes_in ((i, n) ∷ rest) = (i, n.node) ∷ nodes_in rest

  abbrev pub get_nodes : ClusterMaster N → OrdMap N
  get_nodes m = nodes_in m.nodes

-- A call of one of the two handlers that the master registers.
pub data Input : Type 0 where
  message : Message → Input
  client_leaves : ℤ → Input

module _ {N : Type 0} (codec : FlowMessageCodec) where
  unfoldable pub handle : Input → ClusterMaster N → Outcome (ClusterMaster N)
  handle (message msg) m = message_handler codec msg m
  handle (client_leaves client_id) m = ok (client_disconnected client_id m)

  unfoldable pub run : List Input → ClusterMaster N → Outcome (ClusterMaster N)
  run [] m = ok m
  run (i ∷ is) m = handle i m >>= λ m'. run is m'
