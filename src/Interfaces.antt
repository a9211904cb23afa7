-- ===== src/Interfaces.antt =====
-- The abstract classes that src/flowmq/cluster_node.hpp works against: ClientManagerInterface of
-- src/flowmq/client_manager.hpp and ClusterNodeStorageInterface of
-- src/flowmq/cluster_node_storage.hpp, each over the state of an implementation. (What a node hands
-- to ClusterManagerInterface only leaves the node: see Packet in ClusterNode.)
use flowmq.Base.{ℤ, Bool, List, Outcome}
use flowmq.Protocol.{FlowMessage, LogEntry}

pub record ClientManagerInterface (C : Type 0) : Type 0 where
  pub deliver_one_message_round_robin : ℤ → FlowMessage → C → Outcome (ℤ × C)
  pub has_consumers : C → Bool

-- The loads return the code of the source, with the entries read appended to the argument.
pub record ClusterNodeStorageInterface (S : Type 0) : Type 0 where
  pub load_log_entry_from_file : S → List LogEntry → Outcome (ℤ × List LogEntry)
  pub load_metadata_from_file : S → ℤ → ℤ × ℤ
  pub store_log_entries_and_metadata : List LogEntry → ℤ → ℤ → ℤ → S → Outcome S
