-- ===== src/ClusterNode/Start.antt =====
-- The constructor of ClusterNode in src/flowmq/cluster_node.cpp.
use flowmq.Configuration.{ServerPoint}
use flowmq.Base.{
  Outcome, ok, ◌>>=◌, ℤ, pos, minus_one, ◌-◌, List, [], ◌∷◌, ◌==ℤ◌, if◌then◌else◌, map, length,
}
use flowmq.Containers.OrdMap.{OrdMap}
use flowmq.Protocol.{LogEntry, add_operation}
use flowmq.Interfaces.{ClusterNodeStorageInterface}
use flowmq.MessageQueue
use flowmq.ClusterNode.State.{World, State}
use flowmq.ClusterNode.Commit.{commit_range}
use flowmq.ClusterNode.Handler.{other_nodes, nodes_of}

-- struct ClusterNodeConfig
pub record ClusterNodeConfig : Type 0 where
  pub partition_id : ℤ
  pub node_id : ℤ
  pub total_nodes : ℤ

-- The entry that fills index 0 of the log.
abbrev pub first_entry : LogEntry
first_entry = record {
  index = pos 0;
  term = pos 0;
  message_id = pos 0;
  operation = add_operation;
  message = [];
}

abbrev pub same_for_all : ℤ → List ℤ → OrdMap ℤ
same_for_all v = map λ i. (i, v)

module _ {C S : Type 0} where
  -- The members, once the log and the last committed index are read. `heard` and `votes` are the
  -- values that the two members without an initializer happen to have.
  unfoldable pub started :
      ClusterNodeConfig
      → C
      → S
      → List ServerPoint
      → (heard votes : ℤ) → List LogEntry
      → ℤ
      → World C S
  started config clients storage servers heard votes log last_committed =
      let others = other_nodes (nodes_of config.total_nodes) config.node_id in
      record {
        node = record {
          partition_id = config.partition_id;
          node_id = config.node_id;
          total_nodes = config.total_nodes;
          state = State.candidate;
          cur_term = pos 0;
          cur_leader = minus_one;
          last_heart_beat_received = heard;
          votes_collected = votes;
          voted_for = minus_one;
          log_entries = log;
          commit_index = last_committed;
          last_applied = pos 0;
          next_index = same_for_all (pos 1) others;
          matched_index = same_for_all (pos 0) others;
          pending_append_reqs = [];
          message_queue = commit_range (length log - 1) log (pos 1) MessageQueue.empty;
        };
        clients = clients;
        storage = storage;
        servers = servers;
        outbox = [];
        waiting_votes = 0;
      }

module _ {C S : Type 0} ⦃disk : ClusterNodeStorageInterface S⦄ where
  -- What load_log_entry_from_file returns is only reported.
  unfoldable pub start :
      ClusterNodeConfig → C → S → List ServerPoint → (heard votes : ℤ) → Outcome (World C S)
  start config clients storage servers heard votes = do
    (_, log) ← disk.load_log_entry_from_file storage (first_entry ∷ [])
    let (code, last_committed) = disk.load_metadata_from_file storage (pos 0)
    let committed = if code ==ℤ pos 0 then last_committed else pos 0
    ok (started config clients storage servers heard votes log committed)
