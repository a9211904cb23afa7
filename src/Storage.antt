-- ===== src/Storage.antt =====
-- src/flowmq/log_entry_storage.hpp, log_entry_storage.cpp, log_entry.hpp, cluster_node_storage.hpp
-- and cluster_node_storage.cpp: how a node's log and its commit index go to files.
pub mod Files
pub mod RoundTrip
pub mod Termination
pub mod Buffer
mod Runs
