-- ===== src/ClusterNode.antt =====
-- src/flowmq/cluster_node.hpp and cluster_node.cpp: one Raft node of one partition.
pub mod State
pub mod Log
pub mod LogMatching
pub mod LogAgreement
pub mod Delivery
pub mod Commit
pub mod Replicate
pub mod Follower
pub mod Leader
pub mod Vote
pub mod Handler
pub mod Start
pub mod Frames
pub mod Advance
pub mod Ballots
pub mod Election
pub mod Roles
pub mod Plain
pub mod Replay
pub mod Restart
pub mod Stored
pub mod Queue
pub mod QueueEvents
pub mod Runs
