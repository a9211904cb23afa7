-- ===== src/Lib.antt =====
-- flowmq, a message queue of partitions that Raft nodes replicate (src/flowmq of the repository).
--
-- A server process holds one ClusterNode for each partition. A node gets messages from the other
-- nodes of its partition and from clients, keeps a log of put and commit entries, applies the
-- committed ones to its MessageQueue, and, as the leader, hands the undelivered messages to the
-- consumers through the ClientManager.
--
-- The parts and their files:
--   * src/flowmq/message_queue.hpp, message_queue.cpp: MessageQueue, with the abstract view of a
--     queue (MessageQueue/Spec), the invariant (Invariant), the refinement of each method
--     (Refinement) and of a history of calls (History).
--   * src/flowmq/flow_message.pb.h, raft_message.hpp: Protocol, the messages and their wrapper.
--   * src/flowmq/cluster_node.hpp, cluster_node.cpp: ClusterNode. State is the node with what it
--     reaches; Log, Commit, Delivery, Replicate, Follower, Leader and Vote are the methods and the
--     cases of local_message_handler, Handler their dispatch and the timers, Start the constructor.
--     LogMatching, LogAgreement, Replay, Restart, Stored, Roles, Frames, Advance, Ballots, Election,
--     Plain, Queue and QueueEvents hold proofs.
--   * several nodes and the network between them: Cluster. Traffic and Counts count the votes, in
--     the network and sent, Tally is the invariant on them, Answers, Asks, Effects, Events, Requests,
--     Responses, Candidates, Keeps and Steps show that each step keeps it, and Elections what follows.
--   * src/flowmq/client_manager.hpp, client_manager.cpp: ClientManager, with RoundRobin, Sessions,
--     Safety and Lost for proofs.
--   * src/flowmq/log_entry_storage.cpp, cluster_node_storage.cpp, log_entry.hpp: Storage. Files is
--     the two file formats, Buffer the buffer that the node fills and a thread writes; RoundTrip and
--     Termination hold proofs.
--   * src/flowmq/message.hpp, with the methods of raft_message.hpp that fill and read it: Message,
--     with RoundTrip for proofs and Codec, a serialisation for the tests.
--   * src/flowmq/session.hpp, session.cpp: Session, with the proofs on its disconnect handler
--     (Disconnect) and on the messages that it hands over (Reads, Stream, Delivery).
--   * src/flowmq/cluster_manager.hpp, cluster_manager.cpp: ClusterManager, with the proofs on its
--     connections (Steps, Tokens, Links, Gains, Keeps, Reconnect) and on what it writes (Broadcast).
--   * src/flowmq/cluster_master.hpp, cluster_master.cpp: ClusterMaster, with Inbox for proofs.
--   * src/flowmq/generic_client.hpp, generic_client.cpp, src/flowmq_client/simple_client.hpp: Client,
--     with Redirect for proofs.
--   * src/application/client.cpp: Terminal, with Requests for proofs.
--   * RunServer in src/application/cluster_node.cpp: Server, with Endpoints for proofs.
--   * src/flowmq/configuration.hpp, configuration.cpp: Configuration, with RoundTrip, Refusal and
--     Loaded for proofs.
--   * the standard library's decimal numbers, lines and searches in strings: Text.
--   * the abstract classes between them: Interfaces.
--   * std::set and std::map with integer keys: Containers.
--
-- How the state corresponds. A record has the members of the class. A method is a function on the
-- record; where C++ leaves the behaviour undefined (an index out of range, a null pointer, a
-- counter of type int that passes its maximum) the result is `fault`. The io_context runs one
-- handler at a time, so a run of a node is a list of events, each a message with the time and the
-- random number that its handler reads, a timer, or a consumer that leaves. A run of a cluster is a
-- list of steps: a message arrives or is lost, in any order, or a node has a local event. A node that
-- faults stops for good; one that is started again, with its term and vote forgotten, is not
-- covered. What a node hands to
-- the ClusterManager is a list of packets, in order. Integers are unbounded but for the counters. A
-- node passes a message on as its record. Serialisation by protobuf is a parameter
-- (Storage.Files.LogEntryCodec, Message.FlowMessageCodec). A run of a session or of a
-- ClusterManager is a list of events as well: bytes that arrive, completions of what it waits for,
-- and calls of its methods. An exception that a reader of text lets out is `none`. Not modelled are
-- the tests and the logging. The
-- theorems on the runs of a node hold for any storage and client manager with the operations of
-- Interfaces; ClusterNodeStorage and ClientManager are instances. The loops are structural;
-- `commit_range` counts the rounds that `stop - start` leaves, `digits` and `load_entries` have
-- fuel: one more than the number, and one more than the
-- bytes of the file.
pub mod Base
pub mod Containers
pub mod MessageQueue
pub mod Protocol
pub mod Text
pub mod Message
pub mod Session
pub mod Configuration
pub mod ClusterManager
pub mod ClusterMaster
pub mod Client
pub mod Terminal
pub mod Server
pub mod Storage
pub mod Interfaces
pub mod ClusterNode
pub mod Cluster
pub mod ClientManager
