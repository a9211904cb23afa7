-- ===== src/ClusterNode/Runs.antt =====
-- Runs of src/flowmq/cluster_node.cpp, and its theorems at concrete inputs: three nodes, of which
-- node 0 wins an election, takes two messages from clients and commits them.
use flowmq.Base.{
  ◌==ℤ◌, ℤ, pos, minus_one, ℕ, zero, suc, true, increment, ◌+ℤ◌, ◌⊎◌, List, [], ◌∷◌, Option, none,
  some, Outcome, ok, fault, ◌≡◌, refl, ◌≢◌, ◌≤ℤ◌, arith, take, drop, ◌++◌, length, All,
}
use flowmq.Containers.{containers}
use flowmq.Protocol.{
  FlowMessage, LogEntry, add_operation, commit_operation, raft_message, load_vote_result,
  load_append_entries_response, load_client_put_message_request,
}
use flowmq.Interfaces.{ClusterNodeStorageInterface}
use flowmq.MessageQueue.{MessageQueue, empty}
use flowmq.MessageQueue
use flowmq.MessageQueue.Spec.{view}
use flowmq.MessageQueue.Invariant.{IsValid, empty-IsValid}
use flowmq.MessageQueue.History.{
  Call, inserts, commits, delivers, SamePersisted, AllAllowed, logged,
}
use flowmq.MessageQueue.History
use flowmq.ClientManager.{ClientManager, no_clients, client_manager}
use flowmq.ClientManager
use flowmq.ClusterNode.State.{leader, World}
use flowmq.ClusterNode.Log.{append_log_entries, check_if_previous_log_in_sync}
use flowmq.ClusterNode.LogAgreement.{append_log_entries-Matches, Matches}
use flowmq.ClusterNode.LogMatching.{append_log_entries-merge, merge}
use flowmq.ClusterNode.Commit.{commit_range}
use flowmq.ClusterNode.Handler.{
  handle, Event, message, vote_timer_fires, delayed_vote_fires, heartbeat_timer_fires,
  consumer_leaves, run, methods,
}
use flowmq.ClusterNode.Start.{start, started, ClusterNodeConfig, first_entry}
use flowmq.ClusterNode.Frames.{ballots}
use flowmq.ClusterNode.Election.{run-VotesOnce, run-Moves, IsHonest}
use flowmq.ClusterNode.Replay.{apply_all, calls_of, commit_range-apply_all, replay-SamePersisted}
use flowmq.ClusterNode.Roles.{Changes, handle-Changes}
use flowmq.ClusterNode.Ballots.{IsSane}
use flowmq.ClusterNode.QueueEvents.{run-IsValid}

-- A storage that keeps nothing, as ClusterNodeStorageMock of src/flowmq/cluster_node_storage.hpp.
abbrev pub NoFiles : Type 0
NoFiles = Unit {0}

instance abbrev pub no_files : ClusterNodeStorageInterface NoFiles
no_files = record {
  load_log_entry_from_file = λ s entries. ok (pos 0, entries);
  load_metadata_from_file = λ s last. (pos 0, last);
  store_log_entries_and_metadata = λ log first last committed s. ok s;
}

abbrev W : Type 0
W = World ClientManager NoFiles

-- Node 0 of three, of partition 9.
abbrev pub three_nodes : ClusterNodeConfig
three_nodes = record { partition_id = pos 9; node_id = pos 0; total_nodes = pos 3 }

abbrev node_0 : W
node_0 = started three_nodes no_clients tt [] (pos 0) (pos 0) (first_entry ∷ []) (pos 0)

node_0_starts : start three_nodes no_clients tt [] (pos 0) (pos 0) ≡ ok node_0
unfolding start ◌==ℤ◌
node_0_starts = refl

abbrev granted_1 : FlowMessage
granted_1 =
    load_vote_result (record { term = pos 1; vote_result_term_granted = pos 1 }) raft_message

abbrev put : ℕ → FlowMessage
put b =
    load_client_put_message_request (record { message = b ∷ []; message_id = none }) raft_message

abbrev synced : ℤ → FlowMessage
synced i =
    load_append_entries_response
      (record {
        term = pos 1;
        follower_id = pos 1;
        append_result_success = pos 1;
        last_index_synced = i;
      })
      raft_message

abbrev story : List Event
story =
    vote_timer_fires (pos 100)
    ∷ delayed_vote_fires
    ∷ message granted_1 (pos 101) (pos 0)
    ∷ message (put 65) (pos 102) (pos 500)
    ∷ message (put 66) (pos 103) (pos 501)
    ∷ message (synced (pos 1)) (pos 104) (pos 0)
    ∷ heartbeat_timer_fires
    ∷ message (synced (pos 2)) (pos 105) (pos 0)
    ∷ consumer_leaves (pos 3)
    ∷ []

-- What the node is after the story.
abbrev node_after : Outcome W → Option (ℤ × ℤ × ℕ × List ℤ)
node_after (ok w) = some (
  w.node.cur_term,
  w.node.commit_index,
  length w.node.log_entries,
  w.node.message_queue.undelivered_messages,
)
node_after fault = none

story_after : node_after (run story node_0) ≡ some (pos 1, pos 2, 3, pos 500 ∷ pos 501 ∷ [])
unfolding started methods MessageQueue.methods ClientManager.methods
story_after = refl

abbrev final : W
final = elim (run story node_0) [ ok w ↦ w | fault ↦ node_0 ]

story_runs : run story node_0 ≡ ok final
unfolding started methods MessageQueue.methods ClientManager.methods
story_runs = refl

zero_is_a_node : pos 0 ≢ minus_one
zero_is_a_node = grind arith

story-IsSane : All IsSane story
story-IsSane = (
  tt,
  (
    tt,
    (
      zero_is_a_node,
      (zero_is_a_node, (zero_is_a_node, (zero_is_a_node, (tt, (zero_is_a_node, (tt, tt)))))),
    ),
  ),
)

node_0_id : node_0.node.node_id ≢ minus_one
unfolding started
node_0_id = grind arith

node_0-IsHonest : IsHonest node_0.node (ballots node_0.outbox)
unfolding started
node_0-IsHonest = (tt, tt)

node_0_queue : IsValid node_0.node.message_queue
unfolding started methods
node_0_queue = empty-IsValid

run-VotesOnce_example : IsHonest final.node (ballots final.outbox)
run-VotesOnce_example =
    run-VotesOnce story node_0 final story-IsSane node_0_id node_0-IsHonest story_runs

run-Moves_example :
    (node_0.node.cur_term ≤ℤ final.node.cur_term)
    × (node_0.node.commit_index ≤ℤ final.node.commit_index)
run-Moves_example = run-Moves story node_0 final story-IsSane node_0_id story_runs

run-IsValid_example : IsValid final.node.message_queue
run-IsValid_example = run-IsValid story node_0 final node_0_queue story_runs

abbrev entry : ℤ → ℤ → ℤ → LogEntry
entry i t k = record {
  index = i;
  term = t;
  message_id = k;
  operation = add_operation;
  message = [];
}

abbrev own : List LogEntry
own =
    entry (pos 0) (pos 0) (pos 0)
    ∷ entry (pos 1) (pos 1) (pos 7)
    ∷ entry (pos 2) (pos 1) (pos 8)
    ∷ []

-- The same first entry, and another second one.
abbrev sent : List LogEntry
sent = entry (pos 1) (pos 1) (pos 7) ∷ entry (pos 2) (pos 2) (pos 9) ∷ []

append_log_entries-merge_example :
    append_log_entries 0 sent own ≡ take 1 own ++ merge (drop 1 own) sent
append_log_entries-merge_example = append_log_entries-merge 0 sent own (omega arith)

-- A leader's log that goes on otherwise than `own`, and the part that both have.
abbrev leading : List LogEntry
leading = entry (pos 0) (pos 0) (pos 0) ∷ sent

abbrev both : List LogEntry
both = take 2 own

own-leading : Matches own leading
own-leading zero a b e f t = refl
own-leading (suc zero) a b e f t = refl
own-leading (suc (suc zero)) a b e f t = ground (arith, e, f, t)
own-leading (suc (suc (suc i))) a b e f t = cc

own-both : Matches own both
own-both zero a b e f t = refl
own-both (suc zero) a b e f t = refl
own-both (suc (suc i)) a b e f t = cc

leading-both : Matches leading both
leading-both zero a b e f t = refl
leading-both (suc zero) a b e f t = refl
leading-both (suc (suc i)) a b e f t = cc

own-in_sync : check_if_previous_log_in_sync (pos 0) (pos 0) own ≡ ok true
unfolding check_if_previous_log_in_sync increment ◌+ℤ◌ ◌==ℤ◌
own-in_sync = refl

append_log_entries-Matches_example :
    let log' = append_log_entries 0 sent own in
    (((take 3 own ≡ take 3 leading) × (log' ≡ own))
      ⊎ ((take 3 own ≢ take 3 leading) × (log' ≡ take 3 leading)))
    × Matches log' leading
    × Matches log' both
append_log_entries-Matches_example =
    append_log_entries-Matches own leading both 0 2 (entry (pos 0) (pos 0) (pos 0)) own-leading
      own-both leading-both refl own-in_sync

commit_range-apply_all_example :
    commit_range 2 own (pos 1) empty ≡ apply_all (take 2 (drop 1 own)) empty
commit_range-apply_all_example = commit_range-apply_all 2 1 own empty (omega arith)

-- Two messages and a commit, as a log and as the calls of a leader that also delivers.
abbrev committed_log : List LogEntry
committed_log =
    entry (pos 1) (pos 1) (pos 7)
    ∷ entry (pos 2) (pos 1) (pos 8)
    ∷ record (entry (pos 3) (pos 1) (pos 7)) { operation = commit_operation }
    ∷ []

abbrev leader_calls : List Call
leader_calls =
    inserts (pos 7) [] ∷ inserts (pos 8) [] ∷ delivers (pos 7) (pos 1) ∷ commits (pos 7) ∷ []

leader_calls_allowed : AllAllowed leader_calls empty
unfolding History.step MessageQueue.methods
leader_calls_allowed = (tt, (tt, (refl, (tt, tt))))

leader_calls-logged : logged leader_calls ≡ calls_of committed_log
unfolding containers
leader_calls-logged = refl

replay-SamePersisted_example :
    SamePersisted (view (History.run leader_calls empty)) (view (apply_all committed_log empty))
replay-SamePersisted_example =
    replay-SamePersisted committed_log leader_calls leader_calls_allowed leader_calls-logged

-- The candidate that has voted for itself, and the leader that the second vote makes of it.
abbrev one_vote : W
one_vote = elim (run (vote_timer_fires (pos 100) ∷ delayed_vote_fires ∷ []) node_0) [
  | ok w ↦ w
  | fault ↦ node_0
]

abbrev two_votes : W
two_votes = elim (handle (message granted_1 (pos 101) (pos 0)) one_vote) [
  | ok w ↦ w
  | fault ↦ node_0
]

second_vote : handle (message granted_1 (pos 101) (pos 0)) one_vote ≡ ok two_votes
unfolding started methods MessageQueue.methods ClientManager.methods
second_vote = refl

two_votes_lead : two_votes.node.state ≡ leader
unfolding started methods MessageQueue.methods ClientManager.methods
two_votes_lead = refl

handle-Changes_example : Changes one_vote two_votes
handle-Changes_example =
    handle-Changes (message granted_1 (pos 101) (pos 0)) one_vote two_votes second_vote
