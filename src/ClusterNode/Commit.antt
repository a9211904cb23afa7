-- ===== src/ClusterNode/Commit.antt =====
-- commit_log_entry and commit_log_entries of src/flowmq/cluster_node.cpp.
use flowmq.Base.{
  ℤ, pos, ℕ, zero, suc, List, none, some, Outcome, ◌>>=◌, ok, ltb_ℤ, ◌==ℤ◌, ◌+ℤ◌, ◌-ℤ◌, pos_part,
  increment, if◌then◌else◌,
}
use flowmq.MessageQueue.{MessageQueue, insert_message, commit_message}
use flowmq.Protocol.{LogEntry, add_operation, commit_operation}
use flowmq.Interfaces.{ClientManagerInterface, ClusterNodeStorageInterface}
use flowmq.ClusterNode.State.{World}
use flowmq.ClusterNode.Log.{entry_at}
use flowmq.ClusterNode.Delivery.{trigger_message_delivery}

-- Either put a new message or commit a delivered message.
unfoldable pub apply_entry : LogEntry → MessageQueue → MessageQueue
apply_entry e q =
    if e.operation ==ℤ add_operation
    then (insert_message e.message_id e.message q).1
    else if e.operation ==ℤ commit_operation
    then (commit_message e.message_id q).1
    else q

-- An index out of range is reported in the log file and skipped.
unfoldable pub commit_log_entry : List LogEntry → ℤ → MessageQueue → MessageQueue
commit_log_entry log entry_index q =
    if ltb_ℤ (pos 0) entry_index
    then (elim (entry_at log entry_index) [ none ↦ q | some e ↦ apply_entry e q ])
    else q

-- The loop of `commit_log_entries`, on the number of rounds left.
unfoldable pub commit_range : ℕ → List LogEntry → ℤ → MessageQueue → MessageQueue
commit_range zero log i q = q
commit_range (suc n) log i q = commit_range n log (i +ℤ pos 1) (commit_log_entry log i q)

module _ {C S : Type 0} ⦃clients : ClientManagerInterface C⦄ where
  unfoldable pub commit_log_entries : ℤ → ℤ → World C S → Outcome (World C S)
  commit_log_entries start_entry_index stop_entry_index w = trigger_message_delivery (record w {
    node = record w.node {
      message_queue =
          commit_range (pos_part (stop_entry_index -ℤ start_entry_index)) w.node.log_entries
            start_entry_index w.node.message_queue;
    };
  })

module _ {C S : Type 0} ⦃clients : ClientManagerInterface C⦄
    ⦃disk : ClusterNodeStorageInterface S⦄ where
  -- commit_index_ is set first; then the entries from the new commit_index_ up to `stop` go to the
  -- storage. Both places that commit do it in this order.
  unfoldable pub store_commit : ℤ → ℤ → World C S → Outcome (World C S)
  store_commit index stop w = do
    stored ← disk.store_log_entries_and_metadata w.node.log_entries index stop index w.storage
    ok (record w { node = record w.node { commit_index = index }; storage = stored })

  unfoldable pub commit_between : ℤ → ℤ → ℤ → World C S → Outcome (World C S)
  commit_between index start stop w = do
    w' ← commit_log_entries start stop w
    store_commit index stop w'

  unfoldable pub commit_from : ℤ → ℤ → World C S → ℤ → Outcome (World C S)
  commit_from index last w start = do stop ← increment last; commit_between index start stop w

  -- The entries after commit_index_ up to `last` are committed; `index` is the new commit_index_.
  unfoldable pub commit_up_to : ℤ → ℤ → World C S → Outcome (World C S)
  commit_up_to index last w = do
    start ← increment w.node.commit_index
    commit_from index last w start
