-- ===== src/Storage/Runs.antt =====
-- Runs of the storage (src/flowmq/log_entry_storage.cpp and cluster_node_storage.cpp), and its
-- theorems at concrete inputs. The codec of the runs writes four numbers and the message.
use flowmq.Base.{
  ℤ, pos, ℕ, ◌<◌, length, Outcome, Bytes, List, [], ◌∷◌, none, some, true, false, ok, fault,
  pos_part, ◌≡◌, refl, arith,
}
use flowmq.Protocol.{LogEntry, add_operation}
use flowmq.Text.Decimal.{show_ℕ, show_ℤ, digits, extract_int, skip_spaces, span_digits, value_from}
use flowmq.Storage.Files.{
  LogEntryCodec, frames, append_log_entry_to_file, load_entries, read_round,
  load_log_entry_from_file, save_metadata_to_file, load_metadata_from_file,
}
use flowmq.Storage.RoundTrip.{IsStorable, append_all, load-append_all, load-save_metadata}
use flowmq.MessageQueue
use flowmq.MessageQueue.{empty}
use flowmq.ClientManager
use flowmq.ClientManager.{client_manager}
use flowmq.ClusterNode.Handler
use flowmq.ClusterNode.Start.{started}
use flowmq.ClusterNode.Commit.{commit_up_to}
use flowmq.ClusterNode.Stored.{buffered-commit_up_to}
use flowmq.Storage.Buffer.{slice}
use flowmq.Base.{◌++◌}
use flowmq.ClientManager.{ClientManager, no_clients}
use flowmq.ClusterNode.State.{World}
use flowmq.ClusterNode.Start.{start, first_entry}
use flowmq.ClusterNode.Replay.{apply_all}
use flowmq.ClusterNode.Restart.{start-load}
use flowmq.ClusterNode.Runs.{three_nodes}
use flowmq.Text.Decimal.{IsInt}
use flowmq.Storage.Buffer.{cluster_node_storage, stored}
use flowmq.Storage.Termination.{load_entries-ends}
use flowmq.Storage.Buffer.{
  ClusterNodeStorage, stores, writes, steps, Step, write_buffers, store_log_entries_and_metadata,
  load-steps,
}

abbrev read_entry : Bytes → LogEntry
read_entry (i ∷ t ∷ k ∷ o ∷ message) = record {
  index = pos i;
  term = pos t;
  message_id = pos k;
  operation = pos o;
  message = message;
}
read_entry s = record {
  index = pos 0;
  term = pos 0;
  message_id = pos 0;
  operation = pos 0;
  message = [];
}

abbrev plain : LogEntryCodec
plain = record {
  serialize = λ e.
      pos_part e.index ∷ pos_part e.term ∷ pos_part e.message_id ∷ pos_part e.operation ∷ e.message;
  parse = read_entry;
}

abbrev entry : ℕ → LogEntry
entry i = record {
  index = pos i;
  term = pos 1;
  message_id = pos 32;
  operation = add_operation;
  message = 48 ∷ 32 ∷ 49 ∷ [];
}

abbrev log : List LogEntry
log = entry 0 ∷ entry 1 ∷ entry 2 ∷ entry 3 ∷ []

frames_of_log : frames plain (entry 1 ∷ []) ≡ 55 ∷ 32 ∷ 1 ∷ 1 ∷ 32 ∷ 0 ∷ 48 ∷ 32 ∷ 49 ∷ []
unfolding frames show_ℕ digits
frames_of_log = refl

-- A file that ends in the middle of an entry still gives an entry.
torn :
    load_log_entry_from_file plain (some (55 ∷ 32 ∷ 1 ∷ 1 ∷ 32 ∷ 0 ∷ [])) []
    ≡ ok (pos 0, record (entry 1) { message = 0 ∷ 0 ∷ 0 ∷ [] } ∷ [])
unfolding load_log_entry_from_file load_entries read_round extract_int skip_spaces span_digits
    value_from
torn = refl

entry-IsStorable : (i : ℕ) → IsStorable plain (entry i)
entry-IsStorable i = (refl, omega arith)

load-append_all_example :
    load_log_entry_from_file plain
      (append_all plain ((entry 1 ∷ []) ∷ (entry 2 ∷ entry 3 ∷ []) ∷ []) none)
      (entry 0 ∷ [])
    ≡ ok (pos 0, log)
load-append_all_example =
    load-append_all plain (entry 1 ∷ []) ((entry 2 ∷ entry 3 ∷ []) ∷ []) (entry 0 ∷ [])
      (entry-IsStorable 1, (entry-IsStorable 2, (entry-IsStorable 3, tt)))

load-save_metadata_example :
    load_metadata_from_file (save_metadata_to_file true (pos 120) none).1 (pos 0) ≡ (pos 0, pos 120)
load-save_metadata_example = load-save_metadata (pos 120) (pos 0) none (omega arith)

-- A file that ends in the middle of an entry.
abbrev torn_file : Bytes
torn_file = 55 ∷ 32 ∷ 1 ∷ 1 ∷ 32 ∷ 0 ∷ []

load_entries-ends_example :
    (r : Outcome (ℤ × List LogEntry)) × ((fuel : ℕ)
      → length torn_file < fuel
      → load_entries plain fuel [] torn_file [] ≡ some r)
    × (load_log_entry_from_file plain (some torn_file) [] ≡ r)
load_entries-ends_example = load_entries-ends plain torn_file []

abbrev fresh : ClusterNodeStorage
fresh = record {
  log_entry_file = none;
  metadata_file = none;
  log_entry_buffers = [];
  metadata_buffer = pos 0;
}

abbrev interleaving : List Step
interleaving =
    stores log (pos 1) (pos 2) (pos 1)
    ∷ writes true true
    ∷ writes true false
    ∷ stores log (pos 2) (pos 4) (pos 3)
    ∷ []

abbrev after : ClusterNodeStorage
after = elim (steps plain interleaving fresh) [ ok s ↦ s | fault ↦ fresh ]

interleaving_runs : steps plain interleaving fresh ≡ ok after
unfolding steps store_log_entries_and_metadata write_buffers append_log_entry_to_file
    save_metadata_to_file frames show_ℕ show_ℤ digits
interleaving_runs = refl

after_committed : IsInt after.metadata_buffer
unfolding steps store_log_entries_and_metadata write_buffers append_log_entry_to_file
    save_metadata_to_file frames show_ℕ show_ℤ digits
after_committed = omega arith

load-steps_example :
    load_log_entry_from_file plain
      (write_buffers plain true true after).log_entry_file
      (entry 0 ∷ [])
    ≡ ok (pos 0, log)
load-steps_example =
    load-steps plain interleaving fresh after (entry 0 ∷ []) refl refl (refl, (refl, tt))
      (entry-IsStorable 1, (entry-IsStorable 2, (entry-IsStorable 3, tt))) interleaving_runs

start-load_example :
    (w : World ClientManager ClusterNodeStorage) × (start ⦃disk = cluster_node_storage plain⦄
        three_nodes no_clients
        (write_buffers plain true true after)
        []
        (pos 0)
        (pos 0)
      ≡ ok w)
    × (w.node.log_entries ≡ first_entry ∷ stored plain interleaving)
    × (w.node.commit_index ≡ after.metadata_buffer)
    × (w.node.message_queue ≡ apply_all (stored plain interleaving) empty)
start-load_example =
    start-load plain interleaving fresh after three_nodes no_clients [] (pos 0) (pos 0) refl refl
      (refl, (refl, tt)) (entry-IsStorable 1, (entry-IsStorable 2, (entry-IsStorable 3, tt)))
      interleaving_runs after_committed

-- A node that commits three entries at once.
abbrev behind : World ClientManager ClusterNodeStorage
behind = started three_nodes no_clients fresh [] (pos 0) (pos 0) log (pos 0)

abbrev committed : World ClientManager ClusterNodeStorage
committed = elim (commit_up_to ⦃disk = cluster_node_storage plain⦄ (pos 3) (pos 3) behind) [
  | ok w ↦ w
  | fault ↦ behind
]

behind_commits :
    commit_up_to ⦃disk = cluster_node_storage plain⦄ (pos 3) (pos 3) behind ≡ ok committed
unfolding started Handler.methods MessageQueue.methods ClientManager.methods
    store_log_entries_and_metadata
behind_commits = refl

buffered-commit_up_to_example :
    committed.storage.log_entry_buffers
    ≡ behind.storage.log_entry_buffers ++ slice 3 4 behind.node.log_entries
buffered-commit_up_to_example = buffered-commit_up_to plain 3 behind committed behind_commits
