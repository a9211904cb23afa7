-- ===== src/ClusterNode/Restart.antt =====
-- The constructor of src/flowmq/cluster_node.cpp over the files of src/flowmq/cluster_node_storage.cpp.
use flowmq.Configuration.{ServerPoint}
use flowmq.Base.{
  ℤ, pos, ◌-◌, List, [], ◌∷◌, ok, none, true, ◌≡◌, refl, sym, ◌∙◌, ap, arith, All, length, take,
  take-append_length, append-nil, ◌==ℤ◌,
}
use flowmq.Protocol.{LogEntry}
use flowmq.MessageQueue.{empty}
use flowmq.ClusterNode.State.{World}
use flowmq.ClusterNode.Commit.{commit_range}
use flowmq.ClusterNode.Start.{start, started, ClusterNodeConfig, first_entry}
use flowmq.ClusterNode.Replay.{apply_all, commit_range-apply_all}
use flowmq.Storage.Files.{LogEntryCodec, load_metadata_from_file, load_log_entry_from_file}
use flowmq.Storage.RoundTrip.{IsStorable, load-save_metadata}
use flowmq.Text.Decimal.{IsInt}
use flowmq.Storage.Buffer.{
  ClusterNodeStorage, cluster_node_storage, Step, AllOpen, stored, steps, write_buffers, load-steps,
}

take-length : (es : List LogEntry) → take (length es) es ≡ es
take-length es =
    ap (λ (l : List LogEntry). take (length es) l) (sym (append-nil es)) ∙ take-append_length es []

-- The constructor replays the whole log behind the entry that fills index 0.
replay_all :
    (es : List LogEntry)
    → commit_range (length (first_entry ∷ es) - 1) (first_entry ∷ es) (pos 1) empty
      ≡ apply_all es empty
replay_all es =
    let n : length (first_entry ∷ es) - 1 ≡ length es = omega arith in
    rw
      (
        n,
        commit_range-apply_all (length es) 1 (first_entry ∷ es) empty (omega arith),
        take-length es,
      )
      refl

module _ {C : Type 0} (codec : LogEntryCodec) where
  start_over :
      (config : ClusterNodeConfig) (clients : C) (d : ClusterNodeStorage)
      (servers : List ServerPoint) (heard votes : ℤ) (log : List LogEntry) (code last_committed : ℤ)
      → load_log_entry_from_file codec d.log_entry_file (first_entry ∷ []) ≡ ok (code, log)
      → load_metadata_from_file d.metadata_file (pos 0) ≡ (pos 0, last_committed)
      → start ⦃disk = cluster_node_storage codec⦄ config clients d servers heard votes
        ≡ ok (started config clients d servers heard votes log last_committed)
  unfolding start ◌==ℤ◌
  start_over config clients d servers heard votes log code last_committed h k = rw (h, k) refl

  -- A storage without a log file and with an empty buffer takes steps of the node and of the thread,
  -- in any order, that all return; the log file can be opened each time, the codec reads each stored
  -- entry back from at most INT_MAX bytes, and the commit index to write is an `int`. Once the thread
  -- has written again, a node that is constructed over these files starts with the stored entries
  -- behind the first as its log, with that commit index, and with the queue that applying each stored
  -- entry once, in order, makes of an empty one.
  pub start-load :
      (xs : List Step) (s s' : ClusterNodeStorage) (config : ClusterNodeConfig) (clients : C)
      (servers : List ServerPoint) (heard votes : ℤ)
      → s.log_entry_file ≡ none
      → s.log_entry_buffers ≡ []
      → AllOpen codec xs
      → All (IsStorable codec) (stored codec xs)
      → steps codec xs s ≡ ok s'
      → IsInt s'.metadata_buffer
      → (w : World C ClusterNodeStorage) × (start ⦃disk = cluster_node_storage codec⦄ config clients
            (write_buffers codec true true s')
            servers
            heard
            votes
          ≡ ok w)
        × (w.node.log_entries ≡ first_entry ∷ stored codec xs)
        × (w.node.commit_index ≡ s'.metadata_buffer)
        × (w.node.message_queue ≡ apply_all (stored codec xs) empty)
  unfolding started
  start-load xs s s' config clients servers heard votes no_file no_buffer opens storable e int =
      let d = write_buffers codec true true s' in
      (
        started config clients d servers heard votes (first_entry ∷ stored codec xs)
            s'.metadata_buffer,
        start_over config clients d servers heard votes (first_entry ∷ stored codec xs) (pos 0)
            s'.metadata_buffer
            (load-steps codec xs s s' (first_entry ∷ []) no_file no_buffer opens storable e)
            (unfold write_buffers in
              (load-save_metadata s'.metadata_buffer (pos 0) s'.metadata_file int)),
        refl,
        refl,
        replay_all (stored codec xs),
      )
