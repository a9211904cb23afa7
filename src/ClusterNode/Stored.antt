-- ===== src/ClusterNode/Stored.antt =====
-- Which entries a commit of src/flowmq/cluster_node.cpp hands to src/flowmq/cluster_node_storage.cpp.
use flowmq.Base.{ℤ, pos, ℕ, suc, ◌++◌, ok, ◌≡◌, ◌∙◌, ap, arith, increment, increment_lem, pos-+ℤ}
use flowmq.Interfaces.{ClientManagerInterface}
use flowmq.ClusterNode.State.{World}
use flowmq.ClusterNode.Commit.{commit_up_to, store_commit}
use flowmq.ClusterNode.Frames.{commit_up_to_cases, commit_log_entries_frame}
use flowmq.Storage.Files.{LogEntryCodec}
use flowmq.Storage.Buffer.{
  ClusterNodeStorage, cluster_node_storage, store_log_entries_and_metadata, slice,
}

next_pos : (n : ℕ) (i : ℤ) → increment (pos n) ≡ ok i → i ≡ pos (suc n)
next_pos n i e = (increment_lem (pos n) e).0 ∙ pos-+ℤ n 1 ∙ ap pos (omega arith)

module _ {C : Type 0} ⦃clients : ClientManagerInterface C⦄ (codec : LogEntryCodec) where
  store_commit_one :
      (n : ℕ) (stop : ℤ) (v w' : World C ClusterNodeStorage)
      → stop ≡ pos (suc n)
      → store_commit ⦃disk = cluster_node_storage codec⦄ (pos n) stop v ≡ ok w'
      → w'.storage.log_entry_buffers
        ≡ v.storage.log_entry_buffers ++ slice n (suc n) v.node.log_entries
  unfolding store_commit store_log_entries_and_metadata
  store_commit_one n stop v w' h e = ground arith

  -- However far behind the commit index is, a commit up to the entry n that returns adds the entry n
  -- alone to the entries that the storage is to write: those between the old commit index and n are
  -- not stored.
  pub buffered-commit_up_to :
      (n : ℕ) (w w' : World C ClusterNodeStorage)
      → commit_up_to ⦃disk = cluster_node_storage codec⦄ (pos n) (pos n) w ≡ ok w'
      → w'.storage.log_entry_buffers
        ≡ w.storage.log_entry_buffers ++ slice n (suc n) w.node.log_entries
  buffered-commit_up_to n w w' e =
      let (start, stop, v, a, b, c, d) =
        commit_up_to_cases ⦃disk = cluster_node_storage codec⦄ (pos n) (pos n) w w' e in
      let same = commit_log_entries_frame start stop w v c in
      store_commit_one n stop v w' (next_pos n stop b) d
      ∙ ap
          (λ (u : World C ClusterNodeStorage).
            u.storage.log_entry_buffers ++ slice n (suc n) u.node.log_entries)
          same
