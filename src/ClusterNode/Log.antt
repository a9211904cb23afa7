-- ===== src/ClusterNode/Log.antt =====
-- The log of a node: check_if_previous_log_in_sync, clean_log_entries_out_of_sync and
-- append_log_entries of src/flowmq/cluster_node.cpp and cluster_node.hpp. A log index is read at
-- an `int`; one outside the vector is undefined behaviour.
use flowmq.Base.{
  ℤ, pos, negsuc, ℕ, suc, List, [], ◌∷◌, ◌++◌, Option, none, some, Bool, false, Outcome, ok, ◌>>=◌,
  or_fault, length, get_elem?, take, increment, ltb_ℤ, ◌==ℤ◌, if◌then◌else◌,
}
use flowmq.Protocol.{LogEntry}

-- log_entries_[i]
abbrev pub entry_at : List LogEntry → ℤ → Option LogEntry
entry_at log (pos i) = get_elem? log i
entry_at log (negsuc i) = none

-- log_entries_.back()
abbrev pub back : List LogEntry → Option LogEntry
back [] = none
back (e ∷ []) = some e
back (e ∷ f ∷ rest) = back (f ∷ rest)

-- (int)log_entries_.size()
abbrev pub size : List LogEntry → ℤ
size log = pos (length log)

unfoldable pub check_if_previous_log_in_sync : ℤ → ℤ → List LogEntry → Outcome Bool
check_if_previous_log_in_sync prev_log_term prev_log_index log = do
  after ← increment prev_log_index
  if ltb_ℤ (size log) after
      then ok false
      else do entry ← or_fault (entry_at log prev_log_index); ok (entry.term ==ℤ prev_log_term)

unfoldable pub clean_log_entries_out_of_sync : ℕ → List LogEntry → List LogEntry
clean_log_entries_out_of_sync index_to_remove log = take index_to_remove log

-- One round of the loop of `append_log_entries`, at the index in the log.
unfoldable pub append_one : ℕ → LogEntry → List LogEntry → List LogEntry
append_one index new log = elim (get_elem? log index) [
  | none ↦ log ++ new ∷ []
  | some old ↦
      if old.term ==ℤ new.term then log else clean_log_entries_out_of_sync index log ++ new ∷ []
]

unfoldable pub append_from : ℕ → List LogEntry → List LogEntry → List LogEntry
append_from index [] log = log
append_from index (new ∷ rest) log = append_from (suc index) rest (append_one index new log)

-- The caller has read log_entries_[last_log_index], so the index is no negative number.
unfoldable pub append_log_entries : ℕ → List LogEntry → List LogEntry → List LogEntry
append_log_entries last_log_index new_entries log = append_from (suc last_log_index) new_entries log
