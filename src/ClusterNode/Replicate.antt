-- ===== src/ClusterNode/Replicate.antt =====
-- add_log_entry and trigger_entry_update of src/flowmq/cluster_node.cpp.
use flowmq.Base.{
  ℤ, pos, List, [], ◌∷◌, ◌++◌, ◌&&◌, Outcome, ok, ◌>>=◌, or_fault, increment, ltb_ℤ, ◌-ℤ◌,
  if◌then◌else◌,
}
use flowmq.Protocol.{LogEntry, raft_message, load_append_entries_request}
use flowmq.Containers.OrdMap
use flowmq.Containers.OrdMap.{OrdMap}
use flowmq.ClusterNode.State.{World, write_message, serialize_raft_message, at}
use flowmq.ClusterNode.Log.{entry_at, size}

abbrev pub max_pending_append : ℤ
max_pending_append = pos 2

module _ {C S : Type 0} where
  -- The request with the one entry at `index_to_send`, sent unless too many are pending.
  unfoldable pub send_entry : ℤ → ℤ → World C S → Outcome (World C S)
  send_entry follower_id index_to_send w = do
    let n = w.node
    let prev_index = index_to_send -ℤ pos 1
    prev ← or_fault (entry_at n.log_entries prev_index)
    new_elem ← or_fault (entry_at n.log_entries index_to_send)
    let req =
        load_append_entries_request
          (record {
            term = n.cur_term;
            leader_id = n.node_id;
            prev_log_index = prev_index;
            prev_log_term = prev.term;
            entries = new_elem ∷ [];
            leader_commit = n.commit_index;
          })
          raft_message
    let (count, pending) = at follower_id n.pending_append_reqs
    if ltb_ℤ count max_pending_append
        then (do
          count' ← increment count
          ok (record w {
            node = record n { pending_append_reqs = OrdMap.assign follower_id count' pending };
            outbox = w.outbox ++ write_message follower_id (serialize_raft_message n req) ∷ [];
          }))
        else ok (record w { node = record n { pending_append_reqs = pending } })

  unfoldable pub trigger_entry_update : ℤ → World C S → Outcome (World C S)
  trigger_entry_update follower_id w =
      let (index_to_send, next_index) = at follower_id w.node.next_index in
      let w' = record w { node = record w.node { next_index = next_index } } in
      if ltb_ℤ (pos 0) index_to_send && ltb_ℤ index_to_send (size w.node.log_entries)
      then send_entry follower_id index_to_send w'
      else ok w'

  -- The loop of `add_log_entry` over the endpoints.
  unfoldable pub update_all : List (ℤ × ℤ) → World C S → Outcome (World C S)
  update_all [] w = ok w
  update_all ((endpoint, _) ∷ rest) w = do w' ← trigger_entry_update endpoint w; update_all rest w'

  unfoldable pub add_log_entry : LogEntry → World C S → Outcome (World C S)
  add_log_entry entry w =
      update_all w.node.next_index
        (record w { node = record w.node { log_entries = w.node.log_entries ++ entry ∷ [] } })
