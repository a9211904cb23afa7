-- ===== src/ClusterNode/Frames.antt =====
-- What the helpers of src/flowmq/cluster_node.cpp leave alone.
use flowmq.Base.{
  ℤ, pos, List, [], ◌∷◌, ◌++◌, ◌==ℤ◌, ok, >>=-eq-ok, ◌≡◌, refl, sym, ◌∙◌, arith, if◌then◌else◌,
  append-nil, append_assoc, increment,
}
use flowmq.Protocol.{FlowMessage, MessageType, get_vote_response, get_vote_request, LogEntry}
use flowmq.Interfaces.{ClientManagerInterface, ClusterNodeStorageInterface}
use flowmq.ClusterNode.State.{World, Packet, at, broad_cast, write_message}
use flowmq.ClusterNode.Delivery.{trigger_message_delivery, consumer_disconnected}
use flowmq.ClusterNode.Commit.{
  commit_log_entries, commit_up_to, commit_from, commit_between, store_commit,
}
use flowmq.ClusterNode.Replicate.{send_entry, trigger_entry_update, update_all, add_log_entry}

-- A vote is cast by a granting answer, and by the node's own request for votes.
pub record Ballot : Type 0 where
  pub term : ℤ
  pub candidate_id : ℤ

abbrev granted_to : ℤ → MessageType → FlowMessage → List Ballot
granted_to dest MessageType.request_vote_response m =
    if (get_vote_response m).vote_result_term_granted ==ℤ pos 1
    then record { term = (get_vote_response m).term; candidate_id = dest } ∷ []
    else []
granted_to dest other m = []

abbrev asked_for : MessageType → FlowMessage → List Ballot
asked_for MessageType.request_vote_request m =
    record { term = (get_vote_request m).term; candidate_id = (get_vote_request m).candidate_id }
    ∷ []
asked_for other m = []

abbrev pub ballot_of : Packet → List Ballot
ballot_of (broad_cast m) = asked_for m.type m
ballot_of (write_message dest m) = granted_to dest m.type m

abbrev pub ballots : List Packet → List Ballot
ballots [] = []
ballots (p ∷ ps) = ballot_of p ++ ballots ps

pub ballots-append : (xs ys : List Packet) → ballots (xs ++ ys) ≡ ballots xs ++ ballots ys
ballots-append [] ys = refl
ballots-append (x ∷ xs) ys =
    rw (ballots-append xs ys) (sym (append_assoc (ballot_of x) (ballots xs) (ballots ys)))

pub no_ballot :
    (xs : List Packet) (p : Packet) → ballot_of p ≡ [] → ballots (xs ++ p ∷ []) ≡ ballots xs
no_ballot xs p e = ballots-append xs (p ∷ []) ∙ rw (e, append-nil)

module _ {C S : Type 0} where
  -- Only the bookkeeping of replication changes, and no vote is cast.
  pub record Sends (w w' : World C S) : Type 0 where
    pub node_same : w'.node ≡ record w.node {
      next_index = w'.node.next_index;
      pending_append_reqs = w'.node.pending_append_reqs;
    }
    pub clients_same : w'.clients ≡ w.clients
    pub storage_same : w'.storage ≡ w.storage
    pub ballots_same : ballots w'.outbox ≡ ballots w.outbox

  Sends-trans : {u v w : World C S} → Sends u v → Sends v w → Sends u w
  Sends-trans a b = record {
    node_same = ground (arith, a.node_same, b.node_same);
    clients_same = b.clients_same ∙ a.clients_same;
    storage_same = b.storage_same ∙ a.storage_same;
    ballots_same = b.ballots_same ∙ a.ballots_same;
  }

  send_entry-Sends :
      (follower_id index : ℤ) (w w' : World C S)
      → send_entry follower_id index w ≡ ok w'
      → Sends w w'
  unfolding send_entry
  send_entry-Sends follower_id index w w' e = record {
    node_same = ground arith;
    clients_same = ground arith;
    storage_same = ground arith;
    ballots_same = grind (arith, no_ballot);
  }

  pub trigger_entry_update-Sends :
      (follower_id : ℤ) (w w' : World C S) → trigger_entry_update follower_id w ≡ ok w' → Sends w w'
  unfolding trigger_entry_update
  trigger_entry_update-Sends follower_id w w' e =
      ground (arith, send_entry-Sends follower_id (at follower_id w.node.next_index).0 looked_up w')
    where
      looked_up : World C S
      looked_up = record w {
        node = record w.node { next_index = (at follower_id w.node.next_index).1 };
      }

  update_all-Sends :
      (endpoints : List (ℤ × ℤ)) (w w' : World C S) → update_all endpoints w ≡ ok w' → Sends w w'
  unfolding update_all
  update_all-Sends [] w w' e = ground arith
  update_all-Sends ((endpoint, next) ∷ rest) w w' e =
      let (v, first, then') = >>=-eq-ok (trigger_entry_update endpoint w) (update_all rest) e in
      Sends-trans (trigger_entry_update-Sends endpoint w v first) (update_all-Sends rest v w' then')

  pub add_log_entry-Sends :
      (entry : LogEntry) (w w' : World C S)
      → add_log_entry entry w ≡ ok w'
      → Sends
          (record w { node = record w.node { log_entries = w.node.log_entries ++ entry ∷ [] } })
          w'
  unfolding add_log_entry
  add_log_entry-Sends entry w w' e = update_all-Sends w.node.next_index _ w' e

module _ {C S : Type 0} ⦃clients : ClientManagerInterface C⦄ where
  -- Delivery changes the queue and the clients, and nothing else.
  pub trigger_message_delivery_frame :
      (w w' : World C S)
      → trigger_message_delivery w ≡ ok w'
      → w' ≡ record w {
        node = record w.node { message_queue = w'.node.message_queue };
        clients = w'.clients;
      }
  unfolding trigger_message_delivery
  trigger_message_delivery_frame w w' e = ground arith

  pub commit_log_entries_frame :
      (start stop : ℤ) (w w' : World C S)
      → commit_log_entries start stop w ≡ ok w'
      → w' ≡ record w {
        node = record w.node { message_queue = w'.node.message_queue };
        clients = w'.clients;
      }
  unfolding commit_log_entries
  commit_log_entries_frame start stop w w' e = trigger_message_delivery_frame _ w' e

  pub consumer_disconnected_frame :
      (client_id : ℤ) (w w' : World C S)
      → consumer_disconnected client_id w ≡ ok w'
      → w' ≡ record w {
        node = record w.node { message_queue = w'.node.message_queue };
        clients = w'.clients;
      }
  unfolding consumer_disconnected
  consumer_disconnected_frame client_id w w' e = trigger_message_delivery_frame _ w' e

module _ {C S : Type 0} ⦃clients : ClientManagerInterface C⦄
    ⦃disk : ClusterNodeStorageInterface S⦄ where
  -- What `commit_up_to` has done when it returns.
  pub commit_up_to_cases :
      (index last : ℤ) (w w' : World C S)
      → commit_up_to index last w ≡ ok w'
      → (start : ℤ) × (stop : ℤ) × (v : World C S) × (increment w.node.commit_index ≡ ok start)
        × (increment last ≡ ok stop)
        × (commit_log_entries start stop w ≡ ok v)
        × (store_commit index stop v ≡ ok w')
  unfolding commit_up_to commit_from commit_between
  commit_up_to_cases index last w w' e =
      let (start, a, rest) =
        >>=-eq-ok (increment w.node.commit_index) (commit_from index last w) e in
      let (stop, b, rest') =
        >>=-eq-ok (increment last) (λ stop. commit_between index start stop w) rest in
      let (v, c, d) = >>=-eq-ok (commit_log_entries start stop w) (store_commit index stop) rest' in
      (start, stop, v, a, b, c, d)

  pub commit_up_to_frame :
      (index last : ℤ) (w w' : World C S)
      → commit_up_to index last w ≡ ok w'
      → w' ≡ record w {
        node = record w.node { message_queue = w'.node.message_queue; commit_index = index };
        clients = w'.clients;
        storage = w'.storage;
      }
  unfolding store_commit
  commit_up_to_frame index last w w' e =
      let (start, stop, v, a, b, c, d) = commit_up_to_cases index last w w' e in
      ground (arith, d, commit_log_entries_frame start stop w v c)
