-- ===== src/ClientManager/Runs.antt =====
-- Runs of src/flowmq/client_manager.cpp, and its theorems at concrete inputs.
use flowmq.Base.{
  ℤ, pos, List, [], ◌∷◌, ◌++◌, none, some, true, false, Outcome, ok, fault, ◌≡◌, refl, arith, ◌+ℤ◌,
}
use flowmq.Containers.OrdSet.{contains}
use flowmq.Containers.OrdMap.{find_or, lookup}
use flowmq.Protocol.{FlowMessage, raft_message}
use flowmq.MessageQueue.{empty, insert_message}
use flowmq.ClusterNode.State.{World, leader}
use flowmq.ClusterNode.Delivery.{trigger_message_delivery}
use flowmq.ClusterNode.Start.{started, first_entry}
use flowmq.ClusterNode.Runs.{NoFiles, three_nodes}
use flowmq.ClientManager.{
  ClientManager, no_clients, accept, open_queue, disconnect, deliver_one_message_round_robin,
  has_consumers, client_manager, methods,
}
use flowmq.ClientManager.RoundRobin.{deliver_many, deliver_many-Turns, Turns, paired, AllConnected}
use flowmq.ClientManager.Sessions.{act, Action, connects, opens, leaves, IsLinked, reopened_faults}
use flowmq.ClientManager.Safety.{act_all, AllPolite, polite_delivers}
use flowmq.ClientManager.Lost.{unopened_loses}

-- Two consumers of partition 4.
abbrev two : ClientManager
two =
    open_queue (pos 4) (pos 11)
      (open_queue (pos 4) (pos 10) (accept (pos 11) (accept (pos 10) no_clients)))

abbrev three_messages : List FlowMessage
three_messages = raft_message ∷ raft_message ∷ raft_message ∷ []

abbrev served : Outcome (List ℤ × ClientManager) → List ℤ
served (ok r) = r.0
served fault = []

two-served : served (deliver_many (pos 4) three_messages two) ≡ pos 10 ∷ pos 11 ∷ pos 10 ∷ []
unfolding deliver_many methods ◌+ℤ◌
two-served = refl

two_listed : lookup two.consumer_client_id_array (pos 4) ≡ some (pos 10 ∷ pos 11 ∷ [])
unfolding methods
two_listed = refl

two_connected : AllConnected (pos 10 ∷ pos 11 ∷ []) two
unfolding methods
two_connected = (refl, (refl, tt))

two_turn : find_or two.deliver_count (pos 4) (pos 0) ≡ pos 0
unfolding methods
two_turn = refl

deliver_many-Turns_example :
    (got : List ℤ) × (m' : ClientManager) × (deliver_many (pos 4) three_messages two ≡ ok (got, m'))
    × Turns (pos 10 ∷ pos 11 ∷ []) 0 3 got
    × (m'.written ≡ two.written ++ paired got three_messages)
deliver_many-Turns_example =
    deliver_many-Turns (pos 4) three_messages (pos 10) (pos 11 ∷ []) 0 two two_listed two_connected
      two_turn (omega arith)

no_clients-IsLinked : IsLinked no_clients
unfolding lookup
no_clients-IsLinked p = (tt, tt)

abbrev visit : List Action
visit = connects (pos 10) ∷ opens (pos 4) (pos 10) ∷ leaves (pos 10) ∷ connects (pos 11) ∷ []

visit_polite : AllPolite visit no_clients
unfolding act methods
visit_polite = (tt, ((refl, tt), (tt, (tt, tt))))

visit_turn : find_or (act_all visit no_clients).deliver_count (pos 4) (pos 0) ≡ pos 0
unfolding act act_all methods
visit_turn = refl

polite_delivers_example :
    (r : ℤ × ClientManager) × (deliver_one_message_round_robin
        (pos 4)
        raft_message
        (act_all visit no_clients)
      ≡ ok r)
polite_delivers_example =
    polite_delivers visit no_clients (pos 4) raft_message 0 visit_polite no_clients-IsLinked
      visit_turn (omega arith)

nothing_open : find_or (accept (pos 10) no_clients).consumer_client_id_array (pos 4) [] ≡ []
unfolding methods
nothing_open = refl

reopened_faults_example :
    deliver_one_message_round_robin (pos 4) raft_message (
      disconnect
        (pos 10)
        (open_queue (pos 4) (pos 10) (open_queue (pos 4) (pos 10) (accept (pos 10) no_clients))))
    ≡ fault
reopened_faults_example =
    reopened_faults (pos 4) (pos 10) raft_message (accept (pos 10) no_clients) nothing_open

-- A leader of partition 9 with one message, whose clients consume partition 4.
abbrev elsewhere : World ClientManager NoFiles
elsewhere =
    let w : World ClientManager NoFiles =
      started three_nodes two tt [] (pos 0) (pos 0) (first_entry ∷ []) (pos 0) in
    record w {
      node = record w.node { state = leader; message_queue = (insert_message (pos 7) [] empty).1 };
    }

elsewhere_leads : elsewhere.node.state ≡ leader
unfolding started
elsewhere_leads = refl

elsewhere_busy : has_consumers elsewhere.clients ≡ true
unfolding started methods
elsewhere_busy = refl

elsewhere_unopened :
    lookup elsewhere.clients.consumer_client_id_array elsewhere.node.partition_id ≡ none
unfolding started methods
elsewhere_unopened = refl

unopened_loses_example :
    (w' : World ClientManager NoFiles) × (trigger_message_delivery elsewhere ≡ ok w')
    × (w'.clients ≡ elsewhere.clients)
    × ((k : ℤ) → contains w'.node.message_queue.undelivered_messages k ≡ false)
unopened_loses_example = unopened_loses elsewhere elsewhere_leads elsewhere_busy elsewhere_unopened
