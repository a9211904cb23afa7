-- ===== src/ClientManager/Safety.antt =====
-- When a delivery of src/flowmq/client_manager.cpp cannot reach a null pointer.
use flowmq.Base.{
  ℤ, pos, minus_one, ℕ, ◌<◌, ◌-◌, ◌^◌, List, [], ◌∷◌, some, ok, ◌≡◌, refl, subst, Option-cases, inl,
  inr, arith,
}
use flowmq.Containers.OrdMap.{lookup, find_or}
use flowmq.Protocol.{FlowMessage}
use flowmq.ClientManager.{ClientManager, deliver_one_message_round_robin}
use flowmq.ClientManager.Sessions.{Action, act, IsPolite, IsLinked, act-IsLinked, consumers, Linked}
use flowmq.ClientManager.RoundRobin.{deliver_one-Served}

-- One action after the other.
unfoldable pub act_all : List Action → ClientManager → ClientManager
act_all [] m = m
act_all (a ∷ rest) m = act_all rest (act a m)

abbrev pub AllPolite : List Action → ClientManager → Type 0
AllPolite [] m = Unit {0}
AllPolite (a ∷ rest) m = IsPolite a m × AllPolite rest (act a m)

act_all-IsLinked :
    (acts : List Action) (m : ClientManager)
    → AllPolite acts m
    → IsLinked m
    → IsLinked (act_all acts m)
unfolding act_all
act_all-IsLinked [] m p h = h
act_all-IsLinked (a ∷ rest) m (p, ps) h = act_all-IsLinked rest (act a m) ps (act-IsLinked a m p h)

consumers_listed :
    (p : ℤ) (m : ClientManager) (ids : List ℤ)
    → lookup m.consumer_client_id_array p ≡ some ids
    → consumers m p ≡ ids
consumers_listed p m ids h = ground arith

linked_delivers :
    (p : ℤ) (msg : FlowMessage) (c : ℕ) (m : ClientManager)
    → IsLinked m
    → find_or m.deliver_count p (pos 0) ≡ pos c
    → c < 2 ^ 31 - 1
    → (r : ℤ × ClientManager) × (deliver_one_message_round_robin p msg m ≡ ok r)
unfolding deliver_one_message_round_robin
linked_delivers p msg c m h turn small = elim (Option-cases (lookup m.consumer_client_id_array p)) [
  | inl e ↦ ((pos 1, m), rw (e, deliver_one_message_round_robin) refl)
  | inr ([], e) ↦ ((minus_one, m), rw (e, deliver_one_message_round_robin) refl)
  | inr (id ∷ ids, e) ↦
      let linked = subst (Linked m.client_sessions) (consumers_listed p m (id ∷ ids) e) (h p) in
      let (next, _, d) = deliver_one-Served p msg id ids c m e linked.0 turn small in (_, d)
]

-- From a state in which each consumer has a session and is listed once, clients connect, open
-- queues and leave, each opening a queue only while connected and not yet a consumer of it: then a
-- delivery to any partition returns, and no null pointer is reached, while the number of deliveries
-- to that partition is below INT_MAX.
pub polite_delivers :
    (acts : List Action) (m : ClientManager) (p : ℤ) (msg : FlowMessage) (c : ℕ)
    → AllPolite acts m
    → IsLinked m
    → find_or (act_all acts m).deliver_count p (pos 0) ≡ pos c
    → c < 2 ^ 31 - 1
    → (r : ℤ × ClientManager) × (deliver_one_message_round_robin p msg (act_all acts m) ≡ ok r)
polite_delivers acts m p msg c polite h turn small =
    linked_delivers p msg c (act_all acts m) (act_all-IsLinked acts m polite h) turn small
