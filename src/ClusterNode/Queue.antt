-- ===== src/ClusterNode/Queue.antt =====
-- The queue of a node over the events of src/flowmq/cluster_node.cpp.
use flowmq.Base.{
  ℤ, pos, minus_one, ℕ, zero, suc, List, [], ◌∷◌, true, Outcome, ok, >>=-eq-ok, ok-injective, ◌≡◌,
  refl, sym, subst, arith, All, ◌==ℤ◌, if◌then◌else◌, Bool-cases, inl, inr, ltb_ℤ, Option-cases,
  ◌+ℤ◌, All-map, lt_ne, eq_refl, ◌⊎◌, ◌&&◌,
}
use flowmq.Containers.OrdSet.{OrdSet, weaken-Above, contains, contains-erase, Above, IsAscending}
use flowmq.MessageQueue.{
  MessageQueue, empty, get_message, get_all_undelivered_messages, deliver_message_to_client_id,
}
use flowmq.MessageQueue.Invariant.{
  IsValid, insert_message-IsValid, commit_message-IsValid, deliver-IsValid, disconnected-IsValid,
}
use flowmq.Protocol.{LogEntry, add_operation, commit_operation}
use flowmq.Interfaces.{ClientManagerInterface}
use flowmq.ClusterNode.State.{World}
use flowmq.ClusterNode.Delivery.{
  is_leader, send_one, deliver_all, trigger_message_delivery, consumer_disconnected,
}
use flowmq.ClusterNode.Log.{entry_at}
use flowmq.ClusterNode.Commit.{apply_entry, commit_log_entry, commit_range, commit_log_entries}

-- Every id waits for delivery.
abbrev AllWait : OrdSet → MessageQueue → Type 0
AllWait ids q = All (λ k. contains q.undelivered_messages k ≡ true) ids

all_contained : (s : OrdSet) → AllWait s (record empty { undelivered_messages = s })
unfolding contains
all_contained [] = tt
all_contained (x ∷ xs) = (
  rw (eq_refl x) refl,
  All-map _ (λ k. contains (x ∷ xs) k ≡ true) xs (λ k h. ground arith) (all_contained xs),
)

-- Delivering one message leaves the later ones waiting.
deliver-AllWait :
    (k client : ℤ) (ids : OrdSet) (q : MessageQueue)
    → Above k ids
    → AllWait ids q
    → AllWait ids (deliver_message_to_client_id k client q).1
unfolding deliver_message_to_client_id
deliver-AllWait k client [] q a h = tt
deliver-AllWait k client (x ∷ xs) q a h = (
  rw (contains-erase q.undelivered_messages k x, lt_ne k x a.0) h.0,
  deliver-AllWait k client xs q (weaken-Above xs k x a.0 a.1) h.1,
)

get_message_waiting :
    (k : ℤ) (q : MessageQueue)
    → IsValid q
    → contains q.undelivered_messages k ≡ true
    → (get_message k q).1 ≡ q
unfolding get_message
get_message_waiting k q v h = ground (arith, v.agrees k)

Above-IsAscending : (x : ℤ) (ids : OrdSet) → Above x ids → IsAscending ids
Above-IsAscending x [] a = tt
Above-IsAscending x (y ∷ ys) a = a.1

module _ {C : Type 0} ⦃clients : ClientManagerInterface C⦄ where
  send_one_queue :
      (partition_id k : ℤ) (q : MessageQueue) (c : C) (r : ℤ × MessageQueue × C)
      → IsValid q
      → contains q.undelivered_messages k ≡ true
      → send_one partition_id k (q, c) ≡ ok r
      → r.1 ≡ q
  unfolding send_one
  send_one_queue partition_id k q c r v h e = ground (arith, get_message_waiting k q v h)

  -- One round of the loop, given what the later rounds do.
  deliver_round :
      (partition_id k : ℤ) (rest : List ℤ) (q : MessageQueue) (c : C) (r : MessageQueue × C)
      → IsValid q
      → Above k rest
      → AllWait (k ∷ rest) q
      → ((q' : MessageQueue) (c' : C)
          → IsValid q'
          → AllWait rest q'
          → deliver_all partition_id rest (q', c') ≡ ok r
          → IsValid r.0)
      → deliver_all partition_id (k ∷ rest) (q, c) ≡ ok r
      → IsValid r.0
  unfolding deliver_all
  deliver_round partition_id k rest q c r v a (w, ws) later e =
      elim (Bool-cases (sent.0 ==ℤ minus_one)) [
        | inl stop ↦ subst IsValid (ground (arith, same, step.2)) v
        | inr go ↦
            later (given sent.0 q) sent.2 (deliver-IsValid v k sent.0 w)
              (deliver-AllWait k sent.0 rest q a ws) (rw (sym same) (ground (arith, step.2)))
      ]
    where
      given : ℤ → MessageQueue → MessageQueue
      given client p = (deliver_message_to_client_id k client p).1

      next : ℤ × MessageQueue × C → Outcome (MessageQueue × C)
      next s =
          if s.0 ==ℤ minus_one
          then ok (s.1, s.2)
          else deliver_all partition_id rest (given s.0 s.1, s.2)

      step : (s : ℤ × MessageQueue × C) × (send_one partition_id k (q, c) ≡ ok s) × (next s ≡ ok r)
      step = >>=-eq-ok (send_one partition_id k (q, c)) next e

      sent : ℤ × MessageQueue × C
      sent = step.0

      same : sent.1 ≡ q
      same = send_one_queue partition_id k q c sent v w step.1

  deliver_all-IsValid :
      (partition_id : ℤ) (ids : OrdSet) (q : MessageQueue) (c : C) (r : MessageQueue × C)
      → IsValid q
      → IsAscending ids
      → AllWait ids q
      → deliver_all partition_id ids (q, c) ≡ ok r
      → IsValid r.0
  deliver_all-IsValid partition_id [] q c r v a w e =
      unfold deliver_all in subst (λ (s : MessageQueue × C). IsValid s.0) (ok-injective e) v
  deliver_all-IsValid partition_id (k ∷ rest) q c r v a w e =
      deliver_round partition_id k rest q c r v a w
        (λ q' c' v' w' e'.
          deliver_all-IsValid partition_id rest q' c' r v' (Above-IsAscending k rest a) w' e')
        e

module _ {C S : Type 0} ⦃clients : ClientManagerInterface C⦄ where
  -- Either the queue is left alone, or the loop over the undelivered messages has run.
  trigger_cases :
      (w w' : World C S)
      → trigger_message_delivery w ≡ ok w'
      → (w'.node.message_queue ≡ w.node.message_queue)
        ⊎ ((r : MessageQueue × C) × (deliver_all w.node.partition_id
                w.node.message_queue.undelivered_messages
                (w.node.message_queue, w.clients)
              ≡ ok r)
            × (w'.node.message_queue ≡ r.0))
  unfolding trigger_message_delivery get_all_undelivered_messages
  trigger_cases w w' e =
      elim (Bool-cases (is_leader w.node.state && clients.has_consumers w.clients)) [
        | inl b ↦
            let (r, first, rest) =
              >>=-eq-ok
                (deliver_all w.node.partition_id w.node.message_queue.undelivered_messages
                  (w.node.message_queue, w.clients))
                (finish w) {r = w'} (ground (arith, e, b)) in
            inr (r, first, ground (arith, rest))
        | inr b ↦ inl (ground (arith, e, b))
      ]
    where
      finish : World C S → MessageQueue × C → Outcome (World C S)
      finish v (q, c) = ok (record v { node = record v.node { message_queue = q }; clients = c })

  pub trigger_message_delivery-IsValid :
      (w w' : World C S)
      → IsValid w.node.message_queue
      → trigger_message_delivery w ≡ ok w'
      → IsValid w'.node.message_queue
  trigger_message_delivery-IsValid w w' v e = elim (trigger_cases w w' e) [
    | inl same ↦ subst IsValid (sym same) v
    | inr (r, run, same) ↦ subst IsValid (sym same) (
        deliver_all-IsValid w.node.partition_id w.node.message_queue.undelivered_messages
          w.node.message_queue w.clients r v v.ordered
          (all_contained w.node.message_queue.undelivered_messages) run)
  ]

  pub consumer_disconnected-IsValid :
      (client_id : ℤ) (w w' : World C S)
      → IsValid w.node.message_queue
      → consumer_disconnected client_id w ≡ ok w'
      → IsValid w'.node.message_queue
  unfolding consumer_disconnected
  consumer_disconnected-IsValid client_id w w' v e =
      trigger_message_delivery-IsValid _ w' (disconnected-IsValid v client_id) e

apply_entry-IsValid : (e : LogEntry) (q : MessageQueue) → IsValid q → IsValid (apply_entry e q)
unfolding apply_entry
apply_entry-IsValid e q v = elim (Bool-cases (e.operation ==ℤ add_operation)) [
  | inl a ↦ rw a (insert_message-IsValid v e.message_id e.message)
  | inr b ↦ elim (Bool-cases (e.operation ==ℤ commit_operation)) [
    | inl c ↦ rw (b, c) (commit_message-IsValid v e.message_id)
    | inr d ↦ rw (b, d) v
  ]
]

commit_log_entry-IsValid :
    (log : List LogEntry) (i : ℤ) (q : MessageQueue)
    → IsValid q
    → IsValid (commit_log_entry log i q)
unfolding commit_log_entry
commit_log_entry-IsValid log i q v = elim (Bool-cases (ltb_ℤ (pos 0) i)) [
  | inl h ↦ elim (Option-cases (entry_at log i)) [
    | inl e ↦ rw h (rw e v)
    | inr (x, e) ↦ rw h (rw e (apply_entry-IsValid x q v))
  ]
  | inr h ↦ rw h v
]

pub commit_range-IsValid :
    (n : ℕ) (log : List LogEntry) (i : ℤ) (q : MessageQueue)
    → IsValid q
    → IsValid (commit_range n log i q)
unfolding commit_range
commit_range-IsValid zero log i q v = v
commit_range-IsValid (suc n) log i q v =
    commit_range-IsValid n log (i +ℤ pos 1) (commit_log_entry log i q)
      (commit_log_entry-IsValid log i q v)

module _ {C S : Type 0} ⦃clients : ClientManagerInterface C⦄ where
  pub commit_log_entries-IsValid :
      (start stop : ℤ) (w w' : World C S)
      → IsValid w.node.message_queue
      → commit_log_entries start stop w ≡ ok w'
      → IsValid w'.node.message_queue
  unfolding commit_log_entries
  commit_log_entries-IsValid start stop w w' v e =
      trigger_message_delivery-IsValid _ w' (commit_range-IsValid _ w.node.log_entries start _ v) e
