-- ===== src/MessageQueue/History.antt =====
-- Whole histories of the queue of src/flowmq/message_queue.cpp, as src/flowmq/cluster_node.cpp
-- makes them: it delivers only what it has just read from the undelivered messages.
use flowmq.Base.{
  ℤ, Bytes, List, [], ◌∷◌, ◌++◌, Option, none, some, Bool, true, false, ◌≡◌, refl, arith, ap, ◌∙◌,
  fun_ext, if◌then◌else◌, eq_iff, Bool-cases, inl, inr,
}
use flowmq.Containers.OrdSet.{contains, IsAscending}
use flowmq.Containers.OrdMap.{lookup}
use flowmq.MessageQueue.{
  MessageQueue, empty, get_all_undelivered_messages, insert_message, commit_message,
  deliver_message_to_client_id, handle_client_disconnected,
}
use flowmq.MessageQueue.Spec.{
  View, committed, delivered, undelivered, view, inserted, moved, disconnected, persisted, Status,
  back_from, is_undelivered,
}
use flowmq.MessageQueue.Invariant.{
  IsValid, empty-IsValid, insert_message-IsValid, commit_message-IsValid, deliver-IsValid,
  disconnected-IsValid,
}
use flowmq.MessageQueue.Refinement.{
  view-insert_message, view-commit_message, view-deliver, view-disconnected,
}

pub data Call : Type 0 where
  inserts : ℤ → Bytes → Call
  commits : ℤ → Call
  delivers : ℤ → ℤ → Call
  disconnects : ℤ → Call

unfoldable pub step : Call → MessageQueue → MessageQueue
step (inserts k message) q = (insert_message k message q).1
step (commits k) q = (commit_message k q).1
step (delivers k client) q = (deliver_message_to_client_id k client q).1
step (disconnects client) q = (handle_client_disconnected client q).1

abbrev pub Allowed : Call → MessageQueue → Type 0
Allowed (delivers k client) q = contains q.undelivered_messages k ≡ true
Allowed _ q = Unit {0}

abbrev pub step_view : Call → View → View
step_view (inserts k message) = inserted k message
step_view (commits k) = moved committed k
step_view (delivers k client) = moved (delivered client) k
step_view (disconnects client) = disconnected client

-- Every allowed call keeps the containers in agreement, and does to the abstract queue what the
-- specification of the call says.
pub step_lem :
    (c : Call) (q : MessageQueue)
    → IsValid q
    → Allowed c q
    → IsValid (step c q) × ((m : ℤ) → view (step c q) m ≡ step_view c (view q) m)
unfolding step
step_lem (inserts k message) q v a =
    (insert_message-IsValid v k message, view-insert_message v k message)
step_lem (commits k) q v a = (commit_message-IsValid v k, view-commit_message v k)
step_lem (delivers k client) q v a =
    (deliver-IsValid v k client a, λ m. view-deliver v k client m a)
step_lem (disconnects client) q v a = (disconnected-IsValid v client, view-disconnected v client)

unfoldable pub run : List Call → MessageQueue → MessageQueue
run [] q = q
run (c ∷ cs) q = run cs (step c q)

abbrev pub run_view : List Call → View → View
run_view [] v = v
run_view (c ∷ cs) v = run_view cs (step_view c v)

abbrev pub AllAllowed : List Call → MessageQueue → Type 0
AllAllowed [] q = Unit {0}
AllAllowed (c ∷ cs) q = Allowed c q × AllAllowed cs (step c q)

-- From a valid state an allowed history leads to a valid state, and its abstract view is the run of
-- the specification.
pub run_lem :
    (cs : List Call) (q : MessageQueue)
    → IsValid q
    → AllAllowed cs q
    → IsValid (run cs q) × (view (run cs q) ≡ run_view cs (view q))
unfolding run
run_lem [] q v a = (v, refl)
run_lem (c ∷ cs) q v (a, as') =
    let (w, e) = step_lem c q v a in
    let (u, f) = run_lem cs (step c q) w as' in (u, f ∙ ap (run_view cs) (fun_ext e))

-- A valid queue has the messages waiting that its abstract view has as undelivered.
undelivered_view :
    {q : MessageQueue}
    → IsValid q
    → (m : ℤ) → contains q.undelivered_messages m ≡ is_undelivered (view q m)
undelivered_view v m = ground (arith, v.agrees m)

-- Before any call.
abbrev pub nothing : View
nothing m = none

empty-view : view empty ≡ nothing
unfolding lookup
empty-view = refl

-- After every allowed history of a new queue, get_all_undelivered_messages appends, in ascending
-- order, each id once, exactly the messages that the specification of the history has as undelivered.
pub run-get_all_undelivered_messages :
    (cs : List Call) (ids : List ℤ)
    → AllAllowed cs empty
    → (offered : List ℤ) × (get_all_undelivered_messages ids (run cs empty) ≡ ids ++ offered)
      × IsAscending offered
      × ((m : ℤ) → contains offered m ≡ is_undelivered (run_view cs nothing m))
unfolding get_all_undelivered_messages
run-get_all_undelivered_messages cs ids a =
    let (valid, agrees) = run_lem cs empty empty-IsValid a in
    let q = run cs empty in
    let spec : view q ≡ run_view cs nothing = agrees ∙ ap (run_view cs) empty-view in
    (
      q.undelivered_messages,
      refl,
      valid.ordered,
      λ m. undelivered_view valid m ∙ ap (λ v. is_undelivered (v m)) spec,
    )

-- The calls that come from log entries; the others only happen at a leader.
abbrev pub is_logged : Call → Bool
is_logged (inserts k message) = true
is_logged (commits k) = true
is_logged c = false

abbrev pub logged : List Call → List Call
logged [] = []
logged (c ∷ cs) = if is_logged c then c ∷ logged cs else logged cs

-- Two abstract queues that a crash would leave alike.
abbrev pub SamePersisted : View → View → Type 0
SamePersisted v w = (m : ℤ) → persisted (v m) ≡ persisted (w m)

persisted-back_from :
    (client : ℤ) (e : Option (Bytes × Status)) → persisted (back_from client e) ≡ persisted e
persisted-back_from client none = refl
persisted-back_from client (some (message, undelivered)) = refl
persisted-back_from client (some (message, committed)) = refl
persisted-back_from client (some (message, delivered d)) = ground arith

-- A call from the log keeps two queues alike, whatever each has delivered.
logged-SamePersisted :
    (c : Call) (v w : View)
    → is_logged c ≡ true
    → SamePersisted v w
    → SamePersisted (step_view c v) (step_view c w)
logged-SamePersisted (inserts k message) v w h s m = ground (arith, s m)
logged-SamePersisted (commits k) v w h s m = ground (arith, s m)
logged-SamePersisted (delivers k client) v w h s m = cc
logged-SamePersisted (disconnects client) v w h s m = cc

-- A delivery or a disconnection changes nothing that a crash would leave.
transient-SamePersisted :
    (c : Call) (q : MessageQueue)
    → is_logged c ≡ false
    → IsValid q
    → Allowed c q
    → SamePersisted (step_view c (view q)) (view q)
transient-SamePersisted (inserts k message) q h v a m = cc
transient-SamePersisted (commits k) q h v a m = cc
transient-SamePersisted (delivers k client) q h v a m = ground (arith, v.agrees k, eq_iff k m)
transient-SamePersisted (disconnects client) q h v a m = persisted-back_from client (view q m)

-- From a valid state, what a crash would leave of an allowed history (the texts, and which messages
-- are committed) is what its logged calls alone would have made of a state that agrees on that:
-- deliveries and disconnections, which a follower never sees, leave no trace.
pub persisted-run :
    (cs : List Call) (q : MessageQueue) (w : View)
    → IsValid q
    → AllAllowed cs q
    → SamePersisted (view q) w
    → SamePersisted (view (run cs q)) (run_view (logged cs) w)
unfolding run
persisted-run [] q w v a s = s
persisted-run (c ∷ cs) q w v (a, as') s = elim (Bool-cases (is_logged c)) [
  | inl e ↦ rw e (
      persisted-run cs (step c q) (step_view c w) after.0 as'
        (λ m. ap persisted (after.1 m) ∙ logged-SamePersisted c (view q) w e s m))
  | inr e ↦ rw e (
      persisted-run cs (step c q) w after.0 as'
        (λ m. ap persisted (after.1 m) ∙ transient-SamePersisted c q e v a m ∙ s m))
]
  where
    after : IsValid (step c q) × ((m : ℤ) → view (step c q) m ≡ step_view c (view q) m)
    after = step_lem c q v a
