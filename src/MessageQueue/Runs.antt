-- ===== src/MessageQueue/Runs.antt =====
-- Runs of src/flowmq/message_queue.cpp, and its theorems at concrete inputs.
use flowmq.Base.{ℤ, pos, ◌++◌, List, [], ◌∷◌, ◌≡◌, refl}
use flowmq.Containers.OrdSet.{contains, IsAscending}
use flowmq.MessageQueue.{empty, get_all_undelivered_messages, methods}
use flowmq.MessageQueue.Spec.{view}
use flowmq.MessageQueue.Invariant.{empty-IsValid}
use flowmq.MessageQueue.Spec.{is_undelivered}
use flowmq.MessageQueue.History.{
  Call, inserts, commits, delivers, disconnects, run, run_view, run_lem,
  run-get_all_undelivered_messages, nothing, logged, persisted-run, SamePersisted, AllAllowed, step,
}

abbrev history : List Call
history =
    inserts (pos 7) (104 ∷ [])
    ∷ inserts (pos 5) (105 ∷ [])
    ∷ delivers (pos 7) (pos 1)
    ∷ commits (pos 5)
    ∷ disconnects (pos 1)
    ∷ []

history_offers : get_all_undelivered_messages [] (run history empty) ≡ pos 7 ∷ []
unfolding methods run step
history_offers = refl

history_allowed : AllAllowed history empty
unfolding methods step
history_allowed = (tt, (tt, (refl, (tt, (tt, tt)))))

run_lem_example : view (run history empty) ≡ run_view history (view empty)
run_lem_example = (run_lem history empty empty-IsValid history_allowed).1

persisted-run_example :
    SamePersisted (view (run history empty)) (run_view (logged history) (view empty))
persisted-run_example =
    persisted-run history empty (view empty) empty-IsValid history_allowed (λ m. refl)

run-get_all_undelivered_messages_example :
    (offered : List ℤ) × (get_all_undelivered_messages (pos 3 ∷ []) (run history empty)
      ≡ (pos 3 ∷ []) ++ offered)
    × IsAscending offered
    × ((m : ℤ) → contains offered m ≡ is_undelivered (run_view history nothing m))
run-get_all_undelivered_messages_example =
    run-get_all_undelivered_messages history (pos 3 ∷ []) history_allowed
