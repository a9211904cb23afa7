-- ===== src/ClusterManager/Runs.antt =====
-- Runs of a manager of src/flowmq/cluster_manager.cpp with two endpoints, and its theorems there. A
-- number stands for what the resolver found.
use flowmq.Base.{
  count_if, ℤ, pos, ℕ, ◌≤◌, List, [], ◌∷◌, ◌++◌, some, true, false, ok, ◌≡◌, refl, arith, eq_iff,
  ◌==ℤ◌, get_elem?, replicate,
}
use flowmq.Containers.OrdMap
use flowmq.Message.{new_message, wire}
use flowmq.Session
use flowmq.Session.{Session, start_read, new_session}
use flowmq.ClusterManager.{
  ClusterManager, Role, Connection, fails_to_read, Event, connects, session_event, run, start,
  new_manager, is_up, handle, connect, connect_done, connect_all, all_endpoints, on_session,
  session_goes_on, take_first, run_posted, broad_casts,
}
use flowmq.ClusterManager.Reconnect.{held, named, LeadsUp, one_held, reconnects}
use flowmq.ClusterManager.Broadcast.{broad_casts-Wrote}

abbrev two_endpoints : List (ℤ × ℕ)
two_endpoints = (pos 1, 11) ∷ (pos 2, 12) ∷ []

abbrev down_again : List Event
down_again = connects true (pos 1) ∷ session_event 0 fails_to_read ∷ connects false (pos 2) ∷ []

abbrev lost : Session
lost = record new_session { status = Session.Status.disconnected; disconnects = 1 }

abbrev to_first : Connection
to_first = record { role = Role.outgoing (pos 1); session = lost }

abbrev both_down : ClusterManager ℕ
both_down = record {
  endpoints = two_endpoints;
  endpoint_id_map = two_endpoints;
  sessions = to_first ∷ [];
  outgoing_sessions = (pos 1, 0) ∷ [];
  incoming_sessions = [];
  incoming_sessions_count = pos 0;
  connecting = [];
  timers = pos 1 ∷ pos 2 ∷ [];
  accepting = true;
  posted = [];
  handled = [];
}

down_again-run : run 0 down_again (start 0 (new_manager two_endpoints)) ≡ ok both_down
unfolding run start handle connect connect_done connect_all all_endpoints on_session session_goes_on
    take_first OrdMap.assign OrdMap.lookup ◌==ℤ◌ Session.handle Session.disconneted
down_again-run = refl

two_distinct : (id : ℤ) → named id two_endpoints ≤ 1
unfolding count_if
two_distinct id = ground (arith, eq_iff (pos 1) id, eq_iff (pos 2) id)

second_named : named (pos 2) two_endpoints ≡ 1
unfolding count_if ◌==ℤ◌
second_named = refl

one_held_example : held (pos 1) both_down ≡ named (pos 1) two_endpoints
one_held_example = one_held 0 two_endpoints down_again both_down two_distinct down_again-run (pos 1)

reconnects_example :
    (next : List Event) × LeadsUp (pos 2) next
    × (m : ClusterManager ℕ) × (run 0 next both_down ≡ ok m)
    × (is_up (pos 2) m ≡ true)
reconnects_example =
    reconnects 0 two_endpoints down_again both_down (pos 2) two_distinct down_again-run second_named

broad_casts-Wrote_example :
    (c : Connection) × (get_elem? (run_posted (broad_casts new_message) both_down).sessions 0
      ≡ some c)
    × (c.role ≡ Role.outgoing (pos 1))
    × (c.session.written ≡ [] ++ replicate 1 (wire new_message))
unfolding count_if
broad_casts-Wrote_example = broad_casts-Wrote new_message both_down 0 to_first refl
