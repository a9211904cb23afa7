-- ===== src/ClusterManager.antt =====
-- src/flowmq/cluster_manager.hpp and cluster_manager.cpp: the connections with the other nodes of the
-- cluster. A session is an object with a number; the maps hold the numbers. Events are completions of
-- what the manager waits for (a connection, a timer, the acceptor, an operation of a session), and
-- functions that were posted to the io_context. What the resolver found is a parameter.
pub mod Steps
pub mod Tokens
pub mod Links
pub mod Gains
pub mod Keeps
pub mod Reconnect
pub mod Broadcast
mod Runs
use flowmq.Base.{
  All-get, All-set_at, count_if, count_if-append, get_elem?-set_at, one_if, set_at, ℤ, pos, ℕ, zero,
  suc, Bytes, List, [], ◌∷◌, ◌++◌, Option, none, some, Bool, true, false, Outcome, ok, fault, ◌>>=◌,
  increment, or_fault, length, get_elem?, drop, ◌==ℤ◌, ltb, if◌then◌else◌,
}
use flowmq.Containers.OrdMap
use flowmq.Containers.OrdMap.{OrdMap, has, find_or}
use flowmq.Message.{Message}
use flowmq.Session
use flowmq.Session.{Session, Status, connected, disconnected, closed, new_session, start_read}

-- What a session is for: the endpoint that it goes to, or its number among the accepted ones.
pub data Role : Type 0 where
  outgoing incoming : ℤ → Role

pub record Connection : Type 0 where
  pub role : Role
  pub session : Session

-- A function that waits in the io_context.
pub data Posted : Type 0 where
  broad_casts : Message → Posted
  writes_to : ℤ → Message → Posted

-- `connecting` are the endpoints of the async_connect calls that have not completed, with their
-- addresses, `timers` those of the timers that have not fired; `handled` is what handler_ was called
-- with.
pub record ClusterManager (Results : Type 0) : Type 0 where
  pub endpoints : List (ℤ × Results)
  pub endpoint_id_map : OrdMap Results
  pub sessions : List Connection
  pub outgoing_sessions : OrdMap ℕ
  pub incoming_sessions : OrdMap ℕ
  pub incoming_sessions_count : ℤ
  pub connecting : List (ℤ × Results)
  pub timers : List ℤ
  pub accepting : Bool
  pub posted : List Posted
  pub handled : List Message

-- Session events that the manager does not cause itself.
pub data IoEvent : Type 0 where
  arrives : Bytes → IoEvent
  reads fails_to_read : IoEvent
  write_done : Bool → IoEvent

abbrev pub io : IoEvent → Session.Event
io (arrives bytes) = Session.arrives bytes
io reads = Session.reads
io fails_to_read = Session.fails_to_read
io (write_done failed) = Session.write_done failed

abbrev pub is_connected : Status → Bool
is_connected connected = true
is_connected other = false

abbrev pub connected_in : Option Connection → Bool
connected_in none = false
connected_in (some c) = is_connected c.session.status

-- session->write_message(msg) for the session of a number.
abbrev pub write_connection : Option Connection → ℕ → Message → List Connection → List Connection
write_connection none n msg sessions = sessions
write_connection (some c) n msg sessions =
    set_at n (record { role = c.role; session = Session.write_message msg c.session }) sessions

-- The first of the elements for an endpoint, and the list without it.
abbrev pub more_before {ℓ} : {A : Type ℓ} → A → Option (List A) → Option (List A)
more_before x none = none
more_before x (some xs) = some (x ∷ xs)

unfoldable pub take_first {ℓ} : {A : Type ℓ} → (A → Bool) → List A → Option (List A)
take_first p [] = none
take_first p (x ∷ xs) = if p x then some xs else more_before x (take_first p xs)

pub data Event : Type 0 where
  connects : Bool → ℤ → Event
  timer_fires : ℤ → Event
  accepts : Bool → Event
  session_event : ℕ → IoEvent → Event
  runs_posted : Event
  calls_broad_cast : Message → Event
  calls_write_message : ℤ → Message → Event

module _ {Results : Type 0} where
  abbrev pub up_at : Option ℕ → ClusterManager Results → Bool
  up_at none m = false
  up_at (some n) m = connected_in (get_elem? m.sessions n)

  -- outgoing_sessions_.count(id) and the session is CONNECTED.
  abbrev pub is_up : ℤ → ClusterManager Results → Bool
  is_up id m = up_at (OrdMap.lookup m.outgoing_sessions id) m

  -- A session is made and starts to read.
  abbrev pub add_session : Role → ClusterManager Results → ClusterManager Results
  add_session role m = record m {
    sessions = m.sessions ++ record { role = role; session = start_read new_session } ∷ [];
  }

  abbrev pub retry : ℤ → ClusterManager Results → ClusterManager Results
  retry id m = record m { timers = m.timers ++ id ∷ [] }

  -- The completion of async_connect, without an error or with one.
  unfoldable pub connect_done : Bool → ℤ → ClusterManager Results → ClusterManager Results
  connect_done true id m = record (add_session (Role.outgoing id) m) {
    outgoing_sessions = OrdMap.assign id (length m.sessions) m.outgoing_sessions;
  }
  connect_done false id m = retry id m

  unfoldable pub accept_done : Bool → ClusterManager Results → Outcome (ClusterManager Results)
  accept_done true m = do
    count ← increment m.incoming_sessions_count
    ok (record (add_session (Role.incoming m.incoming_sessions_count) m) {
      incoming_sessions_count = count;
      incoming_sessions =
          OrdMap.assign m.incoming_sessions_count (length m.sessions) m.incoming_sessions;
    })
  accept_done false m = ok m

  -- The handlers that the manager registers at its sessions.
  abbrev pub message_handler : Role → List Message → ClusterManager Results → ClusterManager Results
  message_handler (Role.outgoing id) new m = m
  message_handler (Role.incoming id) new m = record m { handled = m.handled ++ new }

  abbrev pub disconnect_handler : Role → ClusterManager Results → ClusterManager Results
  disconnect_handler (Role.outgoing id) m = retry id m
  disconnect_handler (Role.incoming id) m = record m {
    incoming_sessions = OrdMap.remove id m.incoming_sessions;
  }

  -- A session after an event, with the handlers that it called meanwhile.
  unfoldable pub session_goes_on :
      ℕ → Connection → Session → ClusterManager Results → ClusterManager Results
  session_goes_on n c s m =
      let stored = record m {
        sessions = set_at n (record { role = c.role; session = s }) m.sessions;
      } in
      let told = message_handler c.role (drop (length c.session.handled) s.handled) stored in
      if ltb c.session.disconnects s.disconnects then disconnect_handler c.role told else told

  abbrev pub event_at :
      Option Connection → ℕ → IoEvent → ClusterManager Results → Outcome (ClusterManager Results)
  event_at none n e m = ok m
  event_at (some c) n e m = Session.handle (io e) c.session >>= λ s. ok (session_goes_on n c s m)

  unfoldable pub on_session :
      ℕ → IoEvent → ClusterManager Results → Outcome (ClusterManager Results)
  on_session n e m = event_at (get_elem? m.sessions n) n e m

  unfoldable pub write_session : ℕ → Message → ClusterManager Results → ClusterManager Results
  write_session n msg m = record m {
    sessions = write_connection (get_elem? m.sessions n) n msg m.sessions;
  }

  unfoldable pub write_all : OrdMap ℕ → Message → ClusterManager Results → ClusterManager Results
  write_all [] msg m = m
  write_all ((id, n) ∷ rest) msg m = write_all rest msg (write_session n msg m)

  abbrev pub write_found : Option ℕ → Message → ClusterManager Results → ClusterManager Results
  write_found none msg m = m
  write_found (some n) msg m = write_session n msg m

  unfoldable pub run_posted : Posted → ClusterManager Results → ClusterManager Results
  run_posted (broad_casts msg) m = write_all m.outgoing_sessions msg m
  run_posted (writes_to id msg) m = write_found (OrdMap.lookup m.outgoing_sessions id) msg m

  abbrev pub broad_cast : Message → ClusterManager Results → ClusterManager Results
  broad_cast msg m = record m { posted = m.posted ++ broad_casts msg ∷ [] }

  abbrev pub write_message : ℤ → Message → ClusterManager Results → ClusterManager Results
  write_message id msg m = record m { posted = m.posted ++ writes_to id msg ∷ [] }

  -- An event that nothing waits for does not happen.
  abbrev pub connects_from :
      Option (List (ℤ × Results)) → Bool → ℤ → ClusterManager Results → ClusterManager Results
  connects_from none succeeds id m = m
  connects_from (some rest) succeeds id m =
      connect_done succeeds id (record m { connecting = rest })

  abbrev pub posted_from : List Posted → ClusterManager Results → ClusterManager Results
  posted_from [] m = m
  posted_from (p ∷ rest) m = run_posted p (record m { posted = rest })

  abbrev pub new_manager : List (ℤ × Results) → ClusterManager Results
  new_manager endpoints = record {
    endpoints = endpoints;
    endpoint_id_map = [];
    sessions = [];
    outgoing_sessions = [];
    incoming_sessions = [];
    incoming_sessions_count = pos 0;
    connecting = [];
    timers = [];
    accepting = false;
    posted = [];
    handled = [];
  }

  unfoldable pub all_endpoints : List (ℤ × Results) → OrdMap Results → OrdMap Results
  all_endpoints [] map = map
  all_endpoints ((id, r) ∷ rest) map = all_endpoints rest (OrdMap.assign id r map)

-- A missing key of endpoint_id_map_ is inserted with an empty result.
module _ {Results : Type 0} (no_results : Results) where
  unfoldable pub connect : ℤ → ClusterManager Results → ClusterManager Results
  connect id m = if is_up id m then m else record m {
    connecting = m.connecting ++ (id, find_or m.endpoint_id_map id no_results) ∷ [];
    endpoint_id_map =
        if has m.endpoint_id_map id
        then m.endpoint_id_map
        else OrdMap.assign id no_results m.endpoint_id_map;
  }

  unfoldable pub connect_all : List (ℤ × Results) → ClusterManager Results → ClusterManager Results
  connect_all [] m = m
  connect_all ((id, r) ∷ rest) m = connect_all rest (connect id m)

  unfoldable pub start : ClusterManager Results → ClusterManager Results
  start m =
      connect_all m.endpoints (record m {
        accepting = true;
        endpoint_id_map = all_endpoints m.endpoints m.endpoint_id_map;
      })

  abbrev pub fires_from : Option (List ℤ) → ℤ → ClusterManager Results → ClusterManager Results
  fires_from none id m = m
  fires_from (some rest) id m = connect id (record m { timers = rest })

  unfoldable pub handle : Event → ClusterManager Results → Outcome (ClusterManager Results)
  handle (connects succeeds id) m =
      ok (connects_from (take_first (λ x. x.0 ==ℤ id) m.connecting) succeeds id m)
  handle (timer_fires id) m = ok (fires_from (take_first (λ x. x ==ℤ id) m.timers) id m)
  handle (accepts succeeds) m = if m.accepting then accept_done succeeds m else ok m
  handle (session_event n e) m = on_session n e m
  handle runs_posted m = ok (posted_from m.posted m)
  handle (calls_broad_cast msg) m = ok (broad_cast msg m)
  handle (calls_write_message id msg) m = ok (write_message id msg m)

  unfoldable pub run : List Event → ClusterManager Results → Outcome (ClusterManager Results)
  run [] m = ok m
  run (e ∷ es) m = handle e m >>= λ m'. run es m'
