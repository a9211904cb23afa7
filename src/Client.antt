-- ===== src/Client.antt =====
-- src/flowmq/generic_client.hpp and generic_client.cpp, src/flowmq_client/simple_client.hpp: a user of
-- the queue, who follows the answer of a node that is not the leader. The codec of messages and the
-- resolver (`none` where it throws) are parameters. An exception that leaves a method is a `fault`.
pub mod Redirect
mod Runs
use flowmq.Base.{
  ℤ, pos, ℕ, suc, Bytes, List, [], ◌∷◌, ◌++◌, Option, none, some, Bool, true, false, Outcome, ok,
  fault, ◌>>=◌, or_fault, ltb_ℤ, if◌then◌else◌,
}
use flowmq.Protocol.{
  FlowMessage, MessageType, Status, ClientOpenQueueResponse, raft_message, set_partition_id,
  load_client_open_queue_request, load_client_commit_message_request,
  load_client_put_message_request, get_open_queue_response, get_server_send_message, part_or,
}
use flowmq.Text.Decimal.{is_empty}
use flowmq.Message.{Message, FlowMessageCodec, serialize_as_message, deserialize_from_message}
use flowmq.Session
use flowmq.Session.{Session, new_session, start_read}

-- `sessions` are the sessions made, the newest first: that is session_. A replaced one lives on as
-- long as it waits for something.
pub record GenericClient (Results : Type 0) : Type 0 where
  pub running : Bool
  pub sessions : List Session
  pub endpoints : Results

-- `waiting` counts the threads in open_queue_sync, `delivered` is what handler_ was called with.
pub record SimpleClient (Results : Type 0) : Type 0 where
  pub generic_client : GenericClient Results
  pub partition_id : ℤ
  pub stopped : Bool
  pub open_queue_msg : FlowMessage
  pub retries : ℤ
  pub waiting : ℕ
  pub delivered : List (Bytes × ℤ)

abbrev pub retries_limit : ℤ
retries_limit = pos 10

abbrev pub newest : (Session → Session) → List Session → Outcome (List Session)
newest f [] = fault
newest f (s ∷ rest) = ok (f s ∷ rest)

module _ {Results : Type 0} where
  abbrev pub new_generic_client : Results → GenericClient Results
  new_generic_client endpoints = record { running = true; sessions = []; endpoints = endpoints }

  -- boost::asio::connect throws when no endpoint accepts.
  abbrev pub connect : Bool → GenericClient Results → Outcome (GenericClient Results)
  connect true g = ok (record g { sessions = start_read new_session ∷ g.sessions })
  connect false g = fault

  abbrev pub reset_endpoint : Results → GenericClient Results → GenericClient Results
  reset_endpoint endpoints g = record g { endpoints = endpoints }

  abbrev pub write_message : Message → GenericClient Results → Outcome (GenericClient Results)
  write_message msg g = do
    sessions ← newest (Session.write_message msg) g.sessions
    ok (record g { sessions = sessions })

  abbrev pub stop_generic : GenericClient Results → Outcome (GenericClient Results)
  stop_generic g = do
    sessions ← newest Session.close g.sessions
    ok (record g { sessions = sessions })

  -- The disconnect handler of every session.
  abbrev pub session_lost : GenericClient Results → GenericClient Results
  session_lost g = record g { running = false }

  abbrev pub new_client : ℤ → Results → SimpleClient Results
  new_client partition_id endpoints = record {
    generic_client = new_generic_client endpoints;
    partition_id = partition_id;
    stopped = false;
    open_queue_msg = raft_message;
    retries = pos 0;
    waiting = 0;
    delivered = [];
  }

  abbrev pub start : Bool → SimpleClient Results → Outcome (SimpleClient Results)
  start accepted c = do
    g ← connect accepted c.generic_client
    ok (record c { stopped = false; generic_client = g })

  abbrev pub stop : SimpleClient Results → Outcome (SimpleClient Results)
  stop c = do
    g ← stop_generic c.generic_client
    ok (record c { stopped = true; generic_client = g })

  -- What open_queue_sync returns once it is notified.
  abbrev pub opened : SimpleClient Results → Bool
  opened c = ltb_ℤ c.retries retries_limit

module _ {Results : Type 0} (codec : FlowMessageCodec)
    (resolve : Bytes → Bytes → Option Results) where
  unfoldable pub send_raft : FlowMessage → SimpleClient Results → Outcome (SimpleClient Results)
  send_raft raft_msg c = do
    msg ← serialize_as_message codec raft_msg
    g ← write_message msg c.generic_client
    ok (record c { generic_client = g })

  -- Up to the wait.
  abbrev pub open_queue_sync : Bytes → ℤ → SimpleClient Results → Outcome (SimpleClient Results)
  open_queue_sync queue_name mode c =
      let req = set_partition_id c.partition_id (
        load_client_open_queue_request (record { open_mode = mode; queue_name = queue_name })
          c.open_queue_msg) in
      send_raft req (record c { open_queue_msg = req; waiting = suc c.waiting })

  abbrev pub commit_message : ℤ → SimpleClient Results → Outcome (SimpleClient Results)
  commit_message message_id c =
      send_raft
        (set_partition_id c.partition_id
          (load_client_commit_message_request (record { message_id = message_id }) raft_message))
        c

  abbrev pub send_message : Bytes → SimpleClient Results → Outcome (SimpleClient Results)
  send_message message c =
      send_raft
        (set_partition_id c.partition_id (
          load_client_put_message_request (record { message = message; message_id = none })
            raft_message))
        c

  -- To the leader, with the open request once more.
  unfoldable pub redirect :
      Bool → Bytes → Bytes → SimpleClient Results → Outcome (SimpleClient Results)
  redirect accepted ip port c = do
    endpoints ← or_fault (resolve ip port)
    g ← connect accepted (reset_endpoint endpoints c.generic_client)
    send_raft c.open_queue_msg (record c { generic_client = g })

  abbrev pub open_answered :
      Bool
      → ClientOpenQueueResponse
      → Status
      → SimpleClient Results
      → Outcome (SimpleClient Results)
  open_answered accepted resp Status.success c =
      ok (record c { open_queue_msg = raft_message; waiting = 0 })
  open_answered accepted resp Status.error c =
      if is_empty (part_or resp.leader_ip [])
      then ok c
      else redirect accepted (part_or resp.leader_ip []) (part_or resp.leader_port []) c

  abbrev pub answered :
      Bool → FlowMessage → MessageType → SimpleClient Results → Outcome (SimpleClient Results)
  answered accepted m MessageType.client_open_queue_response c =
      open_answered accepted (get_open_queue_response m) (get_open_queue_response m).status c
  answered accepted m MessageType.server_send_message c = ok (record c {
    delivered =
        c.delivered
        ++ ((get_server_send_message m).message, (get_server_send_message m).message_id) ∷ [];
  })
  answered accepted m other c = ok c

  unfoldable pub handle_message :
      Bool → Message → SimpleClient Results → Outcome (SimpleClient Results)
  handle_message accepted msg c = do
    raft_msg ← deserialize_from_message codec msg
    answered accepted raft_msg raft_msg.type c
