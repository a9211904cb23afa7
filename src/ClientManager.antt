-- ===== src/ClientManager.antt =====
-- src/flowmq/client_manager.hpp and client_manager.cpp: the connections to the users of the queue,
-- and the round robin over the consumers of a partition. A session is known by its client id;
-- `written` is what was handed to the sessions, in order.
pub mod RoundRobin
pub mod Sessions
pub mod Lost
pub mod Safety
mod Runs
use flowmq.Base.{
  ℤ, pos, negsuc, minus_one, ℕ, suc, ◌-◌, ◌%◌, ◌^◌, List, [], ◌∷◌, ◌++◌, Option, none, some, Bool,
  true, false, Outcome, ok, fault, ◌>>=◌, or_fault, increment, length, get_elem?, ◌==ℤ◌,
  if◌then◌else◌,
}
use flowmq.Containers.OrdSet
use flowmq.Containers.OrdSet.{OrdSet}
use flowmq.Containers.OrdMap
use flowmq.Containers.OrdMap.{OrdMap, find_or}
use flowmq.Containers.{containers}
use flowmq.Protocol.{FlowMessage, MessageType, partition_id_of}
use flowmq.Interfaces.{ClientManagerInterface}

pub record ClientManager : Type 0 where
  pub client_sessions : OrdSet
  pub consumer_client_id_array : OrdMap (List ℤ)
  pub deliver_count : OrdMap ℤ
  pub written : List (ℤ × FlowMessage)

abbrev pub no_clients : ClientManager
no_clients = record {
  client_sessions = [];
  consumer_client_id_array = [];
  deliver_count = [];
  written = [];
}

-- The conversion of an `int` to `size_t`.
abbrev pub to_size : ℤ → ℕ
to_size (pos n) = n
to_size (negsuc n) = 2 ^ 64 - suc n

-- client_sessions_[client_id]->write_message(msg); a missing session is a null pointer.
unfoldable pub write_to : ℤ → FlowMessage → ClientManager → Outcome ClientManager
write_to client_id msg m =
    if OrdSet.contains m.client_sessions client_id
    then ok (record m { written = m.written ++ (client_id, msg) ∷ [] })
    else fault

-- The delivery to a partition with consumers.
unfoldable pub deliver_to : ℤ → FlowMessage → List ℤ → ClientManager → Outcome (ℤ × ClientManager)
deliver_to partition_id msg ids m = do
  let count = find_or m.deliver_count partition_id (pos 0)
  client_id ← or_fault (get_elem? ids (to_size count % length ids))
  m' ← write_to client_id msg m
  count' ← increment count
  ok (client_id, record m' { deliver_count = OrdMap.assign partition_id count' m'.deliver_count })

unfoldable pub deliver_one_message_round_robin :
    ℤ → FlowMessage → ClientManager → Outcome (ℤ × ClientManager)
deliver_one_message_round_robin partition_id msg m =
    elim (OrdMap.lookup m.consumer_client_id_array partition_id) [
      | none ↦ ok (pos 1, m)
      | some [] ↦ ok (minus_one, m)
      | some (id ∷ ids) ↦ deliver_to partition_id msg (id ∷ ids) m
    ]

unfoldable pub has_consumers : ClientManager → Bool
has_consumers m = elim m.consumer_client_id_array [ [] ↦ false | p ∷ ps ↦ true ]

-- `accept_new_connection`: a new session, under an id drawn at random.
unfoldable pub accept : ℤ → ClientManager → ClientManager
accept id m = record m { client_sessions = OrdSet.insert id m.client_sessions }

-- std::find and erase: the first occurrence goes.
unfoldable pub erase_first : ℤ → List ℤ → List ℤ
erase_first id [] = []
erase_first id (x ∷ xs) = if x ==ℤ id then xs else x ∷ erase_first id xs

unfoldable pub erase_from_all : ℤ → OrdMap (List ℤ) → OrdMap (List ℤ)
erase_from_all id [] = []
erase_from_all id ((p, ids) ∷ rest) = (p, erase_first id ids) ∷ erase_from_all id rest

-- The disconnect handler of a session, up to the call of client_disconnected_handler_(id).
unfoldable pub disconnect : ℤ → ClientManager → ClientManager
disconnect id m = record m {
  client_sessions = OrdSet.erase id m.client_sessions;
  consumer_client_id_array = erase_from_all id m.consumer_client_id_array;
}

-- What `handle_message` does with a message: hand it to handler_, or throw.
pub data Handled : Type 0 where
  forwards : FlowMessage → Handled
  throws : Handled

unfoldable pub open_queue : ℤ → ℤ → ClientManager → ClientManager
open_queue partition_id client_id m = record m {
  consumer_client_id_array =
      OrdMap.assign partition_id
        (find_or m.consumer_client_id_array partition_id [] ++ client_id ∷ [])
        m.consumer_client_id_array;
}

abbrev pub handle : MessageType → FlowMessage → ℤ → ClientManager → Handled × ClientManager
handle MessageType.client_open_queue msg client_id m =
    (forwards msg, open_queue (partition_id_of msg) client_id m)
handle MessageType.client_put_message msg client_id m = (forwards msg, m)
handle MessageType.client_commit_message msg client_id m = (forwards msg, m)
handle other msg client_id m = (throws, m)

unfoldable pub handle_message : FlowMessage → ℤ → ClientManager → Handled × ClientManager
handle_message msg client_id m = handle msg.type msg client_id m

-- A run names this to compute with the methods.
unfoldable pub methods : Unit {0}
unfolding write_to deliver_to deliver_one_message_round_robin has_consumers accept erase_first
    erase_from_all disconnect open_queue handle_message containers increment
methods = tt

instance abbrev pub client_manager : ClientManagerInterface ClientManager
client_manager = record {
  deliver_one_message_round_robin = deliver_one_message_round_robin;
  has_consumers = has_consumers;
}
