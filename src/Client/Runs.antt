-- ===== src/Client/Runs.antt =====
-- A client of src/flowmq_client/simple_client.hpp that is sent on, and its theorem there. A number
-- stands for endpoints; the codec knows the request, the refusal and the success by one byte.
use flowmq.Base.{
  pos, ℕ, Bytes, [], ◌∷◌, ◌++◌, Option, some, true, ok, ◌≡◌, refl, replicate, ◌==ℤ◌, ◌==◌,
  if◌then◌else◌,
}
use flowmq.Protocol.{FlowMessage, raft_message, set_partition_id, load_client_open_queue_request}
use flowmq.Message.{
  Message, FlowMessageCodec, serialize_as_message, serialize_to_message, set_body_length, write_at,
  deserialize_from_message,
}
use flowmq.Message.Codec.{simple_codec}
use flowmq.Text.Decimal.{show_ℕ, digits}
use flowmq.Session
use flowmq.Session.{new_session, start_read}
use flowmq.ClusterNode.State.{ClusterNode, serialize_raft_message, get_address_for_node}
use flowmq.ClusterNode.Leader.{not_leader, queue_opened}
use flowmq.ClusterNode.Start.{started, first_entry}
use flowmq.ClusterNode.State.{World}
use flowmq.ClientManager.{ClientManager, no_clients}
use flowmq.ClusterNode.Runs.{three_nodes}
use flowmq.Configuration.{ServerPoint}
use flowmq.Client.{SimpleClient, new_client, open_queue_sync, send_raft}
use flowmq.Client.Redirect.{Follows, open-redirect}

abbrev second_point : ServerPoint
second_point = record {
  node_id = pos 2;
  host_ip = 98 ∷ [];
  server_port = 49 ∷ [];
  client_port = 50 ∷ [];
}

abbrev just_started : World ClientManager (Unit {0})
just_started = started three_nodes no_clients tt [] (pos 0) (pos 0) (first_entry ∷ []) (pos 0)

abbrev follower : ClusterNode
follower = record just_started.node { cur_leader = pos 2 }

abbrev reply_for : Bytes → FlowMessage
reply_for [] = serialize_raft_message follower queue_opened
reply_for (n ∷ s) =
    if n == 2
    then serialize_raft_message follower
        (not_leader (get_address_for_node (second_point ∷ []) follower.cur_leader))
    else serialize_raft_message follower queue_opened

abbrev one_byte : FlowMessageCodec
one_byte = simple_codec (λ m. 1 ∷ []) reply_for

abbrev byte_message : ℕ → Message
byte_message n = record { body_length = pos 1; data_buffer = replicate 20 0 ++ n ∷ [] }

abbrev asking : SimpleClient ℕ
asking = record (new_client (pos 0) 5) {
  generic_client = record { running = true; sessions = start_read new_session ∷ []; endpoints = 5 };
}

abbrev resolve_all : Bytes → Bytes → Option ℕ
resolve_all ip port = some 9

abbrev opening : Message
opening = record {
  body_length = pos 1;
  data_buffer = show_ℕ 1 ++ (replicate 19 0 ++ (1 ∷ replicate 999 0));
}

abbrev open_request : FlowMessage
open_request = set_partition_id (pos 0) (
    load_client_open_queue_request (record { open_mode = pos 0; queue_name = 113 ∷ [] })
      raft_message)

abbrev asked : SimpleClient ℕ
asked = record asking {
  open_queue_msg = open_request;
  waiting = 1;
  generic_client = record {
    running = true;
    sessions = Session.write_message opening (start_read new_session) ∷ [];
    endpoints = 5;
  };
}

asks : open_queue_sync one_byte resolve_all (113 ∷ []) (pos 0) asking ≡ ok asked
unfolding send_raft serialize_as_message serialize_to_message set_body_length write_at show_ℕ digits
asks = refl

open-redirect_example :
    Follows one_byte resolve_all asking 9 (byte_message 2) (byte_message 3) asked
unfolding get_address_for_node deserialize_from_message ◌==ℤ◌
open-redirect_example =
    open-redirect one_byte resolve_all (113 ∷ []) (pos 0) asking asked follower (second_point ∷ [])
      9 (byte_message 2) (byte_message 3) asks refl refl refl refl
