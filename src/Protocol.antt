-- ===== src/Protocol.antt =====
-- The messages of src/flowmq/flow_message.proto, as src/flowmq/flow_message.pb.h declares them, and
-- the wrapper of src/flowmq/raft_message.hpp. A required field that was never set reads as 0 or as
-- the empty string, which is what the records hold for it.
use flowmq.Base.{ℤ, pos, Bytes, List, [], Option, none, some}

pub record LogEntry : Type 0 where
  pub index : ℤ
  pub term : ℤ
  pub message_id : ℤ
  pub operation : ℤ
  pub message : Bytes

-- LogEntry::ADD and LogEntry::COMMIT.
abbrev pub add_operation : ℤ
add_operation = pos 0

abbrev pub commit_operation : ℤ
commit_operation = pos 1

pub record RequestVoteRequest : Type 0 where
  pub term : ℤ
  pub candidate_id : ℤ
  pub last_log_index : ℤ
  pub last_log_term : ℤ

pub record RequestVoteResponse : Type 0 where
  pub term : ℤ
  pub vote_result_term_granted : ℤ

pub record AppendEntriesRequest : Type 0 where
  pub term : ℤ
  pub leader_id : ℤ
  pub prev_log_index : ℤ
  pub prev_log_term : ℤ
  pub entries : List LogEntry
  pub leader_commit : ℤ

pub record AppendEntriesResponse : Type 0 where
  pub term : ℤ
  pub follower_id : ℤ
  pub append_result_success : ℤ
  pub last_index_synced : ℤ

pub record ClientPutMessage : Type 0 where
  pub message : Bytes
  pub message_id : Option ℤ

pub record ClientCommitMessage : Type 0 where
  pub message_id : ℤ

pub record ServerSendMessage : Type 0 where
  pub message_id : ℤ
  pub message : Bytes

pub record ClientOpenQueue : Type 0 where
  pub open_mode : ℤ
  pub queue_name : Bytes

pub data Status : Type 0 where
  success error : Status

pub record ClientOpenQueueResponse : Type 0 where
  pub status : Status
  pub error_message : Bytes
  pub leader_ip : Option Bytes
  pub leader_port : Option Bytes

pub record ClientPutMessageResponse : Type 0 where
  pub message_id : ℤ
  pub status : Status
  pub error_message : Bytes

pub record ConsumerDisconnected : Type 0 where
  pub client_id : ℤ

pub data MessageType : Type 0 where
  request_vote_request request_vote_response append_entries_request append_entries_response
        client_put_message client_put_message_response client_commit_message server_send_message
        client_open_queue client_open_queue_response consumer_disconnected unknown :
      MessageType

-- Only the part that `type` names is meant to be set; the code may read any.
pub record FlowMessage : Type 0 where
  pub type : MessageType
  pub partition_id : Option ℤ
  pub request_vote_request : Option RequestVoteRequest
  pub request_vote_response : Option RequestVoteResponse
  pub append_entries_request : Option AppendEntriesRequest
  pub append_entries_response : Option AppendEntriesResponse
  pub client_put_message : Option ClientPutMessage
  pub client_commit_message : Option ClientCommitMessage
  pub server_send_message : Option ServerSendMessage
  pub client_open_queue : Option ClientOpenQueue
  pub consumer_disconnected : Option ConsumerDisconnected
  pub client_open_queue_response : Option ClientOpenQueueResponse
  pub client_put_message_response : Option ClientPutMessageResponse

-- `RaftMessage()`: the first value of the enum, and no part.
abbrev pub raft_message : FlowMessage
raft_message = record {
  type = MessageType.request_vote_request;
  partition_id = none;
  request_vote_request = none;
  request_vote_response = none;
  append_entries_request = none;
  append_entries_response = none;
  client_put_message = none;
  client_commit_message = none;
  server_send_message = none;
  client_open_queue = none;
  consumer_disconnected = none;
  client_open_queue_response = none;
  client_put_message_response = none;
}

abbrev pub set_partition_id : ℤ → FlowMessage → FlowMessage
set_partition_id partition_id m = record m { partition_id = some partition_id }

abbrev pub load_vote_request : RequestVoteRequest → FlowMessage → FlowMessage
load_vote_request req m = record m {
  type = MessageType.request_vote_request;
  request_vote_request = some req;
}

abbrev pub load_vote_result : RequestVoteResponse → FlowMessage → FlowMessage
load_vote_result resp m = record m {
  type = MessageType.request_vote_response;
  request_vote_response = some resp;
}

abbrev pub load_append_entries_request : AppendEntriesRequest → FlowMessage → FlowMessage
load_append_entries_request req m = record m {
  type = MessageType.append_entries_request;
  append_entries_request = some req;
}

abbrev pub load_append_entries_response : AppendEntriesResponse → FlowMessage → FlowMessage
load_append_entries_response resp m = record m {
  type = MessageType.append_entries_response;
  append_entries_response = some resp;
}

abbrev pub load_client_put_message_request : ClientPutMessage → FlowMessage → FlowMessage
load_client_put_message_request put m = record m {
  type = MessageType.client_put_message;
  client_put_message = some put;
}

abbrev pub load_client_commit_message_request : ClientCommitMessage → FlowMessage → FlowMessage
load_client_commit_message_request commit m = record m {
  type = MessageType.client_commit_message;
  client_commit_message = some commit;
}

abbrev pub load_client_open_queue_request : ClientOpenQueue → FlowMessage → FlowMessage
load_client_open_queue_request request m = record m {
  type = MessageType.client_open_queue;
  client_open_queue = some request;
}

abbrev pub load_client_open_queue_response : ClientOpenQueueResponse → FlowMessage → FlowMessage
load_client_open_queue_response response m = record m {
  type = MessageType.client_open_queue_response;
  client_open_queue_response = some response;
}

abbrev pub load_server_send_message_request : ServerSendMessage → FlowMessage → FlowMessage
load_server_send_message_request send m = record m {
  type = MessageType.server_send_message;
  server_send_message = some send;
}

-- A getter of a part that is not set returns the part's default instance.
abbrev pub part_or {ℓ} : {A : Type ℓ} → Option A → A → A
part_or none d = d
part_or (some a) d = a

abbrev pub get_append_request : FlowMessage → AppendEntriesRequest
get_append_request m = part_or m.append_entries_request (record {
  term = pos 0;
  leader_id = pos 0;
  prev_log_index = pos 0;
  prev_log_term = pos 0;
  entries = [];
  leader_commit = pos 0;
})

abbrev pub get_append_response : FlowMessage → AppendEntriesResponse
get_append_response m = part_or m.append_entries_response (record {
  term = pos 0;
  follower_id = pos 0;
  append_result_success = pos 0;
  last_index_synced = pos 0;
})

abbrev pub get_vote_request : FlowMessage → RequestVoteRequest
get_vote_request m =
    part_or m.request_vote_request
      (record { term = pos 0; candidate_id = pos 0; last_log_index = pos 0; last_log_term = pos 0 })

abbrev pub get_vote_response : FlowMessage → RequestVoteResponse
get_vote_response m =
    part_or m.request_vote_response (record { term = pos 0; vote_result_term_granted = pos 0 })

abbrev pub get_put_message_request : FlowMessage → ClientPutMessage
get_put_message_request m =
    part_or m.client_put_message (record { message = []; message_id = none })

abbrev pub get_commit_message_request : FlowMessage → ClientCommitMessage
get_commit_message_request m = part_or m.client_commit_message (record { message_id = pos 0 })

abbrev pub load_client_put_message_response : ClientPutMessageResponse → FlowMessage → FlowMessage
load_client_put_message_response response m = record m {
  type = MessageType.client_put_message_response;
  client_put_message_response = some response;
}

abbrev pub get_put_message_response : FlowMessage → ClientPutMessageResponse
get_put_message_response m =
    part_or m.client_put_message_response
      (record { message_id = pos 0; status = success; error_message = [] })

abbrev pub get_open_queue_request : FlowMessage → ClientOpenQueue
get_open_queue_request m =
    part_or m.client_open_queue (record { open_mode = pos 0; queue_name = [] })

abbrev text_of : (FlowMessage → Bytes) → MessageType → FlowMessage → Option Bytes
text_of debug_string MessageType.unknown m = none
text_of debug_string other m = some (debug_string m)

-- RaftMessage::serialize throws (`none`) on a message whose type is unknown. DebugString is protobuf's.
abbrev pub serialize : (FlowMessage → Bytes) → FlowMessage → Option Bytes
serialize debug_string m = text_of debug_string m.type m

abbrev pub get_open_queue_response : FlowMessage → ClientOpenQueueResponse
get_open_queue_response m =
    part_or m.client_open_queue_response
      (record { status = success; error_message = []; leader_ip = none; leader_port = none })

abbrev pub get_server_send_message : FlowMessage → ServerSendMessage
get_server_send_message m =
    part_or m.server_send_message (record { message_id = pos 0; message = [] })

abbrev pub partition_id_of : FlowMessage → ℤ
partition_id_of m = part_or m.partition_id (pos 0)
