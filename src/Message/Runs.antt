-- ===== src/Message/Runs.antt =====
-- The messages of src/flowmq/message.hpp at concrete inputs. The codec of the runs writes the
-- partition of a message, and nothing else of it.
use flowmq.Base.{
  ℤ, ℕ, zero, ◌≤◌, ◌<◌, pos, pos_part, Bytes, [], ◌∷◌, Option, none, some, ok, fault, ◌≡◌, refl,
  arith, ◌^◌, take, length, length-replicate,
}
use flowmq.Protocol.{FlowMessage, raft_message, set_partition_id}
use flowmq.Message.{
  Message, new_message, max_body_length, body, wire, FlowMessageCodec, serialize_to_message,
  serialize_as_message, deserialize_from_message,
}
use flowmq.Message.Codec.{simple_codec}
use flowmq.Message.RoundTrip.{frame, IsSendable, deserialize-serialize, serialize_to_message-bounds}

abbrev parse_partition : Bytes → FlowMessage
parse_partition [] = raft_message
parse_partition (n ∷ s) = set_partition_id (pos n) raft_message

abbrev serialize_partition : Option ℤ → Bytes
serialize_partition none = []
serialize_partition (some i) = pos_part i ∷ []

abbrev pub partition_codec : FlowMessageCodec
partition_codec = simple_codec (λ m. serialize_partition m.partition_id) parse_partition

abbrev to_partition : FlowMessage
to_partition = set_partition_id (pos 7) raft_message

to_partition-IsSendable : IsSendable partition_codec to_partition
to_partition-IsSendable = (refl, omega arith)

deserialize-serialize_example :
    (msg : Message) × (serialize_as_message partition_codec to_partition ≡ ok msg)
    × (wire msg ≡ frame (7 ∷ []))
    × (deserialize_from_message partition_codec msg ≡ ok to_partition)
deserialize-serialize_example =
    deserialize-serialize partition_codec to_partition to_partition-IsSendable

serialize_to_message-bounds_example :
    (1 ≤ max_body_length
      → (msg : Message) × (serialize_to_message partition_codec to_partition new_message ≡ ok msg)
        × (length msg.data_buffer ≡ length new_message.data_buffer)
        × (msg.body_length ≡ pos 1)
        × (zero ≡ 0 → take 1 (body msg) ≡ 7 ∷ []))
    × (max_body_length < 1
        → 1 < 2 ^ 32
        → serialize_to_message partition_codec to_partition new_message ≡ fault)
serialize_to_message-bounds_example =
    serialize_to_message-bounds partition_codec to_partition new_message 0 1
      (length-replicate {A = ℕ} 1020 0) refl
