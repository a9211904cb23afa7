-- ===== src/Message/Codec.antt =====
-- A codec for runs, of messages as src/flowmq/raft_message.hpp serializes them, that writes nothing
-- into an array that is too small.
use flowmq.Base.{ℕ, ◌≤◌, Bytes, [], leb, if◌then◌else◌, length, ◌≡◌, arith}
use flowmq.Protocol.{FlowMessage}
use flowmq.Message.{FlowMessageCodec}

abbrev pub whole_or_nothing : Bytes → ℕ → Bytes
whole_or_nothing bytes size = if leb (length bytes) size then bytes else []

pub whole : (bytes : Bytes) (size : ℕ) → length bytes ≤ size → whole_or_nothing bytes size ≡ bytes
whole bytes size h = ground arith

pub inside : (bytes : Bytes) (size : ℕ) → length (whole_or_nothing bytes size) ≤ size
inside bytes size = ground arith

abbrev pub simple_codec : (FlowMessage → Bytes) → (Bytes → FlowMessage) → FlowMessageCodec
simple_codec serialize parse = record {
  serialize = serialize;
  serialize_to_array = λ m. whole_or_nothing (serialize m);
  parse = parse;
  fits_whole = λ m. whole (serialize m);
  stays_inside = λ m. inside (serialize m);
}
