-- ===== src/Message.antt =====
-- src/flowmq/message.hpp: the buffer of a message as it goes over a socket, a header with the length
-- of the body in decimal and then the body; and the methods of RaftMessage (src/flowmq/raft_message.hpp)
-- that fill and read it. How the generated code turns a FlowMessage into bytes is a parameter.
pub mod Codec
pub mod RoundTrip
pub mod Runs
use flowmq.Base.{
  ℤ, pos, negsuc, ℕ, ◌+◌, ◌-◌, ◌≤◌, Bytes, [], ◌∷◌, ◌++◌, Bool, true, false, Outcome, ok, fault,
  ◌>>=◌, leb, ltb, ◌%◌, ◌^◌, ◌≡◌, pos_part, if◌then◌else◌, length, take, drop, replicate,
}
use flowmq.Protocol.{FlowMessage, raft_message}
use flowmq.Text.Decimal.{show_ℕ}
use flowmq.Text.Atoi.{atoi}

abbrev pub header_length : ℕ
header_length = 20

abbrev pub max_body_length : ℕ
max_body_length = 1000

pub record Message : Type 0 where
  pub body_length : ℤ
  pub data_buffer : Bytes

abbrev pub new_message : Message
new_message = record {
  body_length = pos 0;
  data_buffer = replicate (header_length + max_body_length) 0;
}

abbrev pub header : Message → Bytes
header m = take header_length m.data_buffer

abbrev pub body : Message → Bytes
body m = drop header_length m.data_buffer

-- Bytes written from an offset on. Behind the end of the buffer the behaviour is undefined.
unfoldable pub write_at : ℕ → Bytes → Bytes → Outcome Bytes
write_at offset bytes buffer =
    if leb (offset + length bytes) (length buffer)
    then ok (take offset buffer ++ (bytes ++ drop (offset + length bytes) buffer))
    else fault

-- The number, and NUL bytes up to the length of the header.
abbrev pub length_header : ℕ → Bytes
length_header n = show_ℕ n ++ replicate (header_length - length (show_ℕ n)) 0

-- A length that the two assertions refuse stops the program.
unfoldable pub set_body_length : ℤ → Message → Outcome Message
set_body_length (negsuc n) m = fault
set_body_length (pos n) m =
    if leb n max_body_length
    then (do
      buffer ← write_at 0 (length_header n) m.data_buffer
      ok (record { body_length = pos n; data_buffer = buffer }))
    else fault

-- atoi(header()), which reads on behind the header when it finds no end there.
unfoldable pub decode_length : Message → Outcome Message
decode_length m = do n ← atoi m.data_buffer; ok (record m { body_length = n })

-- What a session writes to its socket: header_length() + body_length() bytes.
abbrev pub wire : Message → Bytes
wire m = elim m.body_length [ pos n ↦ take (header_length + n) m.data_buffer | negsuc n ↦ [] ]

-- static_cast<int> of a size_t.
abbrev pub to_int : ℕ → ℤ
to_int n = if ltb (n % 2 ^ 32) (2 ^ 31) then pos (n % 2 ^ 32) else negsuc (2 ^ 32 - 1 - n % 2 ^ 32)

-- The bytes of a message, which ByteSizeLong counts; what SerializeToArray writes into an array of a
-- given size, which is the whole message when it fits and never more than the size; and what a new
-- FlowMessage holds after ParseFromArray.
pub record FlowMessageCodec : Type 0 where
  pub serialize : FlowMessage → Bytes
  pub serialize_to_array : FlowMessage → ℕ → Bytes
  pub parse : Bytes → FlowMessage
  pub fits_whole :
      (m : FlowMessage) (size : ℕ)
      → length (serialize m) ≤ size
      → serialize_to_array m size ≡ serialize m
  pub stays_inside : (m : FlowMessage) (size : ℕ) → length (serialize_to_array m size) ≤ size

module _ (codec : FlowMessageCodec) where
  unfoldable pub serialize_to_message : FlowMessage → Message → Outcome Message
  serialize_to_message flow_message msg = do
    let msg_len = to_int (length (codec.serialize flow_message))
    sized ← set_body_length msg_len msg
    buffer ←
        write_at header_length (codec.serialize_to_array flow_message (pos_part msg_len))
          sized.data_buffer
    ok (record sized { data_buffer = buffer })

  unfoldable pub serialize_as_message : FlowMessage → Outcome Message
  serialize_as_message flow_message = serialize_to_message flow_message new_message

  -- A body that is longer than the buffer, or of negative length, is read out of bounds.
  unfoldable pub deserialize_from_message : Message → Outcome FlowMessage
  deserialize_from_message m = elim m.body_length [
    | negsuc n ↦ fault
    | pos n ↦ if leb n (length (body m)) then ok (codec.parse (take n (body m))) else fault
  ]
