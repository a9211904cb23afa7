-- ===== src/Session.antt =====
-- src/flowmq/session.hpp and session.cpp: a session over a connected socket. An event is a completion
-- of one of its asynchronous operations, bytes that arrive, or a call of a method. An asynchronous
-- read of n bytes completes once n bytes have arrived.
pub mod Disconnect
pub mod Reads
pub mod Stream
pub mod Delivery
mod Runs
use flowmq.Base.{
  ℤ, pos, negsuc, ℕ, zero, suc, Bytes, List, [], ◌∷◌, ◌++◌, Bool, true, false, Outcome, ok, fault,
  ◌>>=◌, leb, if◌then◌else◌, length, take, drop,
}
use flowmq.Message.{Message, new_message, header_length, write_at, decode_length, wire}

pub data Status : Type 0 where
  connected disconnected closed : Status

-- Which read the session waits for.
pub data Reading : Type 0 where
  nothing header body : Reading

-- `input` is what has arrived and is not read; `handled` is what msg_handler_ was called with,
-- `disconnects` how often disconnected_handler_ was called, `written` what was handed to the socket,
-- `writing` the number of writes that have not completed.
pub record Session : Type 0 where
  pub status : Status
  pub read_message_buffer : Message
  pub reading : Reading
  pub input : Bytes
  pub handled : List Message
  pub disconnects : ℕ
  pub written : List Bytes
  pub writing : ℕ

abbrev pub new_session : Session
new_session = record {
  status = connected;
  read_message_buffer = new_message;
  reading = nothing;
  input = [];
  handled = [];
  disconnects = 0;
  written = [];
  writing = 0;
}

abbrev pub read_header : Session → Session
read_header s = record s { reading = header }

abbrev pub start_read : Session → Session
start_read s = read_header s

abbrev pub call_disconnected : Status → Session → Session
call_disconnected disconnected s = s
call_disconnected other s = record s { status = disconnected; disconnects = suc s.disconnects }

-- The source spells it so.
unfoldable pub disconneted : Session → Session
disconneted s = call_disconnected s.status s

-- The read of the header completes: the length is decoded, and the read of the body starts.
unfoldable pub header_read : Session → Outcome Session
header_read s =
    if leb header_length (length s.input)
    then (do
      buffer ← write_at 0 (take header_length s.input) s.read_message_buffer.data_buffer
      m ← decode_length (record s.read_message_buffer { data_buffer = buffer })
      ok (record s { read_message_buffer = m; reading = body; input = drop header_length s.input }))
    else ok s

-- The read of n bytes of body completes: the message is handled, and the next one is read.
unfoldable pub body_bytes_read : ℕ → Session → Outcome Session
body_bytes_read n s =
    if leb n (length s.input)
    then (do
      buffer ← write_at header_length (take n s.input) s.read_message_buffer.data_buffer
      let m = record s.read_message_buffer { data_buffer = buffer }
      ok (
          read_header (record s {
            read_message_buffer = m;
            input = drop n s.input;
            handled = s.handled ++ m ∷ [];
          })))
    else ok s

-- A negative length is an enormous size of the buffer to read into.
abbrev pub body_read_of : ℤ → Session → Outcome Session
body_read_of (pos n) s = body_bytes_read n s
body_read_of (negsuc n) s = fault

unfoldable pub body_read : Session → Outcome Session
body_read s = body_read_of s.read_message_buffer.body_length s

abbrev pub read_completes : Reading → Session → Outcome Session
read_completes nothing s = ok s
read_completes header s = header_read s
read_completes body s = body_read s

abbrev pub read_fails : Reading → Session → Session
read_fails nothing s = s
read_fails other s = disconneted (record s { reading = nothing })

unfoldable pub write_message : Message → Session → Session
write_message m s = record s { written = s.written ++ wire m ∷ []; writing = suc s.writing }

abbrev pub write_ends : Bool → ℕ → Session → Session
write_ends failed zero s = s
write_ends true (suc n) s = disconneted (record s { writing = n })
write_ends false (suc n) s = record s { writing = n }

unfoldable pub close : Session → Session
close s = record s { status = closed }

pub data Event : Type 0 where
  arrives : Bytes → Event
  reads : Event
  fails_to_read : Event
  writes : Message → Event
  write_done : Bool → Event
  closes : Event

unfoldable pub handle : Event → Session → Outcome Session
handle (arrives bytes) s = ok (record s { input = s.input ++ bytes })
handle reads s = read_completes s.reading s
handle fails_to_read s = ok (read_fails s.reading s)
handle (writes m) s = ok (write_message m s)
handle (write_done failed) s = ok (write_ends failed s.writing s)
handle closes s = ok (close s)

unfoldable pub run : List Event → Session → Outcome Session
run [] s = ok s
run (e ∷ es) s = do s' ← handle e s; run es s'
