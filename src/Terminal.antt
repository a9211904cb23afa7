-- ===== src/Terminal.antt =====
-- src/application/client.cpp: the interactive client, line by line. The codec of messages is a
-- parameter. A `fault` is an exception, which ends the program: the thread is not joined by then.
pub mod Requests
mod Runs
use flowmq.Base.{
  ℤ, pos, minus_one, ℕ, Bytes, List, [], ◌∷◌, Option, none, some, Bool, true, false, ◌&&◌, ◌||◌,
  ◌==◌, ◌==ℤ◌, Outcome, ok, ◌>>=◌, or_fault, if◌then◌else◌, drop,
}
use flowmq.Protocol.{
  FlowMessage, raft_message, load_client_open_queue_request, load_client_commit_message_request,
  load_client_put_message_request,
}
use flowmq.Text.Atoi.{stoi}
use flowmq.Message.{FlowMessageCodec, serialize_as_message}
use flowmq.Client.{GenericClient, write_message, session_lost}

-- std::string ==, and find(word) != npos.
unfoldable pub same : Bytes → Bytes → Bool
same [] [] = true
same (x ∷ xs) (y ∷ ys) = (x == y) && same xs ys
same xs ys = false

unfoldable pub begins_with : Bytes → Bytes → Bool
begins_with [] s = true
begins_with (x ∷ xs) [] = false
begins_with (x ∷ xs) (y ∷ ys) = (x == y) && begins_with xs ys

unfoldable pub finds : Bytes → Bytes → Bool
finds word [] = begins_with word []
finds word (c ∷ s) = begins_with word (c ∷ s) || finds word s

-- "open", "commit" and "test_queue".
abbrev pub open_word : Bytes
open_word = 111 ∷ 112 ∷ 101 ∷ 110 ∷ []

abbrev pub commit_word : Bytes
commit_word = 99 ∷ 111 ∷ 109 ∷ 109 ∷ 105 ∷ 116 ∷ []

abbrev pub test_queue : Bytes
test_queue = 116 ∷ 101 ∷ 115 ∷ 116 ∷ 95 ∷ 113 ∷ 117 ∷ 101 ∷ 117 ∷ 101 ∷ []

-- What happens at the terminal: a line is typed, with whether a session of the client is lost while
-- the line is handled, or a session is lost while the program waits for a line.
pub data Input : Type 0 where
  typed : Bytes → Bool → Input
  lost : Input

module _ {Results : Type 0} where
  abbrev pub lose_if : Bool → GenericClient Results → GenericClient Results
  lose_if true client = session_lost client
  lose_if false client = client

module _ {Results : Type 0} (codec : FlowMessageCodec) where
  abbrev pub write : FlowMessage → GenericClient Results → Outcome (GenericClient Results)
  write raft_msg client = do msg ← serialize_as_message codec raft_msg; write_message msg client

  abbrev pub open_queue : Bytes → ℤ → GenericClient Results → Outcome (GenericClient Results)
  open_queue queue_name mode client =
      write
        (load_client_open_queue_request (record { open_mode = mode; queue_name = queue_name })
          raft_message)
        client

  abbrev pub commit_message : ℤ → GenericClient Results → Outcome (GenericClient Results)
  commit_message message_id client =
      write (load_client_commit_message_request (record { message_id = message_id }) raft_message)
        client

  abbrev pub put_line : Bytes → GenericClient Results → Outcome (GenericClient Results)
  put_line line client =
      write
        (load_client_put_message_request (record { message = line; message_id = none })
          raft_message)
        client

  -- The number is read after six characters, wherever the word stands in the line.
  abbrev pub commit_line : Bytes → GenericClient Results → Outcome (GenericClient Results)
  commit_line line client = do
    msg_id ← or_fault (stoi (drop 6 line))
    if msg_id ==ℤ minus_one then ok client else commit_message msg_id client

  unfoldable pub read_line : Bytes → GenericClient Results → Outcome (GenericClient Results)
  read_line line client =
      if same line open_word
      then open_queue test_queue (pos 0) client
      else (if finds commit_word line then commit_line line client else put_line line client)

  -- The loop of main tests whether the client runs before it waits for a line, and not again after.
  unfoldable pub wait : List Input → GenericClient Results → Outcome (GenericClient Results)
  wait [] client = ok client
  wait (lost ∷ rest) client = wait rest (session_lost client)
  wait (typed line drops ∷ rest) client = do
    read ← read_line line client
    let client' = lose_if drops read
    if client'.running then wait rest client' else ok client'

  unfoldable pub main_loop : List Input → GenericClient Results → Outcome (GenericClient Results)
  main_loop inputs client = if client.running then wait inputs client else ok client
