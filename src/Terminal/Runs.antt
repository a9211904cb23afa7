-- ===== src/Terminal/Runs.antt =====
-- src/application/client.cpp on some lines, and its theorem there. The codec writes one byte.
use flowmq.Base.{ℕ, [], ◌∷◌, List, ok, fault, true, false, ◌≡◌, refl, length, ◌==ℤ◌}
use flowmq.Protocol.{raft_message}
use flowmq.Message.{
  FlowMessageCodec, serialize_as_message, serialize_to_message, set_body_length, write_at,
}
use flowmq.Message.Codec.{simple_codec}
use flowmq.Text.Decimal.{show_ℕ, digits, skip_spaces, span_digits, value_from}
use flowmq.Text.Atoi.{to_number}
use flowmq.Session
use flowmq.Session.{new_session, start_read}
use flowmq.Client.{GenericClient}
use flowmq.Terminal.{
  Input, typed, lost, main_loop, wait, read_line, same, finds, begins_with, open_word, commit_word,
}
use flowmq.Terminal.Requests.{main_loop-Unaddressed, AllUnaddressed}

abbrev one_byte : FlowMessageCodec
one_byte = simple_codec (λ m. 7 ∷ []) (λ s. raft_message)

abbrev at_start : GenericClient ℕ
at_start = record { running = true; sessions = start_read new_session ∷ []; endpoints = 5 }

-- "open", "commit 12", "commit-1" and "hello".
abbrev typed_lines : List Input
typed_lines =
    typed open_word false
    ∷ typed (99 ∷ 111 ∷ 109 ∷ 109 ∷ 105 ∷ 116 ∷ 32 ∷ 49 ∷ 50 ∷ []) false
    ∷ typed (99 ∷ 111 ∷ 109 ∷ 109 ∷ 105 ∷ 116 ∷ 45 ∷ 49 ∷ []) false
    ∷ lost
    ∷ typed (104 ∷ 101 ∷ 108 ∷ 108 ∷ 111 ∷ []) false
    ∷ typed open_word false
    ∷ []

abbrev at_end : GenericClient ℕ
at_end = elim (main_loop one_byte typed_lines at_start) [ ok c ↦ c | fault ↦ at_start ]

-- The line that is typed after the loss is still sent, the next one is not read.
lines_sent : length (elim at_end.sessions [ [] ↦ [] | s ∷ rest ↦ s.written ]) ≡ 3
unfolding main_loop wait read_line same finds begins_with serialize_as_message serialize_to_message
    set_body_length write_at show_ℕ digits to_number skip_spaces span_digits value_from
    Session.write_message ◌==ℤ◌
lines_sent = refl

-- "commit" without a number ends the program.
commit_without_number : main_loop one_byte (typed commit_word false ∷ []) at_start ≡ fault
unfolding main_loop wait read_line same finds begins_with to_number skip_spaces span_digits
    value_from
commit_without_number = refl

lines_run : main_loop one_byte typed_lines at_start ≡ ok at_end
unfolding main_loop wait read_line same finds begins_with serialize_as_message serialize_to_message
    set_body_length write_at show_ℕ digits to_number skip_spaces span_digits value_from
    Session.write_message ◌==ℤ◌
lines_run = refl

main_loop-Unaddressed_example : AllUnaddressed one_byte at_end
main_loop-Unaddressed_example =
    main_loop-Unaddressed one_byte typed_lines at_start at_end (tt, tt) lines_run
