-- ===== src/Session/Runs.antt =====
-- Runs of a session (src/flowmq/session.cpp), and its theorems at concrete inputs. The three messages
-- of the runs arrive in two pieces that end inside the second of them.
use flowmq.Base.{
  Bytes, List, [], ◌∷◌, ◌++◌, true, ok, ◌≡◌, ◌≤◌, ◌+◌, All, refl, arith, length, take, drop,
  take-append-drop,
}
use flowmq.Text.Decimal.{show_ℕ, digits}
use flowmq.Session.{
  Status, Reading, Session, new_session, start_read, Event, arrives, reads, fails_to_read, writes,
  write_done, closes, run, handle, disconneted, write_message,
}
use flowmq.Message.{new_message, wire}
use flowmq.Session.Reads.{wires, bodies}
use flowmq.Session.Disconnect.{disconnects-run, count_closes, is_down}
use flowmq.Session.Delivery.{complete_reads, stream_in_order, stream_completes}

abbrev three_bodies : List Bytes
three_bodies = (1 ∷ 2 ∷ []) ∷ [] ∷ (3 ∷ 4 ∷ 5 ∷ []) ∷ []

abbrev pieces : List Event
pieces =
    reads
    ∷ arrives (take 30 (wires three_bodies))
    ∷ reads
    ∷ reads
    ∷ writes new_message
    ∷ arrives (drop 30 (wires three_bodies))
    ∷ write_done true
    ∷ reads
    ∷ []

abbrev part : List Event
part = reads ∷ arrives (take 30 (wires three_bodies)) ∷ reads ∷ reads ∷ closes ∷ []

abbrev failing : List Event
failing = writes new_message ∷ writes new_message ∷ fails_to_read ∷ write_done true ∷ []

short_bodies : All (λ (b : Bytes). length b ≤ 1000) three_bodies
short_bodies = (omega arith, (omega arith, (omega arith, tt)))

abbrev failed : Session
failed = record (start_read new_session) {
  status = Status.disconnected;
  reading = Reading.nothing;
  disconnects = 1;
  written = wire new_message ∷ wire new_message ∷ [];
  writing = 1;
}

failing-run : run failing (start_read new_session) ≡ ok failed
unfolding run handle disconneted write_message
failing-run = refl

disconnects-run_example :
    (failed.disconnects ≤ 0 + 1 + count_closes failing)
    × (count_closes failing ≡ 0 → failed.disconnects ≡ 0 + is_down failed.status)
disconnects-run_example = disconnects-run failing (start_read new_session) failed refl failing-run

stream_in_order_example :
    (s : Session) × (run part (start_read new_session) ≡ ok s)
    × (pending : List Bytes) × (bodies s.handled ++ pending ≡ three_bodies)
unfolding show_ℕ digits
stream_in_order_example =
    stream_in_order three_bodies part (drop 30 (wires three_bodies)) short_bodies
      (tt, (tt, (tt, (tt, (tt, tt))))) (take-append-drop 30 (wires three_bodies))

stream_completes_example :
    (s : Session) × (run (pieces ++ complete_reads 6) (start_read new_session) ≡ ok s)
    × (bodies s.handled ≡ three_bodies)
unfolding show_ℕ digits
stream_completes_example =
    stream_completes three_bodies pieces short_bodies
      (tt, (tt, (tt, (tt, (tt, (tt, (tt, (tt, tt)))))))) (take-append-drop 30 (wires three_bodies))
