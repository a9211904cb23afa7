-- ===== src/Session/Disconnect.antt =====
-- How often a session of src/flowmq/session.cpp calls its disconnect handler.
use flowmq.Base.{ℕ, suc, ◌+◌, ◌≤◌, List, [], ◌∷◌, ok, >>=-eq-ok, ok-injective, ◌≡◌, arith}
use flowmq.Session.{
  Session, Status, connected, disconnected, Reading, Event, arrives, reads, fails_to_read, writes,
  write_done, closes, handle, run, header_read, body_read, body_bytes_read, disconneted,
  write_message, close, read_completes,
}

abbrev pub count_closes : List Event → ℕ
count_closes [] = 0
count_closes (closes ∷ es) = suc (count_closes es)
count_closes (e ∷ es) = count_closes es

-- 1 while the disconnect handler has been called and the session was not closed since.
abbrev pub is_down : Status → ℕ
is_down disconnected = 1
is_down other = 0

abbrev closing : Event → ℕ
closing closes = 1
closing e = 0

-- A read changes neither the status nor the count.
pub read_completes-same :
    (r : Reading) (s s' : Session)
    → read_completes r s ≡ ok s'
    → (s'.status ≡ s.status) × (s'.disconnects ≡ s.disconnects)
unfolding header_read body_read body_bytes_read
read_completes-same r s s' e = ground arith

-- One event, with the calls of the handler on the left.
abbrev Counts : Event → Session → Session → Type 0
Counts e s s' =
    (s'.disconnects + is_down s.status ≤ s.disconnects + is_down s'.status + closing e)
    × (closing e ≡ 0 → s'.disconnects + is_down s.status ≡ s.disconnects + is_down s'.status)

handle-Counts : (e : Event) (s s' : Session) → handle e s ≡ ok s' → Counts e s s'
unfolding handle disconneted write_message close
handle-Counts (arrives bytes) s s' e = ground arith
handle-Counts reads s s' e = ground (arith, read_completes-same s.reading s s' e)
handle-Counts fails_to_read s s' e = ground arith
handle-Counts (writes m) s s' e = ground arith
handle-Counts (write_done failed) s s' e = ground arith
handle-Counts closes s s' e = ground arith

count_closing : (e : Event) (es : List Event) → count_closes (e ∷ es) ≡ closing e + count_closes es
count_closing (arrives bytes) es = ground arith
count_closing reads es = ground arith
count_closing fails_to_read es = ground arith
count_closing (writes m) es = ground arith
count_closing (write_done failed) es = ground arith
count_closing closes es = ground arith

run-Counts :
    (es : List Event) (s s' : Session)
    → run es s ≡ ok s'
    → (s'.disconnects + is_down s.status ≤ s.disconnects + is_down s'.status + count_closes es)
      × (count_closes es ≡ 0
          → s'.disconnects + is_down s.status ≡ s.disconnects + is_down s'.status)
unfolding run
run-Counts [] s s' e = let same = ok-injective e in ground arith
run-Counts (x ∷ xs) s s' e =
    let (u, first, rest) = >>=-eq-ok (handle x s) (run xs) e in
    let now = handle-Counts x s u first in
    let later = run-Counts xs u s' rest in
    (
      omega (arith, count_closing x xs, now, later),
      λ z.
          let c : closing x ≡ 0 = omega (arith, count_closing x xs, z) in
          let d : count_closes xs ≡ 0 = omega (arith, count_closing x xs, z) in
          omega (arith, now.1 c, later.1 d),
    )

-- However reads and writes fail in a run that returns: a session that was connected at first calls
-- its disconnect handler at most once, and once more for each call of `close`; without any `close`
-- it has called it once if it is disconnected in the end, and not at all otherwise.
pub disconnects-run :
    (es : List Event) (s s' : Session)
    → s.status ≡ connected
    → run es s ≡ ok s'
    → (s'.disconnects ≤ s.disconnects + 1 + count_closes es)
      × (count_closes es ≡ 0 → s'.disconnects ≡ s.disconnects + is_down s'.status)
disconnects-run es s s' up e = ground (arith, run-Counts es s s' e)
