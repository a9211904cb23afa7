-- ===== src/Session/Stream.antt =====
-- One event of a session of src/flowmq/session.cpp, and a run of them, while the bytes that arrive are
-- those of messages that another session writes.
use flowmq.Base.{
  subst, pos, ℕ, zero, suc, ◌-◌, ◌≤◌, Bytes, List, [], ◌∷◌, ◌++◌, Bool, true, false, ok, ◌≡◌, refl,
  ◌∙◌, ap, arith, length, length-append, append_assoc, All, Bool-cases, inl, inr, leb,
}
use flowmq.Session.Reads.{
  wires, bodies, Expects, Progress, header_done, body_done, header_waits, body_waits, owed,
  length-wires,
}
use flowmq.Session.{
  Status, connected, disconnected, closed, call_disconnected, disconneted, write_ends, close,
  write_message, writes, write_done, closes, fails_to_read, Event, Session, Reading, nothing,
  header, arrives, reads, handle, run, read_completes,
}

-- What a completion leads to. With nothing more to arrive it brings the end nearer.
abbrev pub Next : List Bytes → List Bytes → Reading → Session → Bytes → Type 0
Next all pending r s rest =
    (s' : Session) × (read_completes r s ≡ ok s')
    × (p : Progress all s' rest) × (rest ≡ [] → owed s'.reading p.pending ≤ owed r pending - 1)

module _ (all : List Bytes) (s : Session) (rest : Bytes)
    (room : length s.read_message_buffer.data_buffer ≡ 1020) where
  header_goes_on :
      (pending : List Bytes)
      → s.reading ≡ header
      → bodies s.handled ++ pending ≡ all
      → All (λ b. length b ≤ 1000) pending
      → s.input ++ rest ≡ wires pending
      → Next all pending header s rest
  header_goes_on [] e so_far short x = elim (Bool-cases (leb 20 (length s.input))) [
    | inl enough ↦ absurd (ground (arith, ap length x, length-append s.input rest))
    | inr waits ↦ (
      s,
      header_waits s waits,
      record { pending = []; so_far = so_far; short = short; room = room; expects = rw e x },
      λ _. rw e (omega arith),
    )
  ]
  header_goes_on (b ∷ bs) e so_far short x = elim (Bool-cases (leb 20 (length s.input))) [
    | inl enough ↦
        let (s', done, r, h, room', known, more) =
          header_done b bs s rest short.0 room x (ground arith) in
        (
          s',
          done,
          record {
            pending = b ∷ bs;
            so_far = ap (λ l. bodies l ++ b ∷ bs) h ∙ so_far;
            short = short;
            room = room';
            expects = rw r (known, more);
          },
          λ _. rw r (omega arith),
        )
    | inr waits ↦ (
      s,
      header_waits s waits,
      record { pending = b ∷ bs; so_far = so_far; short = short; room = room; expects = rw e x },
      λ z. absurd (
          ground (
            arith,
            ap length x,
            ap length z,
            length-append s.input rest,
            length-wires b bs short.0,
          )),
    )
  ]

  body_goes_on :
      (b : Bytes) (bs : List Bytes)
      → s.reading ≡ Reading.body
      → bodies s.handled ++ b ∷ bs ≡ all
      → All (λ c. length c ≤ 1000) (b ∷ bs)
      → s.read_message_buffer.body_length ≡ pos (length b)
      → s.input ++ rest ≡ b ++ wires bs
      → Next all (b ∷ bs) Reading.body s rest
  body_goes_on b bs e so_far short known x = elim (Bool-cases (leb (length b) (length s.input))) [
    | inl enough ↦
        let (s', done, r, h, room', more) =
          body_done b bs s rest short.0 room known x (ground arith) in
        (
          s',
          done,
          record {
            pending = bs;
            so_far =
                ap (λ (l : List Bytes). l ++ bs) h
                ∙ append_assoc (bodies s.handled) (b ∷ []) bs
                ∙ so_far;
            short = short.1;
            room = room';
            expects = rw r more;
          },
          λ _. rw r (omega arith),
        )
    | inr waits ↦ (
      s,
      body_waits (length b) s known waits,
      record {
        pending = b ∷ bs;
        so_far = so_far;
        short = short;
        room = room;
        expects = rw e (known, x);
      },
      λ z. absurd (
          ground (
            arith,
            ap length x,
            ap length z,
            length-append s.input rest,
            length-append b (wires bs),
          )),
    )
  ]

read_goes_on :
    (all pending : List Bytes) (r : Reading) (s : Session) (rest : Bytes)
    → s.reading ≡ r
    → bodies s.handled ++ pending ≡ all
    → All (λ b. length b ≤ 1000) pending
    → length s.read_message_buffer.data_buffer ≡ 1020
    → Expects r s.read_message_buffer s.input pending rest
    → Next all pending r s rest
read_goes_on all pending nothing s rest e so_far short room x = absurd x
read_goes_on all [] Reading.body s rest e so_far short room x = absurd x
read_goes_on all pending header s rest e so_far short room x =
    header_goes_on all s rest room pending e so_far short x
read_goes_on all (b ∷ bs) Reading.body s rest e so_far short room (known, x) =
    body_goes_on all s rest room b bs e so_far short known x

-- A completion of a read goes on with the messages, or waits.
pub reads-Progress :
    (all : List Bytes) (s : Session) (rest : Bytes) (p : Progress all s rest)
    → Next all p.pending s.reading s rest
reads-Progress all s rest p =
    read_goes_on all p.pending s.reading s rest refl p.so_far p.short p.room p.expects

-- Bytes that have arrived.
arrives-Progress :
    (all : List Bytes) (s : Session) (bytes rest : Bytes)
    → Progress all s (bytes ++ rest)
    → Progress all (record s { input = s.input ++ bytes }) rest
arrives-Progress all s bytes rest p = record {
  pending = p.pending;
  so_far = p.so_far;
  short = p.short;
  room = p.room;
  expects = more s.reading p.pending p.expects;
}
  where
    more :
        (r : Reading) (pending : List Bytes)
        → Expects r s.read_message_buffer s.input pending (bytes ++ rest)
        → Expects r s.read_message_buffer (s.input ++ bytes) pending rest
    more nothing pending x = absurd x
    more header pending x = append_assoc s.input bytes rest ∙ x
    more Reading.body [] x = absurd x
    more Reading.body (b ∷ bs) (known, x) = (known, append_assoc s.input bytes rest ∙ x)

-- What the parts of a session that writes and closes change leave as it is.
same-Progress :
    (all : List Bytes) (s s' : Session) (rest : Bytes)
    → s'.read_message_buffer ≡ s.read_message_buffer
    → s'.reading ≡ s.reading
    → s'.input ≡ s.input
    → s'.handled ≡ s.handled
    → Progress all s rest
    → Progress all s' rest
same-Progress all s s' rest a b c d p = record {
  pending = p.pending;
  so_far = ap (λ l. bodies l ++ p.pending) d ∙ p.so_far;
  short = p.short;
  room = rw a p.room;
  expects = rw (a, b, c) p.expects;
}

-- The bytes that arrive in a run, one behind the other.
abbrev pub arriving : List Event → Bytes
arriving [] = []
arriving (arrives bytes ∷ es) = bytes ++ arriving es
arriving (e ∷ es) = arriving es

abbrev pub NoFailedRead : Event → Type 0
NoFailedRead fails_to_read = ⊥
NoFailedRead e = Unit {0}

write_ends-Progress :
    (all : List Bytes) (failed : Bool) (n : ℕ) (s : Session) (rest : Bytes)
    → Progress all s rest
    → Progress all (write_ends failed n s) rest
unfolding disconneted
write_ends-Progress all failed zero s rest p = p
write_ends-Progress all false (suc n) s rest p = same-Progress all s _ rest refl refl refl refl p
write_ends-Progress all true (suc n) s rest p = down s.status
  where
    down : (t : Status) → Progress all (call_disconnected t (record s { writing = n })) rest
    down connected = same-Progress all s _ rest refl refl refl refl p
    down disconnected = same-Progress all s _ rest refl refl refl refl p
    down closed = same-Progress all s _ rest refl refl refl refl p

handle-Progress :
    (all : List Bytes) (e : Event) (es : List Event) (s : Session) (rest : Bytes)
    → NoFailedRead e
    → Progress all s (arriving (e ∷ es) ++ rest)
    → (s' : Session) × (handle e s ≡ ok s') × Progress all s' (arriving es ++ rest)
unfolding handle write_message close
handle-Progress all (arrives bytes) es s rest h p = (
  record s { input = s.input ++ bytes },
  refl,
  arrives-Progress all s bytes (arriving es ++ rest)
      (subst (Progress all s) (append_assoc bytes (arriving es) rest) p),
)
handle-Progress all reads es s rest h p =
    let (s', done, q, nearer) = reads-Progress all s (arriving es ++ rest) p in (s', done, q)
handle-Progress all fails_to_read es s rest h p = absurd h
handle-Progress all (writes m) es s rest h p =
    (write_message m s, refl, same-Progress all s _ (arriving es ++ rest) refl refl refl refl p)
handle-Progress all (write_done failed) es s rest h p = (
  write_ends failed s.writing s,
  refl,
  write_ends-Progress all failed s.writing s (arriving es ++ rest) p,
)
handle-Progress all closes es s rest h p =
    (close s, refl, same-Progress all s _ (arriving es ++ rest) refl refl refl refl p)

pub run-Progress :
    (all : List Bytes) (es : List Event) (s : Session) (rest : Bytes)
    → All NoFailedRead es
    → Progress all s (arriving es ++ rest)
    → (s' : Session) × (run es s ≡ ok s') × Progress all s' rest
unfolding run
run-Progress all [] s rest h p = (s, refl, p)
run-Progress all (e ∷ es) s rest (h, hs) p =
    let (s', done, q) = handle-Progress all e es s rest h p in
    let (t, later, r) = run-Progress all es s' rest hs q in (t, rw done later, r)
