-- ===== src/Session/Delivery.antt =====
-- What a session of src/flowmq/session.cpp makes of the bytes that another session writes, in whatever
-- pieces they arrive.
use flowmq.Base.{
  ok-injective, length-replicate, ℕ, zero, suc, ◌*◌, ◌≤◌, Bytes, List, [], ◌∷◌, ◌++◌, ok, >>=-eq-ok,
  ◌≡◌, refl, sym, ◌∙◌, ap, arith, length, length-append, append-nil, All, replicate,
}
use flowmq.Message.{Message}
use flowmq.Session.Reads.{wires, bodies, Expects, Progress, owed}
use flowmq.Session.{
  Event, new_session, start_read, Session, Reading, nothing, header, reads, handle, run,
}
use flowmq.Session.Stream.{arriving, NoFailedRead, run-Progress, reads-Progress}

start-Progress :
    (all : List Bytes) (rest : Bytes)
    → All (λ b. length b ≤ 1000) all
    → rest ≡ wires all
    → Progress all (start_read new_session) rest
start-Progress all rest short e = record {
  pending = all;
  so_far = refl;
  short = short;
  room = length-replicate {A = ℕ} 1020 0;
  expects = e;
}

-- A new session that starts to read, when what arrives are the first bytes of messages of at most 1000
-- bytes each, `rest` not arrived yet, and no read fails: in whatever pieces the bytes arrive and
-- wherever reads, writes and closes stand between them, the run returns, and the bodies that were
-- handled are those of the messages, in order, from the first one on.
pub stream_in_order :
    (all : List Bytes) (es : List Event) (rest : Bytes)
    → All (λ b. length b ≤ 1000) all
    → All NoFailedRead es
    → arriving es ++ rest ≡ wires all
    → (s : Session) × (run es (start_read new_session) ≡ ok s)
      × (pending : List Bytes) × (bodies s.handled ++ pending ≡ all)
stream_in_order all es rest short h e =
    let (s, done, p) =
      run-Progress all es (start_read new_session) rest h
        (start-Progress all (arriving es ++ rest) short e) in
    (s, done, p.pending, p.so_far)

-- So many reads.
abbrev pub complete_reads : ℕ → List Event
complete_reads n = replicate n reads

nothing_owed :
    (r : Reading) (m : Message) (input : Bytes) (pending : List Bytes)
    → Expects r m input pending []
    → owed r pending ≡ 0
    → pending ≡ []
nothing_owed r m input [] x z = refl
nothing_owed header m input (b ∷ bs) x z = absurd (omega arith)
nothing_owed Reading.body m input (b ∷ bs) x z = absurd (omega arith)
nothing_owed nothing m input (b ∷ bs) x z = absurd x

all_read :
    (all : List Bytes) (fuel : ℕ) (s : Session) (p : Progress all s [])
    → owed s.reading p.pending ≤ fuel
    → (s' : Session) × (run (complete_reads fuel) s ≡ ok s') × (bodies s'.handled ≡ all)
unfolding run handle
all_read all zero s p h =
    let none_left =
      nothing_owed s.reading s.read_message_buffer s.input p.pending p.expects (omega arith) in
    (
      s,
      refl,
      sym (append-nil (bodies s.handled))
          ∙ ap (λ l. bodies s.handled ++ l) (sym none_left)
          ∙ p.so_far,
    )
all_read all (suc fuel) s p h =
    let (s', done, q, nearer) = reads-Progress all s [] p in
    let (t, later, r) = all_read all fuel s' q (omega (arith, nearer refl)) in (t, rw done later, r)

run-append : (xs ys : List Event) (s s' : Session) → run xs s ≡ ok s' → run (xs ++ ys) s ≡ run ys s'
unfolding run
run-append [] ys s s' e = ap (run ys) (ok-injective e)
run-append (x ∷ xs) ys s s' e =
    let (u, first, rest) = >>=-eq-ok (handle x s) (run xs) e in
    rw first (run-append xs ys u s' rest)

owed-bound : (r : Reading) (pending : List Bytes) → owed r pending ≤ 2 * length pending
owed-bound nothing pending = omega arith
owed-bound header pending = omega arith
owed-bound Reading.body pending = omega arith

-- After any run of a new session without a failed read in which all the bytes of the messages, of at
-- most 1000 bytes each, have arrived, twice as many completions of reads as there are messages
-- suffice: then the bodies handled are those of all the messages, each once and in order.
pub stream_completes :
    (all : List Bytes) (es : List Event)
    → All (λ b. length b ≤ 1000) all
    → All NoFailedRead es
    → arriving es ≡ wires all
    → (s : Session) × (run (es ++ complete_reads (2 * length all)) (start_read new_session) ≡ ok s)
      × (bodies s.handled ≡ all)
stream_completes all es short h e =
    let begin = start-Progress all (arriving es ++ []) short (append-nil (arriving es) ∙ e) in
    let (s, done, p) = run-Progress all es (start_read new_session) [] h begin in
    let pending : owed s.reading p.pending ≤ 2 * length all = omega (
      arith,
      owed-bound s.reading p.pending,
      ap length p.so_far,
      length-append (bodies s.handled) p.pending,
    ) in
    let (t, later, finished) = all_read all (2 * length all) s p pending in
    (
      t,
      run-append es (complete_reads (2 * length all)) (start_read new_session) s done ∙ later,
      finished,
    )
