-- ===== src/Session/Reads.antt =====
-- The completion of one read of a session of src/flowmq/session.cpp, when the bytes are those of
-- messages that another session writes.
use flowmq.Base.{
  pos, negsuc, take-append-drop, take-append_front, drop-append_front, ℕ, ◌+◌, ◌-◌, ◌*◌, ◌≤◌, Bytes,
  List, [], ◌∷◌, ◌++◌, true, false, ok, ◌≡◌, refl, sym, ◌∙◌, ap, arith, length, take, drop,
  length-append, length-take, append_assoc, All, leb, length-drop,
}
use flowmq.Message.{Message, header_length, length_header, write_at, decode_length}
use flowmq.Message.RoundTrip.{
  frame, write_header, write_body, length-length_header, decode-length_header,
}
use flowmq.Session.{
  Session, Reading, nothing, header, body, header_read, body_read, body_bytes_read, body_read_of,
}

-- The bodies of some messages, one after the other as they go over the socket.
abbrev pub wires : List Bytes → Bytes
wires [] = []
wires (b ∷ bs) = frame b ++ wires bs

-- The body of a message that was handled.
abbrev pub body_of : Message → Bytes
body_of m = elim m.body_length [ pos n ↦ take n (drop header_length m.data_buffer) | negsuc n ↦ [] ]

abbrev pub bodies : List Message → List Bytes
bodies [] = []
bodies (m ∷ ms) = body_of m ∷ bodies ms

bodies-snoc :
    (ms : List Message) (m : Message) → bodies (ms ++ m ∷ []) ≡ bodies ms ++ body_of m ∷ []
bodies-snoc [] m = refl
bodies-snoc (x ∷ ms) m = ap (◌∷◌ (body_of x)) (bodies-snoc ms m)

-- What is to be read are the messages of the list, the first of which may be read in part; `rest` is
-- still to arrive.
abbrev pub Expects : Reading → Message → Bytes → List Bytes → Bytes → Type 0
Expects header m input pending rest = input ++ rest ≡ wires pending
Expects body m input (b ∷ bs) rest =
    (m.body_length ≡ pos (length b)) × (input ++ rest ≡ b ++ wires bs)
Expects body m input [] rest = ⊥
Expects nothing m input pending rest = ⊥

pub record Progress (all : List Bytes) (s : Session) (rest : Bytes) : Type 0 where
  pub pending : List Bytes
  pub so_far : bodies s.handled ++ pending ≡ all
  pub short : All (λ b. length b ≤ 1000) pending
  pub room : length s.read_message_buffer.data_buffer ≡ 1020
  pub expects : Expects s.reading s.read_message_buffer s.input pending rest

pub split_at :
    (xs ys h t : Bytes)
    → xs ++ ys ≡ h ++ t
    → length h ≤ length xs
    → (take (length h) xs ≡ h) × (drop (length h) xs ++ ys ≡ t)
split_at xs ys [] t e l = (refl, e)
split_at [] ys (c ∷ h) t e l = absurd (omega arith)
split_at (x ∷ xs) ys (c ∷ h) t e l =
    let tails : xs ++ ys ≡ h ++ t = cc in
    let heads : x ≡ c = cc in
    let (a, b) = split_at xs ys h t tails (omega arith) in (rw (heads, a) refl, b)

-- The header of the next message has arrived whole.
pub header_done :
    (b : Bytes) (bs : List Bytes) (s : Session) (rest : Bytes)
    → length b ≤ 1000
    → length s.read_message_buffer.data_buffer ≡ 1020
    → s.input ++ rest ≡ frame b ++ wires bs
    → 20 ≤ length s.input
    → (s' : Session) × (header_read s ≡ ok s')
      × (s'.reading ≡ Reading.body)
      × (s'.handled ≡ s.handled)
      × (length s'.read_message_buffer.data_buffer ≡ 1020)
      × (s'.read_message_buffer.body_length ≡ pos (length b))
      × (s'.input ++ rest ≡ b ++ wires bs)
unfolding header_read decode_length
header_done b bs s rest small room e enough =
    let n = length b in
    let h = length-length_header n small in
    let (front, back) =
      split_at s.input rest (length_header n) (b ++ wires bs)
        (e ∙ append_assoc (length_header n) b (wires bs)) (omega (arith, h)) in
    let taken : take 20 s.input ≡ length_header n = ap (λ k. take k s.input) (sym h) ∙ front in
    let dropped : drop 20 s.input ++ rest ≡ b ++ wires bs =
      ap (λ k. drop k s.input ++ rest) (sym h) ∙ back in
    let fits : leb 20 (length s.input) ≡ true = ground arith in
    let old = drop 20 s.read_message_buffer.data_buffer in
    (
      record s {
        read_message_buffer = record { body_length = pos n; data_buffer = length_header n ++ old };
        input = drop 20 s.input;
        reading = Reading.body;
      },
      rw (fits, taken, write_header n s.read_message_buffer.data_buffer room small)
          (rw (decode-length_header n old small) refl),
      refl,
      refl,
      omega (
        arith,
        h,
        room,
        length-append (length_header n) old,
        length-drop 20 s.read_message_buffer.data_buffer,
      ),
      refl,
      dropped,
    )

-- The buffer after the body is read into it, and what the handler finds there.
body_filled :
    (n : ℕ) (b buffer : Bytes)
    → length b ≡ n
    → n ≤ 1000
    → length buffer ≡ 1020
    → (buffer' : Bytes) × (write_at 20 b buffer ≡ ok buffer')
      × (length buffer' ≡ 1020)
      × (take n (drop 20 buffer') ≡ b)
body_filled n b buffer e small room =
    let front = take 20 buffer in
    let back = drop 20 buffer in
    let front_length : length front ≡ 20 = length-take 20 buffer (omega (arith, room)) in
    let back_length : length back ≡ 1000 = omega (arith, length-drop 20 buffer, room) in
    let filled = front ++ (b ++ drop (length b) back) in
    (
      filled,
      ap (write_at 20 b) (sym (take-append-drop 20 buffer))
          ∙ write_body front b back front_length back_length (omega arith),
      omega (
        arith,
        front_length,
        back_length,
        length-append front (b ++ drop (length b) back),
        length-append b (drop (length b) back),
        length-drop (length b) back,
      ),
      rw (drop-append_front 20 front (b ++ drop (length b) back) front_length)
          (take-append_front n b (drop (length b) back) e),
    )

known_length :
    (n : ℕ) (s : Session)
    → s.read_message_buffer.body_length ≡ pos n
    → body_read s ≡ body_bytes_read n s
unfolding body_read
known_length n s e = ap (λ i. body_read_of i s) e

-- The body of a message has arrived whole.
pub body_done :
    (b : Bytes) (bs : List Bytes) (s : Session) (rest : Bytes)
    → length b ≤ 1000
    → length s.read_message_buffer.data_buffer ≡ 1020
    → s.read_message_buffer.body_length ≡ pos (length b)
    → s.input ++ rest ≡ b ++ wires bs
    → length b ≤ length s.input
    → (s' : Session) × (body_read s ≡ ok s')
      × (s'.reading ≡ header)
      × (bodies s'.handled ≡ bodies s.handled ++ b ∷ [])
      × (length s'.read_message_buffer.data_buffer ≡ 1020)
      × (s'.input ++ rest ≡ wires bs)
unfolding body_bytes_read
body_done b bs s rest small room known e enough =
    let n = length b in
    let (front, back) = split_at s.input rest b (wires bs) e enough in
    let (buffer, wrote, size, found) =
      body_filled n b s.read_message_buffer.data_buffer refl small room in
    let fits : leb n (length s.input) ≡ true = ground arith in
    let m : Message = record s.read_message_buffer { data_buffer = buffer } in
    (
      record s {
        read_message_buffer = m;
        input = drop n s.input;
        handled = s.handled ++ m ∷ [];
        reading = header;
      },
      known_length n s known ∙ rw (fits, front, wrote) refl,
      refl,
      bodies-snoc s.handled m ∙ rw (known, body_of) (rw found refl),
      size,
      back,
    )

pub header_waits : (s : Session) → leb 20 (length s.input) ≡ false → header_read s ≡ ok s
unfolding header_read
header_waits s h = rw h refl

pub body_waits :
    (n : ℕ) (s : Session)
    → s.read_message_buffer.body_length ≡ pos n
    → leb n (length s.input) ≡ false
    → body_read s ≡ ok s
unfolding body_bytes_read
body_waits n s e h = known_length n s e ∙ rw h refl

-- How many completions of reads the messages still need.
abbrev pub owed : Reading → List Bytes → ℕ
owed Reading.body pending = 2 * length pending - 1
owed other pending = 2 * length pending

pub length-wires :
    (b : Bytes) (bs : List Bytes) → length b ≤ 1000 → 20 + length b ≤ length (wires (b ∷ bs))
length-wires b bs small = omega (
  arith,
  length-append (frame b) (wires bs),
  length-append (length_header (length b)) b,
  length-length_header (length b) small,
)
