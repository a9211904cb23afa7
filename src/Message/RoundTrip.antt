-- ===== src/Message/RoundTrip.antt =====
-- What src/flowmq/message.hpp and raft_message.hpp put into a message they get out of it.
use flowmq.Base.{
  drop-append_back, drop-append_front, take-append_front, length-drop, length-replicate, pos, ℕ,
  zero, suc, ◌+◌, ◌-◌, ◌*◌, ◌/◌, ◌%◌, ◌^◌, ◌≤◌, ◌<◌, Bytes, [], ◌∷◌, ◌++◌, true, ok, fault, leb,
  length, take, drop, replicate, ◌≡◌, refl, sym, ◌∙◌, ap, arith, length-append, append_assoc,
}
use flowmq.Protocol.{FlowMessage}
use flowmq.Text.Decimal.{show_ℕ, digits}
use flowmq.Text.Atoi.{atoi, atoi-show_ℕ}
use flowmq.Message.{
  Message, new_message, header_length, max_body_length, body, write_at, length_header,
  set_body_length, wire, FlowMessageCodec, serialize_to_message, serialize_as_message,
  deserialize_from_message, to_int,
}

-- Only the rest of a size by 2^32 is left in an `int`.
to_int-rest : (r k : ℕ) → r < 2 ^ 31 → {n : ℕ} → n ≡ r + k * 2 ^ 32 → to_int n ≡ pos r
to_int-rest r k h {n} e = let rest : n % 2 ^ 32 ≡ r = omega arith in ground (arith, rest)

-- At most k digits.
abbrev Short : ℕ → ℕ → Type 0
Short k n = (fuel : ℕ) (acc : Bytes) → length (digits fuel n acc) ≤ k + length acc

digit-Short : (n : ℕ) → n < 10 → Short 1 n
unfolding digits
digit-Short n h zero acc = omega arith
digit-Short n h (suc fuel) acc = ground arith

longer : (b k : ℕ) → ((m : ℕ) → m < b → Short k m) → (n : ℕ) → n < 10 * b → Short (suc k) n
unfolding digits
longer b k shorter n h zero acc = omega arith
longer b k shorter n h (suc fuel) acc =
    ground (arith, shorter (n / 10) (omega arith) fuel ((48 + n % 10) ∷ acc))

pub length-show_ℕ : (n : ℕ) → n ≤ 1000 → length (show_ℕ n) ≤ 4
unfolding show_ℕ
length-show_ℕ n h =
    longer 1000 3 (longer 100 2 (longer 10 1 digit-Short)) n (omega arith) (suc n) []

pub length-length_header : (n : ℕ) → n ≤ 1000 → length (length_header n) ≡ header_length
length-length_header n h = omega (
  arith,
  length-show_ℕ n h,
  length-append (show_ℕ n) (replicate (20 - length (show_ℕ n)) 0),
  length-replicate {A = ℕ} (20 - length (show_ℕ n)) 0,
)

-- What a message with these bytes for its body goes out as.
abbrev pub frame : Bytes → Bytes
frame bytes = length_header (length bytes) ++ bytes

pub write_header :
    (n : ℕ) (buffer : Bytes)
    → length buffer ≡ 1020
    → n ≤ 1000
    → write_at 0 (length_header n) buffer ≡ ok (length_header n ++ drop 20 buffer)
unfolding write_at
write_header n buffer h k = rw (length-length_header n k, h) refl

pub write_body :
    (first bytes rest : Bytes)
    → length first ≡ 20
    → length rest ≡ 1000
    → length bytes ≤ 1000
    → write_at 20 bytes (first ++ rest) ≡ ok (first ++ (bytes ++ drop (length bytes) rest))
unfolding write_at
write_body first bytes rest h k l =
    let fits : leb (20 + length bytes) (length (first ++ rest)) ≡ true =
      ground (arith, length-append first rest) in
    rw (fits, take-append_front 20 first rest h, drop-append_back 20 (length bytes) first rest h)
      refl

-- A header is read as the number in it, whatever is behind it.
pub decode-length_header :
    (n : ℕ) (rest : Bytes) → n ≤ 1000 → atoi (length_header n ++ rest) ≡ ok (pos n)
decode-length_header n rest h =
    let zeros : 20 - length (show_ℕ n) ≡ suc (19 - length (show_ℕ n)) =
      omega (arith, length-show_ℕ n h) in
    rw (zeros, append_assoc (show_ℕ n) (0 ∷ replicate (19 - length (show_ℕ n)) 0) rest)
      (atoi-show_ℕ n (replicate (19 - length (show_ℕ n)) 0 ++ rest) (omega arith))

-- A size whose rest is more than a body holds is no length, as it is or as a negative number.
refused :
    (r k n : ℕ) (msg : Message)
    → 1000 < r
    → r < 2 ^ 32
    → n ≡ r + k * 2 ^ 32
    → set_body_length (to_int n) msg ≡ fault
unfolding set_body_length
refused r k n msg long small e = let rest : n % 2 ^ 32 ≡ r = omega arith in ground (arith, rest)

module _ (codec : FlowMessageCodec) where
  -- What `serialize_to_message` makes of a buffer that it can use, when r is the length.
  serialize_to_message-rest :
      (m : FlowMessage) (msg : Message) (k r : ℕ)
      → length msg.data_buffer ≡ 1020
      → length (codec.serialize m) ≡ r + k * 2 ^ 32
      → r ≤ 1000
      → let bytes = codec.serialize_to_array m r in
        serialize_to_message codec m msg
        ≡ ok (record {
          body_length = pos r;
          data_buffer = length_header r ++ (bytes ++ drop (length bytes) (drop 20 msg.data_buffer));
        })
  unfolding serialize_to_message set_body_length
  serialize_to_message-rest m msg k r h size small =
      let bytes = codec.serialize_to_array m r in
      let short : leb r 1000 ≡ true = ground arith in
      let len : to_int (length (codec.serialize m)) ≡ pos r = to_int-rest r k (omega arith) size in
      rw len (
        rw (short, write_header r msg.data_buffer h small)
          (rw
            (write_body (length_header r) bytes (drop 20 msg.data_buffer)
              (length-length_header r small) (omega (arith, length-drop 20 msg.data_buffer, h))
              (omega (arith, codec.stays_inside m r)))
            refl))

  -- The same of a message that is short enough.
  pub serialize_to_message_lem :
      (m : FlowMessage) (msg : Message)
      → length msg.data_buffer ≡ 1020
      → length (codec.serialize m) ≤ 1000
      → let bytes = codec.serialize m in
        serialize_to_message codec m msg
        ≡ ok (record {
          body_length = pos (length bytes);
          data_buffer =
              length_header (length bytes)
              ++ (bytes ++ drop (length bytes) (drop 20 msg.data_buffer));
        })
  serialize_to_message_lem m msg h k =
      let bytes = codec.serialize m in
      serialize_to_message-rest m msg 0 (length bytes) h (omega arith) k
      ∙ ap
          (λ (b : Bytes). ok (record {
            body_length = pos (length bytes);
            data_buffer =
                length_header (length bytes) ++ (b ++ drop (length b) (drop 20 msg.data_buffer));
          }))
          (codec.fits_whole m (length bytes) (omega arith))

  -- The frame of the body, as a buffer with anything behind it.
  abbrev pub framed : Bytes → Bytes → Message
  framed bytes rest = record {
    body_length = pos (length bytes);
    data_buffer = length_header (length bytes) ++ (bytes ++ rest);
  }

  wire-framed : (bytes rest : Bytes) → length bytes ≤ 1000 → wire (framed bytes rest) ≡ frame bytes
  wire-framed bytes rest h =
      ap (take (20 + length bytes)) (sym (append_assoc (length_header (length bytes)) bytes rest))
      ∙ take-append_front (20 + length bytes) (frame bytes) rest (
          omega (
            arith,
            length-append (length_header (length bytes)) bytes,
            length-length_header (length bytes) h,
          ))

  body-framed :
      (bytes rest : Bytes) → length bytes ≤ 1000 → body (framed bytes rest) ≡ bytes ++ rest
  body-framed bytes rest h =
      drop-append_front 20 (length_header (length bytes)) (bytes ++ rest)
        (length-length_header (length bytes) h)

  deserialize-framed :
      (bytes rest : Bytes)
      → length bytes ≤ 1000
      → deserialize_from_message codec (framed bytes rest) ≡ ok (codec.parse bytes)
  unfolding deserialize_from_message
  deserialize-framed bytes rest h =
      let fits : leb (length bytes) (length (bytes ++ rest)) ≡ true =
        ground (arith, length-append bytes rest) in
      rw (body-framed bytes rest h)
        (rw (fits, take-append_front (length bytes) bytes rest refl) refl)

  -- The codec reads the message back, from at most max_body_length bytes.
  abbrev pub IsSendable : FlowMessage → Type 0
  IsSendable m =
      (codec.parse (codec.serialize m) ≡ m) × (length (codec.serialize m) ≤ max_body_length)

  -- A message whose bytes the codec reads back, of which there are at most 1000, is serialized: what
  -- goes out is the header and these bytes, and to deserialize the buffer gives the message.
  pub deserialize-serialize :
      (m : FlowMessage)
      → IsSendable m
      → (msg : Message) × (serialize_as_message codec m ≡ ok msg)
        × (wire msg ≡ frame (codec.serialize m))
        × (deserialize_from_message codec msg ≡ ok m)
  unfolding serialize_as_message
  deserialize-serialize m (parses, small) =
      let bytes = codec.serialize m in
      let rest = drop (length bytes) (drop 20 new_message.data_buffer) in
      (
        framed bytes rest,
        serialize_to_message_lem m new_message (length-replicate {A = ℕ} 1020 0) small,
        wire-framed bytes rest small,
        deserialize-framed bytes rest small ∙ ap ok parses,
      )

  -- A flow message of r + k * 2^32 bytes, with r below 2^32, has the length r for the buffer. Up to
  -- 1000, `serialize_to_message` succeeds, enters r as the length and leaves the buffer as large as it
  -- was; a message of r bytes (k = 0) is then the body. Above 1000 it stops at an assertion.
  pub serialize_to_message-bounds :
      (m : FlowMessage) (msg : Message) (k r : ℕ)
      → length msg.data_buffer ≡ header_length + max_body_length
      → length (codec.serialize m) ≡ r + k * 2 ^ 32
      → (r ≤ max_body_length
          → (msg' : Message) × (serialize_to_message codec m msg ≡ ok msg')
            × (length msg'.data_buffer ≡ length msg.data_buffer)
            × (msg'.body_length ≡ pos r)
            × (k ≡ 0 → take r (body msg') ≡ codec.serialize m))
        × (max_body_length < r → r < 2 ^ 32 → serialize_to_message codec m msg ≡ fault)
  serialize_to_message-bounds m msg k r h size = (fits, too_long)
    where
      bytes : Bytes
      bytes = codec.serialize_to_array m r

      buffer : Bytes
      buffer = length_header r ++ (bytes ++ drop (length bytes) (drop 20 msg.data_buffer))

      same_length : r ≤ 1000 → length buffer ≡ length msg.data_buffer
      same_length small = omega (
        arith,
        h,
        codec.stays_inside m r,
        length-append (length_header r) (bytes ++ drop (length bytes) (drop 20 msg.data_buffer)),
        length-append bytes (drop (length bytes) (drop 20 msg.data_buffer)),
        length-length_header r small,
        length-drop (length bytes) (drop 20 msg.data_buffer),
        length-drop 20 msg.data_buffer,
      )

      whole_body : r ≤ 1000 → k ≡ 0 → take r (drop 20 buffer) ≡ codec.serialize m
      whole_body small none =
          let whole : bytes ≡ codec.serialize m =
            codec.fits_whole m r (omega (arith, size, none)) in
          ap (take r) (
            drop-append_front 20 (length_header r)
              (bytes ++ drop (length bytes) (drop 20 msg.data_buffer))
              (length-length_header r small))
          ∙ take-append_front r bytes (drop (length bytes) (drop 20 msg.data_buffer))
              (omega (arith, ap length whole, size, none))
          ∙ whole

      fits :
          r ≤ 1000
          → (msg' : Message) × (serialize_to_message codec m msg ≡ ok msg')
            × (length msg'.data_buffer ≡ length msg.data_buffer)
            × (msg'.body_length ≡ pos r)
            × (k ≡ 0 → take r (body msg') ≡ codec.serialize m)
      fits small = (
        record { body_length = pos r; data_buffer = buffer },
        serialize_to_message-rest m msg k r h size small,
        same_length small,
        refl,
        whole_body small,
      )

      too_long : 1000 < r → r < 2 ^ 32 → serialize_to_message codec m msg ≡ fault
      too_long long small =
          unfold serialize_to_message in
          (rw (refused r k (length (codec.serialize m)) msg long small size) refl)
