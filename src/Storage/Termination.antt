-- ===== src/Storage/Termination.antt =====
-- The loop of load_log_entry_from_file of src/flowmq/log_entry_storage.cpp ends.
use flowmq.Base.{
  ℤ, ℕ, zero, suc, ◌<◌, ◌≤◌, Bytes, List, [], ◌∷◌, false, some, Outcome, length, drop, ◌≡◌, refl,
  ap, arith, inl, inr, ◌⊎◌,
}
use flowmq.Protocol.{LogEntry}
use flowmq.Text.Decimal.{extract_int, Extracted, skip_spaces, span_digits, is_empty, extract_signed}
use flowmq.Storage.Files.{
  LogEntryCodec, load_entries, result, load_log_entry_from_file, read_round, Round, stops, goes_on,
}

length-skip_spaces : (s : Bytes) → length (skip_spaces s) ≤ length s
unfolding skip_spaces
length-skip_spaces [] = omega arith
length-skip_spaces (c ∷ s) = ground (arith, length-skip_spaces s)

length-span_digits : (s : Bytes) → length (span_digits s).1 ≤ length s
unfolding span_digits
length-span_digits [] = omega arith
length-span_digits (c ∷ s) = ground (arith, length-span_digits s)

length-extract_signed : (s : Bytes) → length (extract_signed s).rest ≤ length s
length-extract_signed [] = omega arith
length-extract_signed (c ∷ s) = ground (arith, length-span_digits s, length-span_digits (c ∷ s))

extract_signed_eof : (s : Bytes) → (extract_signed s).eof ≡ is_empty (extract_signed s).rest
extract_signed_eof [] = refl
extract_signed_eof (c ∷ s) = ground arith

length-extract_int : (s : Bytes) → length (extract_int s).rest ≤ length s
unfolding extract_int
length-extract_int s = omega (arith, length-skip_spaces s, length-extract_signed (skip_spaces s))

extract_int_eof : (s : Bytes) → (extract_int s).eof ≡ is_empty (extract_int s).rest
unfolding extract_int
extract_int_eof s = extract_signed_eof (skip_spaces s)

length-drop : (n : ℕ) (s : Bytes) → length (drop n s) ≤ length s
length-drop zero s = omega arith
length-drop (suc n) [] = omega arith
length-drop (suc n) (x ∷ xs) = omega (arith, length-drop n xs)

length-drop_one : (n : ℕ) (s : Bytes) → is_empty s ≡ false → length (drop n (drop 1 s)) < length s
length-drop_one n [] h = cc
length-drop_one n (x ∷ xs) h = omega (arith, length-drop n xs)

Round-cases :
    (x : Round)
    → ((r : Outcome (ℤ × List LogEntry)) × (x ≡ stops r))
      ⊎ ((temp : Bytes) × (s : Bytes) × (entries : List LogEntry) × (x ≡ goes_on temp s entries))
Round-cases (stops r) = inl (r, refl)
Round-cases (goes_on temp s entries) = inr (temp, s, entries, refl)

module _ (codec : LogEntryCodec) where
  -- A round that goes on has consumed a byte.
  read_round-lt :
      (x : Extracted) (temp : Bytes) (entries : List LogEntry) {temp' s' : Bytes}
      {entries' : List LogEntry}
      → x.eof ≡ is_empty x.rest
      → read_round codec x temp entries ≡ goes_on temp' s' entries'
      → length s' < length x.rest
  unfolding read_round
  read_round-lt x temp entries h e = grind (arith, length-drop_one)

  abbrev EndsWith : Bytes → Bytes → List LogEntry → Outcome (ℤ × List LogEntry) → Type 0
  EndsWith temp s entries r =
      (fuel : ℕ) → length s < fuel → load_entries codec fuel temp s entries ≡ some r

  ends_within :
      (bound : ℕ) (temp s : Bytes) (entries : List LogEntry)
      → length s < bound
      → (r : Outcome (ℤ × List LogEntry)) × EndsWith temp s entries r
  unfolding load_entries
  ends_within zero temp s entries h = absurd (omega arith)
  ends_within (suc bound) temp s entries h =
      elim (Round-cases (read_round codec (extract_int s) temp entries)) [
        | inl (r, e) ↦ (r, stops_at_once r e)
        | inr (temp', s', entries', e) ↦
            let shorter = read_round-lt (extract_int s) temp entries (extract_int_eof s) e in
            let less : length s' < length s = omega (arith, shorter, length-extract_int s) in
            let (r, ends) = ends_within bound temp' s' entries' (omega (arith, less)) in
            (r, goes_round temp' s' entries' r e less ends)
      ]
    where
      stops_at_once :
          (r : Outcome (ℤ × List LogEntry))
          → read_round codec (extract_int s) temp entries ≡ stops r
          → EndsWith temp s entries r
      stops_at_once r e zero k = absurd (omega arith)
      stops_at_once r e (suc fuel) k = rw (load_entries, e) refl

      goes_round :
          (temp' s' : Bytes) (entries' : List LogEntry) (r : Outcome (ℤ × List LogEntry))
          → read_round codec (extract_int s) temp entries ≡ goes_on temp' s' entries'
          → length s' < length s
          → EndsWith temp' s' entries' r
          → EndsWith temp s entries r
      goes_round temp' s' entries' r e less ends zero k = absurd (omega arith)
      goes_round temp' s' entries' r e less ends (suc fuel) k =
          rw (load_entries, e) (ends fuel (omega (arith, less)))

  -- The loop ends: from any content of the file, with every number of rounds that is larger than its
  -- bytes it stops, always with one result, and that is what `load_log_entry_from_file` gives.
  pub load_entries-ends :
      (s : Bytes) (entries : List LogEntry)
      → (r : Outcome (ℤ × List LogEntry)) × ((fuel : ℕ)
          → length s < fuel
          → load_entries codec fuel [] s entries ≡ some r)
        × (load_log_entry_from_file codec (some s) entries ≡ r)
  unfolding load_log_entry_from_file
  load_entries-ends s entries =
      let (r, ends) = ends_within (suc (length s)) [] s entries (omega arith) in
      (r, ends, ap result (ends (suc (length s)) (omega arith)))
