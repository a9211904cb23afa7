-- ===== src/Storage/Files.antt =====
-- MetadataStorage and LogEntryStorage of src/flowmq/log_entry_storage.cpp. A file is its content, or
-- none when there is no such file. How the generated code turns a LogEntry into bytes is a parameter.
use flowmq.Base.{
  ℤ, pos, negsuc, ℕ, zero, suc, ◌-◌, ◌^◌, Bytes, List, [], ◌∷◌, ◌++◌, Option, none, some, Bool,
  ◌==◌, leb, if◌then◌else◌, Outcome, ok, fault, length, take, drop, replicate, int_max,
}
use flowmq.Protocol.{LogEntry}
use flowmq.Text.Decimal.{show_ℕ, show_ℤ, extract_int, Extracted, skip_spaces, span_digits, is_empty}

abbrev pub File : Type 0
File = Option Bytes

abbrev pub content : File → Bytes
content none = []
content (some s) = s

abbrev pub int_min : ℤ
int_min = negsuc (2 ^ 31 - 1)

-- What a failed `f >> i` stores in i: 0 without digits, else the nearest `int`.
abbrev pub overflowed : Bytes → ℤ → ℤ
overflowed [] limit = pos 0
overflowed (d ∷ ds) limit = limit

abbrev pub failed_value : Bytes → ℤ
failed_value [] = pos 0
failed_value (c ∷ s) =
    if c == 45
    then overflowed (span_digits s).0 int_min
    else if c == 43
    then overflowed (span_digits s).0 int_max
    else overflowed (span_digits (c ∷ s)).0 int_max

-- `f >> i`, with nothing stored when the stream ends before a character that is no space.
abbrev pub extract_into : Bytes → ℤ → ℤ
extract_into s i =
    if is_empty (skip_spaces s)
    then i
    else (elim (extract_int s).value [ none ↦ failed_value (skip_spaces s) | some v ↦ v ])

-- `is_open` is what the file system answers.
unfoldable pub save_metadata_to_file : Bool → ℤ → File → ℤ × File
save_metadata_to_file is_open last_committed file =
    if is_open then (pos 0, some (show_ℤ last_committed ++ 32 ∷ [])) else (pos 1, file)

unfoldable pub load_metadata_from_file : File → ℤ → ℤ × ℤ
load_metadata_from_file none last_committed = (pos 0, last_committed)
load_metadata_from_file (some s) last_committed = (pos 0, extract_into s last_committed)

-- SerializeAsString, and what a new LogEntry holds after ParseFromString.
pub record LogEntryCodec : Type 0 where
  pub serialize : LogEntry → Bytes
  pub parse : Bytes → LogEntry

-- temp.resize(n)
abbrev pub resize : ℕ → Bytes → Bytes
resize n temp = take n (temp ++ replicate n 0)

-- f.read(&temp[0], n) into a string of n bytes.
abbrev pub read_into : ℕ → Bytes → Bytes → Bytes
read_into n s temp = take n s ++ drop (length (take n s)) temp

-- A round of the loop that reads entries: it ends the loop, or leaves `temp`, the stream and the
-- entries for the next.
pub data Round : Type 0 where
  stops : Outcome (ℤ × List LogEntry) → Round
  goes_on : Bytes → Bytes → List LogEntry → Round

-- Rounds that are used up have no result.
abbrev pub result {ℓ} : {A : Type ℓ} → Option (Outcome A) → Outcome A
result none = fault
result (some r) = r

module _ (codec : LogEntryCodec) where
  unfoldable pub frames : List LogEntry → Bytes
  frames [] = []
  frames (e ∷ es) = (show_ℕ (length (codec.serialize e)) ++ 32 ∷ codec.serialize e) ++ frames es

  unfoldable pub save_log_entry_to_file : Bool → List LogEntry → File → ℤ × File
  save_log_entry_to_file is_open entries file =
      if is_open then (pos 0, some (frames entries)) else (pos 1, file)

  unfoldable pub append_log_entry_to_file : Bool → List LogEntry → File → ℤ × File
  append_log_entry_to_file is_open entries file =
      if is_open then (pos 0, some (content file ++ frames entries)) else (pos 1, file)

  -- One round, after `f >> entry_size`. A negative size makes `resize` throw. A read past the end of
  -- the file ends the loop.
  unfoldable pub read_round : Extracted → Bytes → List LogEntry → Round
  read_round x temp entries = elim x.value [
    | none ↦ stops (ok (if x.eof then pos 0 else pos 1, entries))
    | some (negsuc n) ↦ if x.eof then stops (ok (pos 0, entries)) else stops fault
    | some (pos n) ↦
        let body = drop 1 x.rest in
        let temp' = read_into n body (resize n temp) in
        let entries' = entries ++ codec.parse temp' ∷ [] in
        if x.eof
        then stops (ok (pos 0, entries))
        else if leb n (length body)
        then goes_on temp' (drop n body) entries'
        else stops (ok (pos 0, entries'))
  ]

  -- The loop of `load_log_entry_from_file`, on the number of rounds left: none when they are used up
  -- before the loop ends, else what it ends with. `temp` lives through the loop.
  unfoldable pub load_entries :
      ℕ → Bytes → Bytes → List LogEntry → Option (Outcome (ℤ × List LogEntry))
  load_entries zero temp s entries = none
  load_entries (suc fuel) temp s entries = elim (read_round (extract_int s) temp entries) [
    | stops r ↦ some r
    | goes_on temp' s' entries' ↦ load_entries fuel temp' s' entries'
  ]

  -- A round consumes a byte, so there are no more rounds than bytes, and one to see the end.
  unfoldable pub load_log_entry_from_file : File → List LogEntry → Outcome (ℤ × List LogEntry)
  load_log_entry_from_file none entries = ok (pos 1, entries)
  load_log_entry_from_file (some s) entries = result (load_entries (suc (length s)) [] s entries)
