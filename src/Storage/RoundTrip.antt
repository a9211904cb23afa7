-- ===== src/Storage/RoundTrip.antt =====
-- What src/flowmq/log_entry_storage.cpp writes it reads back.
use flowmq.Base.{
  some, drop-append_front, length-replicate, drop_all, ℤ, pos, ℕ, zero, suc, ◌^◌, ◌<◌, Bytes, List,
  [], ◌∷◌, ◌++◌, none, some, true, false, leb, ok, length, replicate, ◌≡◌, refl, sym, ◌∙◌, ap,
  arith, All, append_assoc, append-nil, length-append, take-append_length, length-take,
}
use flowmq.Protocol.{LogEntry}
use flowmq.Text.Decimal.{
  show_ℕ, show_ℤ, extract_int, skip_spaces, extract_int-show_ℕ, extract_int-show_ℤ, IsInt,
}
use flowmq.Storage.Files.{
  File, LogEntryCodec, frames, append_log_entry_to_file, load_entries, result,
  load_log_entry_from_file, resize, read_into, read_round, goes_on, save_metadata_to_file,
  load_metadata_from_file, extract_into,
}

length-resize : (n : ℕ) (temp : Bytes) → length (resize n temp) ≡ n
length-resize n temp =
    length-take n (temp ++ replicate n 0)
      (omega (arith, length-append temp (replicate n 0), length-replicate {A = ℕ} n 0))

-- A read of as many bytes as are asked for leaves nothing of the old string.
read_into-append :
    (b rest temp : Bytes) → read_into (length b) (b ++ rest) (resize (length b) temp) ≡ b
read_into-append b rest temp = rw (take-append_length b rest) (
    rw (drop_all (length b) (resize (length b) temp) (omega (arith, length-resize (length b) temp)))
      (append-nil b))

module _ (codec : LogEntryCodec) where
  -- What the format asks of an entry: its bytes are read back, and their number is an `int`.
  abbrev pub IsStorable : LogEntry → Type 0
  IsStorable e = (codec.parse (codec.serialize e) ≡ e) × (length (codec.serialize e) < 2 ^ 31)

  pub frames-append :
      (es fs : List LogEntry) → frames codec (es ++ fs) ≡ frames codec es ++ frames codec fs
  unfolding frames
  frames-append [] fs = refl
  frames-append (e ∷ es) fs = rw (frames-append es fs) (
      sym (
        append_assoc (show_ℕ (length (codec.serialize e)) ++ 32 ∷ codec.serialize e)
          (frames codec es) (frames codec fs)))

  length-body : (b rest : Bytes) → leb (length b) (length (b ++ rest)) ≡ true
  length-body b rest = ground (arith, length-append b rest)

  read_round-whole :
      (temp rest : Bytes) (e : LogEntry) (entries : List LogEntry)
      → IsStorable e
      → let b = codec.serialize e in
        read_round codec
          (record { value = some (pos (length b)); rest = 32 ∷ b ++ rest; eof = false })
          temp
          entries
        ≡ goes_on b rest (entries ++ e ∷ [])
  unfolding read_round
  read_round-whole temp rest e entries (parses, small) =
      let b = codec.serialize e in
      rw
        (
          read_into-append b rest temp,
          length-body b rest,
          drop-append_front (length b) b rest refl,
          parses,
        )
        refl

  -- One entry is read, and the loop goes on behind it.
  load_entry :
      (fuel : ℕ) (temp rest : Bytes) (e : LogEntry) (entries : List LogEntry)
      → IsStorable e
      → load_entries codec
          (suc fuel)
          temp
          ((show_ℕ (length (codec.serialize e)) ++ 32 ∷ codec.serialize e) ++ rest)
          entries
        ≡ load_entries codec fuel (codec.serialize e) rest (entries ++ e ∷ [])
  unfolding load_entries
  load_entry fuel temp rest e entries s =
      let b = codec.serialize e in
      let size : extract_int ((show_ℕ (length b) ++ 32 ∷ b) ++ rest)
          ≡ record { value = some (pos (length b)); rest = 32 ∷ b ++ rest; eof = false } =
        ap extract_int (append_assoc (show_ℕ (length b)) (32 ∷ b) rest)
        ∙ extract_int-show_ℕ (length b) (b ++ rest) s.1 in
      rw (load_entries, size) (rw (read_round-whole temp rest e entries s) refl)

  pub load_frames :
      (fuel : ℕ) (temp : Bytes) (es entries : List LogEntry)
      → length (frames codec es) < fuel
      → All IsStorable es
      → load_entries codec fuel temp (frames codec es) entries ≡ some (ok (pos 0, entries ++ es))
  unfolding frames load_entries read_round extract_int skip_spaces
  load_frames zero temp es entries h a = absurd (omega arith)
  load_frames (suc fuel) temp [] entries h a = rw (append-nil entries) refl
  load_frames (suc fuel) temp (e ∷ es) entries h (s, ss) =
      load_entry fuel temp (frames codec es) e entries s
      ∙ load_frames fuel (codec.serialize e) es (entries ++ e ∷ []) (shorter h) ss
      ∙ ap (λ l. some (ok (pos 0, l))) (append_assoc entries (e ∷ []) es)
    where
      shorter :
          length
              ((show_ℕ (length (codec.serialize e)) ++ 32 ∷ codec.serialize e) ++ frames codec es)
            < suc fuel
          → length (frames codec es) < fuel
      shorter g = omega (
        arith,
        length-append (show_ℕ (length (codec.serialize e)) ++ 32 ∷ codec.serialize e)
            (frames codec es),
        length-append (show_ℕ (length (codec.serialize e))) (32 ∷ codec.serialize e),
      )

  -- Batches appended one after the other.
  unfoldable pub append_all : List (List LogEntry) → File → File
  append_all [] file = file
  append_all (batch ∷ rest) file =
      append_all rest (append_log_entry_to_file codec true batch file).1

  abbrev pub concat : List (List LogEntry) → List LogEntry
  concat [] = []
  concat (batch ∷ rest) = batch ++ concat rest

  append_all-some :
      (batches : List (List LogEntry)) (s : Bytes)
      → append_all batches (some s) ≡ some (s ++ frames codec (concat batches))
  unfolding append_all append_log_entry_to_file frames
  append_all-some [] s = ap some (sym (append-nil s))
  append_all-some (batch ∷ rest) s =
      append_all-some rest (s ++ frames codec batch)
      ∙ ap some (
          append_assoc s (frames codec batch) (frames codec (concat rest))
          ∙ ap (λ (t : Bytes). s ++ t) (sym (frames-append batch (concat rest))))

  -- Entries whose bytes the codec reads back, in numbers that an `int` holds, are appended in batches
  -- to a new file: to load the file returns 0 and gives them all, in order, behind what was there.
  pub load-append_all :
      (batch : List LogEntry) (batches : List (List LogEntry)) (entries : List LogEntry)
      → All IsStorable (concat (batch ∷ batches))
      → load_log_entry_from_file codec (append_all (batch ∷ batches) none) entries
        ≡ ok (pos 0, entries ++ concat (batch ∷ batches))
  unfolding append_log_entry_to_file load_log_entry_from_file append_all
  load-append_all batch batches entries a =
      let file =
        append_all-some batches (frames codec batch)
        ∙ ap some (sym (frames-append batch (concat batches))) in
      rw file (
        ap result (
          load_frames (suc (length (frames codec (concat (batch ∷ batches))))) []
            (concat (batch ∷ batches)) entries (omega arith) a))

extract_into-read :
    (s : Bytes) (old i : ℤ) (rest : Bytes)
    → extract_int s ≡ record { value = some i; rest = rest; eof = false }
    → extract_into s old ≡ i
unfolding extract_int
extract_into-read s old i rest e = ground arith

-- The commit index, an `int`, is read back from a file that could be written, whatever it held.
pub load-save_metadata :
    (i old : ℤ) (file : File)
    → IsInt i
    → load_metadata_from_file (save_metadata_to_file true i file).1 old ≡ (pos 0, i)
unfolding load_metadata_from_file save_metadata_to_file
load-save_metadata i old file h =
    ap (λ v. (pos 0, v))
      (extract_into-read (show_ℤ i ++ 32 ∷ []) old i (32 ∷ []) (extract_int-show_ℤ i [] h))
