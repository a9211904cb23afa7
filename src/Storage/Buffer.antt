-- ===== src/Storage/Buffer.antt =====
-- ClusterNodeStorage of src/flowmq/cluster_node_storage.cpp: the node fills a buffer, and a thread
-- of its own writes the buffer to the files. The mutex makes each of the two one step.
use flowmq.Base.{
  ℤ, pos, ℕ, suc, ◌-◌, Bytes, List, [], ◌∷◌, ◌++◌, none, Bool, true, Outcome, ok, fault, ◌>>=◌,
  >>=-eq-ok, if◌then◌else◌, ltb, leb, length, take, drop, ◌≡◌, refl, sym, ◌∙◌, ap, arith,
  append-nil, append_assoc, All, ok-injective, subst,
}
use flowmq.Protocol.{LogEntry}
use flowmq.Interfaces.{ClusterNodeStorageInterface}
use flowmq.Storage.Files.{
  result, load_metadata_from_file, File, content, LogEntryCodec, frames, append_log_entry_to_file,
  load_log_entry_from_file, save_metadata_to_file,
}
use flowmq.Storage.RoundTrip.{IsStorable, frames-append, load_frames}

pub record ClusterNodeStorage : Type 0 where
  pub log_entry_file : File
  pub metadata_file : File
  pub log_entry_buffers : List LogEntry
  pub metadata_buffer : ℤ

-- The entries from `first` to `last`, the latter not included.
abbrev pub slice : ℕ → ℕ → List LogEntry → List LogEntry
slice first last log = take (last - first) (drop first log)

-- The assertion holds and the iterators are inside the vector, or the behaviour is undefined.
abbrev pub entries_between : List LogEntry → ℤ → ℤ → Outcome (List LogEntry)
entries_between log (pos first) (pos last) =
    if ltb first last
    then (if leb last (length log) then ok (slice first last log) else fault)
    else fault
entries_between log first last = fault

unfoldable pub store_log_entries_and_metadata :
    List LogEntry → ℤ → ℤ → ℤ → ClusterNodeStorage → Outcome ClusterNodeStorage
store_log_entries_and_metadata log first last last_committed s = do
  entries ← entries_between log first last
  ok (record s {
    log_entry_buffers = s.log_entry_buffers ++ entries;
    metadata_buffer = last_committed;
  })

module _ (codec : LogEntryCodec) where
  -- One round of `consume_and_store_messages`. What the two writes return is not looked at.
  unfoldable pub write_buffers : Bool → Bool → ClusterNodeStorage → ClusterNodeStorage
  write_buffers log_opens metadata_opens s = record s {
    log_entry_file =
        (append_log_entry_to_file codec log_opens s.log_entry_buffers s.log_entry_file).1;
    metadata_file = (save_metadata_to_file metadata_opens s.metadata_buffer s.metadata_file).1;
    log_entry_buffers = [];
  }

  -- What a node uses of it.
  instance abbrev pub cluster_node_storage : ClusterNodeStorageInterface ClusterNodeStorage
  cluster_node_storage = record {
    load_log_entry_from_file = λ s. load_log_entry_from_file codec s.log_entry_file;
    load_metadata_from_file = λ s. load_metadata_from_file s.metadata_file;
    store_log_entries_and_metadata = store_log_entries_and_metadata;
  }

-- The steps of the node and of the thread, in the order in which they get the mutex.
pub data Step : Type 0 where
  stores : List LogEntry → ℤ → ℤ → ℤ → Step
  writes : Bool → Bool → Step

module _ (codec : LogEntryCodec) where
  abbrev pub step : Step → ClusterNodeStorage → Outcome ClusterNodeStorage
  step (stores log first last last_committed) s =
      store_log_entries_and_metadata log first last last_committed s
  step (writes log_opens metadata_opens) s = ok (write_buffers codec log_opens metadata_opens s)

  unfoldable pub steps : List Step → ClusterNodeStorage → Outcome ClusterNodeStorage
  steps [] s = ok s
  steps (x ∷ xs) s = do s' ← step x s; steps xs s'

  -- The log file can be opened whenever the thread writes.
  abbrev pub AllOpen : List Step → Type 0
  AllOpen [] = Unit {0}
  AllOpen (writes log_opens _ ∷ xs) = (log_opens ≡ true) × AllOpen xs
  AllOpen (x ∷ xs) = AllOpen xs

  abbrev or_nothing : Outcome (List LogEntry) → List LogEntry
  or_nothing (ok es) = es
  or_nothing fault = []

  abbrev stored_by : Step → List LogEntry
  stored_by (stores log first last _) = or_nothing (entries_between log first last)
  stored_by (writes _ _) = []

  -- What the node has asked to store.
  abbrev pub stored : List Step → List LogEntry
  stored [] = []
  stored (x ∷ xs) = stored_by x ++ stored xs

  -- What the log file will hold once the buffer is written.
  abbrev pub written_or_buffered : ClusterNodeStorage → Bytes
  written_or_buffered s = content s.log_entry_file ++ frames codec s.log_entry_buffers

  slice_kept :
      (log es : List LogEntry) (first last committed : ℤ) (s s' : ClusterNodeStorage)
      → entries_between log first last ≡ ok es
      → record s { log_entry_buffers = s.log_entry_buffers ++ es; metadata_buffer = committed } ≡ s'
      → written_or_buffered s'
        ≡ written_or_buffered s ++ frames codec (stored_by (stores log first last committed))
  slice_kept log es first last committed s s' got e =
      rw (← e, frames-append codec s.log_entry_buffers es)
        (sym (
            append_assoc (content s.log_entry_file) (frames codec s.log_entry_buffers)
              (frames codec es))
          ∙ ap (λ o. written_or_buffered s ++ frames codec (or_nothing o)) (sym got))

  stores_kept :
      (log : List LogEntry) (first last committed : ℤ) (s s' : ClusterNodeStorage)
      → store_log_entries_and_metadata log first last committed s ≡ ok s'
      → written_or_buffered s'
        ≡ written_or_buffered s ++ frames codec (stored_by (stores log first last committed))
  unfolding store_log_entries_and_metadata
  stores_kept log first last committed s s' e =
      let (es, got, rest) =
        >>=-eq-ok (entries_between log first last)
          (λ es. ok (record s {
            log_entry_buffers = s.log_entry_buffers ++ es;
            metadata_buffer = committed;
          }))
          e in
      slice_kept log es first last committed s s' got (ok-injective rest)

  writes_kept :
      (metadata_opens : Bool) (s : ClusterNodeStorage)
      → written_or_buffered (write_buffers codec true metadata_opens s) ≡ written_or_buffered s
  unfolding write_buffers append_log_entry_to_file frames
  writes_kept metadata_opens s = append-nil (written_or_buffered s)

  -- Nothing is lost, and nothing is written twice.
  steps_kept :
      (xs : List Step) (s s' : ClusterNodeStorage)
      → AllOpen xs
      → steps xs s ≡ ok s'
      → written_or_buffered s' ≡ written_or_buffered s ++ frames codec (stored xs)
  unfolding steps frames
  steps_kept [] s s' a e =
      subst (λ (t : ClusterNodeStorage). written_or_buffered t ≡ written_or_buffered s ++ [])
        (ok-injective e) (sym (append-nil (written_or_buffered s)))
  steps_kept (stores log first last committed ∷ xs) s s' a e =
      let (u, one, rest) =
        >>=-eq-ok (store_log_entries_and_metadata log first last committed s) (steps xs) e in
      steps_kept xs u s' a rest
      ∙ ap (λ (t : Bytes). t ++ frames codec (stored xs))
          (stores_kept log first last committed s u one)
      ∙ append_assoc (written_or_buffered s)
          (frames codec (stored_by (stores log first last committed))) (frames codec (stored xs))
      ∙ ap (λ (t : Bytes). written_or_buffered s ++ t)
          (sym (frames-append codec (stored_by (stores log first last committed)) (stored xs)))
  steps_kept (writes log_opens metadata_opens ∷ xs) s s' (opens, a) e =
      let one : written_or_buffered (write_buffers codec log_opens metadata_opens s)
          ≡ written_or_buffered s =
        rw opens (writes_kept metadata_opens s) in
      steps_kept xs (write_buffers codec log_opens metadata_opens s) s' a e
      ∙ ap (λ (t : Bytes). t ++ frames codec (stored xs)) one

  load_written :
      (s : ClusterNodeStorage) (es entries : List LogEntry)
      → written_or_buffered s ≡ frames codec es
      → All (IsStorable codec) es
      → load_log_entry_from_file codec (write_buffers codec true true s).log_entry_file entries
        ≡ ok (pos 0, entries ++ es)
  unfolding write_buffers append_log_entry_to_file load_log_entry_from_file
  load_written s es entries e a =
      rw e (
        ap result
          (load_frames codec (suc (length (frames codec es))) [] es entries (omega arith) a))

  -- A storage without a log file and with an empty buffer takes steps of the node and of the thread,
  -- in any order, that all return, and the log file can be opened each time. Once the thread has
  -- written again, a restart loads exactly the entries that the node asked to store, in that order,
  -- if the codec reads each of them back from at most INT_MAX bytes.
  pub load-steps :
      (xs : List Step) (s s' : ClusterNodeStorage) (entries : List LogEntry)
      → s.log_entry_file ≡ none
      → s.log_entry_buffers ≡ []
      → AllOpen xs
      → All (IsStorable codec) (stored xs)
      → steps xs s ≡ ok s'
      → load_log_entry_from_file codec (write_buffers codec true true s').log_entry_file entries
        ≡ ok (pos 0, entries ++ stored xs)
  unfolding frames
  load-steps xs s s' entries no_file no_buffer opens storable e =
      load_written s' (stored xs) entries
        (steps_kept xs s s' opens e ∙ rw (no_file, no_buffer) refl) storable
