-- ===== src/ClusterNode/Replay.antt =====
-- commit_log_entries of src/flowmq/cluster_node.cpp as a replay of a stretch of the log.
use flowmq.Base.{
  pos, ℕ, zero, suc, ◌<◌, List, [], ◌∷◌, none, some, ◌≡◌, refl, sym, ◌∙◌, ap, arith, get_elem?,
  take, drop, Option-cases, Bool-cases, inl, inr, if◌then◌else◌, ◌==ℤ◌, pos-+ℤ, ◌+ℤ◌,
}
use flowmq.Protocol.{LogEntry, add_operation, commit_operation}
use flowmq.MessageQueue.{MessageQueue, empty}
use flowmq.MessageQueue.Spec.{view, persisted}
use flowmq.MessageQueue.Invariant.{empty-IsValid}
use flowmq.MessageQueue.History.{
  Call, inserts, commits, step, run, AllAllowed, logged, persisted-run, SamePersisted, run_lem,
}
use flowmq.ClusterNode.Commit.{apply_entry, commit_log_entry, commit_range}

-- The entries of a stretch of the log, applied one after the other.
abbrev pub apply_all : List LogEntry → MessageQueue → MessageQueue
apply_all [] q = q
apply_all (e ∷ es) q = apply_all es (apply_entry e q)

drop-none :
    (log : List LogEntry) (i : ℕ)
    → get_elem? log i ≡ none
    → (drop i log ≡ []) × (drop (suc i) log ≡ [])
drop-none [] zero h = (refl, refl)
drop-none [] (suc i) h = (refl, refl)
drop-none (x ∷ xs) zero h = cc
drop-none (x ∷ xs) (suc i) h = drop-none xs i h

drop-some :
    (log : List LogEntry) (i : ℕ) (e : LogEntry)
    → get_elem? log i ≡ some e
    → drop i log ≡ e ∷ drop (suc i) log
drop-some [] i e h = cc
drop-some (x ∷ xs) zero e h = ground arith
drop-some (x ∷ xs) (suc i) e h = drop-some xs i e h

take-nil {ℓ} : {A : Type ℓ} (n : ℕ) → take {A = A} n [] ≡ []
take-nil zero = refl
take-nil (suc n) = refl

next_index : (i : ℕ) → pos i +ℤ pos 1 ≡ pos (suc i)
next_index i = pos-+ℤ i 1 ∙ ap pos (omega arith)

commit_log_entry-none :
    (log : List LogEntry) (i : ℕ) (q : MessageQueue)
    → get_elem? log i ≡ none
    → commit_log_entry log (pos i) q ≡ q
unfolding commit_log_entry
commit_log_entry-none log i q h = ground arith

commit_log_entry-some :
    (log : List LogEntry) (i : ℕ) (q : MessageQueue) (e : LogEntry)
    → 0 < i
    → get_elem? log i ≡ some e
    → commit_log_entry log (pos i) q ≡ apply_entry e q
unfolding commit_log_entry
commit_log_entry-some log i q e p h = ground arith

-- From a positive index `i` on, the loop of n rounds applies the n entries at `i` and behind it, in
-- the order of the log and each once, or as many as the log has.
pub commit_range-apply_all :
    (n i : ℕ) (log : List LogEntry) (q : MessageQueue)
    → 0 < i
    → commit_range n log (pos i) q ≡ apply_all (take n (drop i log)) q
unfolding commit_range
commit_range-apply_all zero i log q h = refl
commit_range-apply_all (suc n) i log q h = elim (Option-cases (get_elem? log i)) [
  | inl e ↦
      rw (next_index i, commit_log_entry-none log i q e)
        (commit_range-apply_all n (suc i) log q (omega arith)
          ∙ rw ((drop-none log i e).0, (drop-none log i e).1, take-nil) refl)
  | inr (x, e) ↦
      rw (next_index i, commit_log_entry-some log i q x h e)
        (commit_range-apply_all n (suc i) log (apply_entry x q) (omega arith)
          ∙ rw (drop-some log i x e) refl)
]

-- The queue call that an entry stands for.
abbrev pub calls_of : List LogEntry → List Call
calls_of [] = []
calls_of (e ∷ es) =
    let rest = calls_of es in
    if e.operation ==ℤ add_operation
    then inserts e.message_id e.message ∷ rest
    else if e.operation ==ℤ commit_operation
    then commits e.message_id ∷ rest
    else rest

apply_all-run : (es : List LogEntry) (q : MessageQueue) → apply_all es q ≡ run (calls_of es) q
unfolding apply_entry run step
apply_all-run [] q = refl
apply_all-run (e ∷ es) q = ground (arith, apply_all-run es q, apply_all-run es (apply_entry e q))

logged_only : (es : List LogEntry) → logged (calls_of es) ≡ calls_of es
logged_only [] = refl
logged_only (e ∷ es) = ground (arith, logged_only es)

calls_of-AllAllowed : (es : List LogEntry) (q : MessageQueue) → AllAllowed (calls_of es) q
calls_of-AllAllowed [] q = tt
calls_of-AllAllowed (e ∷ es) q = elim (Bool-cases (e.operation ==ℤ add_operation)) [
  | inl a ↦ rw a (tt, calls_of-AllAllowed es (step (inserts e.message_id e.message) q))
  | inr b ↦ elim (Bool-cases (e.operation ==ℤ commit_operation)) [
    | inl c ↦ rw (b, c) (tt, calls_of-AllAllowed es (step (commits e.message_id) q))
    | inr d ↦ rw (b, d) (calls_of-AllAllowed es q)
  ]
]

-- For an allowed history of a fresh queue whose logged calls are those of some log entries: what a
-- crash would leave of the queue is what a fresh queue keeps after those entries alone, whatever was
-- delivered to consumers meanwhile.
pub replay-SamePersisted :
    (es : List LogEntry) (cs : List Call)
    → AllAllowed cs empty
    → logged cs ≡ calls_of es
    → SamePersisted (view (run cs empty)) (view (apply_all es empty))
replay-SamePersisted es cs a h m =
    persisted-run cs empty (view empty) empty-IsValid a (λ _. refl) m
    ∙ rw (h, apply_all-run es empty)
        (ap (λ v. persisted (v m))
          (sym (run_lem (calls_of es) empty empty-IsValid (calls_of-AllAllowed es empty)).1))
