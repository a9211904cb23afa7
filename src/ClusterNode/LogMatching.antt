-- ===== src/ClusterNode/LogMatching.antt =====
-- append_log_entries of src/flowmq/cluster_node.hpp against a reference definition.
use flowmq.Base.{
  ℕ, suc, ◌<◌, List, [], ◌∷◌, ◌++◌, ◌≡◌, refl, sym, ◌∙◌, ap, arith, if◌then◌else◌, ◌==ℤ◌, length,
  take, drop, get_elem?_end, take-append_length, take-append-drop, get_elem?-append_length,
  length-append, length-take, append-nil, append_assoc, Bool-cases, inl, inr,
}
use flowmq.Protocol.{LogEntry}
use flowmq.ClusterNode.Log.{
  append_log_entries, append_from, append_one, clean_log_entries_out_of_sync,
}

-- Raft's rule for the part of the log behind the previous entry: entries of the same term stay, and
-- from the first difference on the log is what the leader sent.
abbrev pub merge : List LogEntry → List LogEntry → List LogEntry
merge old [] = old
merge [] (new ∷ rest) = new ∷ rest
merge (old ∷ older) (new ∷ rest) =
    let kept = merge older rest in if old.term ==ℤ new.term then old ∷ kept else new ∷ rest

merge-nil : (new : List LogEntry) → merge [] new ≡ new
merge-nil [] = refl
merge-nil (n ∷ ns) = refl

append_one_new :
    (xs : List LogEntry) (new : LogEntry) → append_one (length xs) new xs ≡ xs ++ new ∷ []
unfolding append_one
append_one_new xs new = rw (get_elem?_end xs, append_one) refl

append_one_old :
    (xs os : List LogEntry) (old new : LogEntry)
    → append_one (length xs) new (xs ++ old ∷ os)
      ≡ (if old.term ==ℤ new.term then xs ++ old ∷ os else xs ++ new ∷ [])
unfolding append_one clean_log_entries_out_of_sync
append_one_old xs os old new =
    rw (get_elem?-append_length xs os old, append_one) (rw (take-append_length xs (old ∷ os)) refl)

length-snoc : (xs : List LogEntry) (x : LogEntry) → length (xs ++ x ∷ []) ≡ suc (length xs)
length-snoc xs x = omega (arith, length-append {0} xs (x ∷ []))

append_from-merge :
    (new xs old : List LogEntry) (i : ℕ)
    → length xs ≡ i
    → append_from i new (xs ++ old) ≡ xs ++ merge old new
unfolding append_from
append_from-merge [] xs old i e = refl
append_from-merge (n ∷ ns) xs [] i e =
    rw (append-nil, ← e, append_one_new xs n)
      (ap (λ (l : List LogEntry). append_from (suc (length xs)) ns l) (sym (append-nil _))
        ∙ append_from-merge ns (xs ++ n ∷ []) [] (suc (length xs)) (length-snoc xs n)
        ∙ rw (merge-nil ns) (append_assoc xs (n ∷ []) ns))
append_from-merge (n ∷ ns) xs (o ∷ os) i e = elim (Bool-cases (o.term ==ℤ n.term)) [
  | inl same ↦
      rw (← e, append_one_old xs os o n, same)
        (ap (λ (l : List LogEntry). append_from (suc (length xs)) ns l)
            (sym (append_assoc xs (o ∷ []) os))
          ∙ append_from-merge ns (xs ++ o ∷ []) os (suc (length xs)) (length-snoc xs o)
          ∙ append_assoc xs (o ∷ []) (merge os ns))
  | inr differs ↦
      rw (← e, append_one_old xs os o n, differs)
        (ap (λ (l : List LogEntry). append_from (suc (length xs)) ns l) (sym (append-nil _))
          ∙ append_from-merge ns (xs ++ n ∷ []) [] (suc (length xs)) (length-snoc xs n)
          ∙ rw (merge-nil ns) (append_assoc xs (n ∷ []) ns))
]

-- With the previous entry in the log, `append_log_entries` keeps the log up to that entry and
-- merges what is behind it with the new entries by Raft's rule.
pub append_log_entries-merge :
    (p : ℕ) (new log : List LogEntry)
    → p < length log
    → append_log_entries p new log ≡ take (suc p) log ++ merge (drop (suc p) log) new
unfolding append_log_entries
append_log_entries-merge p new log h =
    ap (λ (l : List LogEntry). append_from (suc p) new l) (sym (take-append-drop (suc p) log))
    ∙ append_from-merge new (take (suc p) log) (drop (suc p) log) (suc p)
        (length-take (suc p) log h)
