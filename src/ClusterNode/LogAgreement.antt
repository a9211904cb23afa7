-- ===== src/ClusterNode/LogAgreement.antt =====
-- append_log_entries of src/flowmq/cluster_node.hpp on a follower, with the entries that a leader
-- takes from its log.
use flowmq.Base.{
  ℤ, pos, ℕ, zero, suc, ◌+◌, ◌<◌, List, [], ◌∷◌, ◌++◌, some, ok, true, ◌≡◌, ◌≢◌, ◌⊎◌, inl, inr,
  refl, sym, subst, ◌∙◌, ap, arith, ◌==ℤ◌, eq_iff, >>=-eq-ok, Option-cases, increment, length, take,
  drop, get_elem?, get_elem?-take, get_elem?_lt, length-take, take-append-drop, get_elem?-drop,
  take-sum, take-length-take, take-take, get_elem?-take_lt, append-cancel, Bool-cases,
}
use flowmq.Protocol.{LogEntry}
use flowmq.ClusterNode.Log.{append_log_entries, check_if_previous_log_in_sync}
use flowmq.ClusterNode.LogMatching.{append_log_entries-merge, merge}

-- Raft's log matching: logs that have an entry of the same term at an index are the same up to it.
abbrev pub Matches : List LogEntry → List LogEntry → Type 0
Matches log other =
    (i : ℕ) (a b : LogEntry)
    → get_elem? log i ≡ some a
    → get_elem? other i ≡ some b
    → a.term ≡ b.term
    → take (suc i) log ≡ take (suc i) other

-- Entries of the same term at the same place are the same.
abbrev Agree : List LogEntry → List LogEntry → Type 0
Agree old all =
    (i : ℕ) (a b : LogEntry)
    → get_elem? old i ≡ some a
    → get_elem? all i ≡ some b
    → a.term ≡ b.term
    → a ≡ b

-- New entries that are the first of `all`: either they are there already and nothing is changed, or
-- what is left is just these.
merge-Agree :
    (old all : List LogEntry) (n : ℕ)
    → Agree old all
    → let new = take n all in
      ((take (length new) old ≡ new) × (merge old new ≡ old))
      ⊎ ((take (length new) old ≢ new) × (merge old new ≡ new))
merge-Agree [] all zero h = inl (refl, refl)
merge-Agree (o ∷ os) all zero h = inl (refl, refl)
merge-Agree [] [] (suc n) h = inl (refl, refl)
merge-Agree (o ∷ os) [] (suc n) h = inl (refl, refl)
merge-Agree [] (a ∷ rest) (suc n) h = inr (λ e. cc, refl)
merge-Agree (o ∷ os) (a ∷ rest) (suc n) h = elim (Bool-cases (o.term ==ℤ a.term)) [
  | inl same ↦
      let e : o ≡ a = h 0 o a refl refl ((eq_iff o.term a.term).0 same) in
      elim (merge-Agree os rest n (λ i. h (suc i))) [
        | inl (there, kept) ↦ inl (cc, rw (same, kept) refl)
        | inr (differs, cut) ↦ inr (λ k. differs (cc), rw (same, cut, e) refl)
      ]
  | inr different ↦ inr (
    λ k.
        let e : o ≡ a = cc in
        let same : (o.term ==ℤ a.term) ≡ true =
          (eq_iff o.term a.term).1 (ap (λ (x : LogEntry). x.term) e) in
        absurd cc,
    rw different refl,
  )
]

in_sync-previous :
    (log : List LogEntry) (p : ℕ) (t : ℤ)
    → check_if_previous_log_in_sync t (pos p) log ≡ ok true
    → (a : LogEntry) × (get_elem? log p ≡ some a) × (a.term ≡ t)
unfolding check_if_previous_log_in_sync
in_sync-previous log p t h =
    let (after, first, rest) = >>=-eq-ok (increment (pos p)) _ h in
    elim (Option-cases (get_elem? log p)) [
      | inl e ↦ ground (arith, e, rest)
      | inr (a, e) ↦ (a, e, (eq_iff a.term t).0 (ground (arith, e, rest)))
    ]

Matches-Agree :
    (log other : List LogEntry) (k : ℕ) → Matches log other → Agree (drop k log) (drop k other)
Matches-Agree log other k h i a b e f t =
    let same : take (suc (k + i)) log ≡ take (suc (k + i)) other =
      h (k + i) a b (sym (get_elem?-drop k log i) ∙ e) (sym (get_elem?-drop k other i) ∙ f) t in
    let at_a : get_elem? log (k + i) ≡ some a = sym (get_elem?-drop k log i) ∙ e in
    let at_b : get_elem? other (k + i) ≡ some b = sym (get_elem?-drop k other i) ∙ f in
    let place : k + i < suc (k + i) = omega arith in
    let entries : some a ≡ some b =
      sym (get_elem?-take (suc (k + i)) log (k + i) place ∙ at_a)
      ∙ ap (λ l. get_elem? l (k + i)) same
      ∙ get_elem?-take (suc (k + i)) other (k + i) place
      ∙ at_b in
    cc

Matches-take : (log other : List LogEntry) (n : ℕ) → Matches log other → Matches (take n log) other
Matches-take log other n h i a b e f t =
    let below : i < n = get_elem?-take_lt n log i a e in
    take-take (suc i) n log (omega arith) ∙ h i a b (sym (get_elem?-take n log i below) ∙ e) f t

append_log_entries-cases :
    (log other : List LogEntry) (p n : ℕ)
    → Matches log other
    → p < length log
    → take (suc p) log ≡ take (suc p) other
    → let new = take n (drop (suc p) other) in
      let upto = suc p + length new in
      ((take upto log ≡ take upto other) × (append_log_entries p new log ≡ log))
      ⊎ ((take upto log ≢ take upto other) × (append_log_entries p new log ≡ take upto other))
append_log_entries-cases log other p n h inside front =
    elim (merge-Agree (drop (suc p) log) (drop (suc p) other) n
      (Matches-Agree log other (suc p) h)) [
        | inl (there, kept) ↦ inl (
          take-sum (suc p) (length new) log ∙ rw (there, front) (sym end),
          append_log_entries-merge p new log inside
              ∙ ap (◌++◌ (take (suc p) log)) kept
              ∙ take-append-drop (suc p) log,
        )
        | inr (differs, cut) ↦ inr (
          λ e. differs (
              append-cancel (suc p) (take (suc p) log) _ _ (length-take (suc p) log inside) (
                sym (take-sum (suc p) (length new) log)
                ∙ e
                ∙ end
                ∙ ap (λ l. l ++ new) (sym front))),
          append_log_entries-merge p new log inside ∙ rw (cut, front) (sym end),
        )
      ]
  where
    new : List LogEntry
    new = take n (drop (suc p) other)

    end : take (suc p + length new) other ≡ take (suc p) other ++ new
    end =
        take-sum (suc p) (length new) other
        ∙ ap (◌++◌ (take (suc p) other)) (take-length-take n (drop (suc p) other))

after-Matches :
    {P Q : Type 0} (log leader other log' : List LogEntry) (n : ℕ)
    → (P × (log' ≡ log)) ⊎ (Q × (log' ≡ take n leader))
    → Matches log other
    → Matches leader other
    → Matches log' other
after-Matches log leader other log' n (inl (p, e)) h k = subst (λ l. Matches l other) (sym e) h
after-Matches log leader other log' n (inr (q, e)) h k =
    subst (λ l. Matches l other) (sym e) (Matches-take leader other n k)

-- The node has the entry before the new ones, by `check_if_previous_log_in_sync`, and the new
-- entries are the next ones of the leader's log, any number of them. When the two logs match, either
-- the node has all of these entries already, and its log stays as it is, with what it has behind them,
-- or its log becomes the leader's up to the last of them. Afterwards it matches the leader's log,
-- and every third log that matched both.
pub append_log_entries-Matches :
    (log leader other : List LogEntry) (p n : ℕ) (previous : LogEntry)
    → Matches log leader
    → Matches log other
    → Matches leader other
    → get_elem? leader p ≡ some previous
    → check_if_previous_log_in_sync previous.term (pos p) log ≡ ok true
    → let new = take n (drop (suc p) leader) in
      let upto = suc p + length new in
      let log' = append_log_entries p new log in
      (((take upto log ≡ take upto leader) × (log' ≡ log))
        ⊎ ((take upto log ≢ take upto leader) × (log' ≡ take upto leader)))
      × Matches log' leader
      × Matches log' other
append_log_entries-Matches log leader other p n previous h h_other k at_p in_sync =
    let (a, at_a, same) = in_sync-previous log p previous.term in_sync in
    let cases =
      append_log_entries-cases log leader p n h (get_elem?_lt log p a at_a)
        (h p a previous at_a at_p same) in
    (
      cases,
      after-Matches log leader leader _ _ cases h (λ i a b e f t. refl),
      after-Matches log leader other _ _ cases h_other k,
    )
