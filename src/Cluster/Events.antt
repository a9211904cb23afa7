-- ===== src/Cluster/Events.antt =====
-- The events of src/flowmq/cluster_node.cpp as turns of one node of the cluster.
use flowmq.Base.{
  inl, ℤ, pos, minus_one, ℕ, ◌≤◌, List, [], ◌++◌, some, Bool, ok, get_elem?, length, count_if, ◌≡◌,
  ◌≢◌, sym, ◌∙◌, ap, subst, arith, ◌≤ℤ◌, ◌+ℤ◌, All, +ℤ_parts, increment_lem,
}
use flowmq.Protocol.{FlowMessage}
use flowmq.ClusterNode.State.{World, Packet, candidate, leader}
use flowmq.ClusterNode.Vote.{vote_timer}
use flowmq.ClusterNode.Frames.{Ballot, ballots}
use flowmq.ClusterNode.Advance.{Quiet}
use flowmq.ClusterNode.Ballots.{Quiet-Moves, vote_timer-Moves}
use flowmq.ClusterNode.Plain.{Calm}
use flowmq.Cluster.{Member, with_empty, send_all, elected}
use flowmq.Cluster.Traffic.{requests, granted, grants, send_all-Plain, ballots-Plain}
use flowmq.Cluster.Tally.{Tally, Turn, itself}
use flowmq.Cluster.Effects.{quiet-Turn}

pub nothing_sent :
    (k n : ℕ) (ps : List Packet)
    → ps ≡ []
    → (v : ℤ) (b : Ballot)
    → (requests v b (send_all k n ps) ≡ 0) × (granted b (send_all k n ps) ≡ 0)
unfolding count_if
nothing_sent k n ps out v b =
    (ap (λ qs. requests v b (send_all k n qs)) out, ap (λ qs. granted b (send_all k n qs)) out)

module _ {C S : Type 0} where
  pub elected-none :
      (w w' : World C S) → (w'.node.state ≡ leader → w.node.state ≡ leader) → elected w w' ≡ []
  elected-none w w' h = ground arith

  pub none_won :
      (P : Ballot → Type 0) (w w' : World C S)
      → (w'.node.state ≡ leader → w.node.state ≡ leader)
      → All P (elected w w')
  none_won P w w' h = subst (All P) (sym (elected-none w w' h)) tt

  vote_timer-frame :
      (now : ℤ) (w w' : World C S)
      → vote_timer now w ≡ ok w'
      → (w'.outbox ≡ w.outbox)
        × (w'.node.total_nodes ≡ w.node.total_nodes)
        × (w'.node.state ≡ candidate
            → (w'.node.cur_term ≢ w.node.cur_term) × (w'.node.votes_collected ≡ pos 0))
        × (w'.node.state ≡ leader → w.node.state ≡ leader)
  unfolding vote_timer
  vote_timer-frame now w w' e = (
    grind (arith, increment_lem),
    grind (arith, increment_lem),
    (λ c. (grind (arith, increment_lem, +ℤ_parts), grind (arith, increment_lem))),
    grind (arith, increment_lem),
  )

module _ {C S : Type 0} (ms : List (Member C S)) (fs : List (ℤ × FlowMessage)) (es : List Ballot)
    (t : Tally ms fs es) (k : ℕ) (m : Member C S) (here : get_elem? ms k ≡ some m) where
  abbrev pub Turns : List (ℤ × FlowMessage) → World C S → Type 0
  Turns rest w' =
      Turn ms fs (rest ++ send_all k (length ms) w'.outbox) k m w' (ballots w'.outbox)
        (elected m.world w')

  pub Calm-Turn :
      (rest : List (ℤ × FlowMessage)) (w' : World C S)
      → ((p : ℤ × FlowMessage → Bool) → count_if p rest ≤ count_if p fs)
      → Quiet (with_empty m) w'
      → Calm (with_empty m) w'
      → Turns rest w'
  Calm-Turn rest w' less quiet calm =
      quiet-Turn ms fs es t k m here rest w' (elected m.world w') less
        (send_all-Plain k (length ms) w'.outbox (calm.plain tt))
        (ballots-Plain w'.outbox (calm.plain tt)) (Quiet-Moves quiet) calm.total_same counts
        (none_won _ m.world w' calm.leader_same) (λ l. inl (calm.leader_same l))
    where
      counts :
          w'.node.state ≡ candidate
          → (w'.node.cur_term ≡ m.world.node.cur_term
              → (m.world.node.state ≡ candidate)
                × (w'.node.votes_collected +ℤ pos (granted (itself k w'.node) rest)
                    ≤ℤ m.world.node.votes_collected +ℤ pos (granted (itself k w'.node) fs)))
            × (1 ≤ w'.waiting_votes
                → w'.node.voted_for ≡ minus_one
                → w'.node.votes_collected ≤ℤ pos 0)
      counts c =
          let (was, votes) = calm.candidate_same c in
          let b = itself k w'.node in
          (
            λ _. (
              was,
              subst
                  (λ v.
                    v +ℤ pos (granted b rest) ≤ℤ m.world.node.votes_collected +ℤ pos (granted b fs))
                  (sym votes)
                  (omega (
                    arith,
                    less (grants b),
                    +ℤ_parts m.world.node.votes_collected (pos (granted b rest)),
                    +ℤ_parts m.world.node.votes_collected (pos (granted b fs)),
                  )),
            ),
            λ wait free.
                subst (λ v. v ≤ℤ pos 0) (sym votes)
                  ((t.counted k m here was).1 (subst (λ n. 1 ≤ n) calm.waiting_same wait)
                    (sym quiet.voted_for_same ∙ free)),
          )

  pub timer-Turn : (now : ℤ) (w' : World C S) → vote_timer now (with_empty m) ≡ ok w' → Turns fs w'
  timer-Turn now w' e =
      let (out, total_same, candidates, leads) = vote_timer-frame now (with_empty m) w' e in
      quiet-Turn ms fs es t k m here fs w' (elected m.world w') (λ p. omega arith)
        (nothing_sent k (length ms) w'.outbox out) (ap ballots out)
        (vote_timer-Moves now (with_empty m) w' e) total_same
        (λ c.
          let (new, none) = candidates c in
          (λ same. absurd (new same), λ _ _. subst (λ v. v ≤ℤ pos 0) (sym none) (omega arith)))
        (none_won _ m.world w' leads) (λ l. inl (leads l))
