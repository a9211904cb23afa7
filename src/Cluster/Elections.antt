-- ===== src/Cluster/Elections.antt =====
-- What the nodes of src/flowmq/cluster_node.cpp, run as a cluster, guarantee about elections.
use flowmq.Base.{
  ℤ, pos, ℕ, suc, ◌≤◌, ◌<◌, ◌≤ℤ◌, ◌/◌, List, [], ◌∷◌, some, Bool, false, not, Bool-cases, get_elem?,
  length, All-get, count_if, one_if, ◌==◌, ◌==ℤ◌, eq_iff, ◌≡◌, ◌≢◌, refl, sym, ap, subst, arith,
  inl, inr,
}
use flowmq.Interfaces.{ClientManagerInterface, ClusterNodeStorageInterface}
use flowmq.ClusterNode.State.{leader}
use flowmq.ClusterNode.Frames.{Ballot}
use flowmq.ClusterNode.Election.{IsHonest}
use flowmq.Cluster.{Member, Cluster, Step, run}
use flowmq.Cluster.Traffic.{votes_in}
use flowmq.Cluster.Counts.{own, total, total-both, own-none, VotesOnce-Consistent}
use flowmq.Cluster.Tally.{Tally, itself}
use flowmq.Cluster.Effects.{zero-cases}
use flowmq.Cluster.Steps.{run-InOrder}

at_least_one : (n : ℕ) → n ≤ 1 → n ≤ one_if (not (n == 0))
at_least_one n h = ground arith

different : {a b : ℤ} → (a ==ℤ b) ≡ false → a ≢ b
different {a} {b} h e = ground (arith, eq_iff a b)

module _ {C S : Type 0} where
  -- The nodes before anything has happened: node k of n has the id k and knows of n nodes, has sent
  -- no vote, waits for no timer and does not lead. Its other members may hold anything.
  abbrev pub IsFresh : Cluster C S → Type 0
  IsFresh c =
      ((k : ℕ) (m : Member C S)
        → get_elem? c.members k ≡ some m
        → (m.world.node.node_id ≡ pos k)
          × (m.world.node.total_nodes ≡ pos (length c.members))
          × (m.cast ≡ [])
          × (m.world.waiting_votes ≡ 0)
          × (m.world.node.state ≢ leader))
      × (c.in_flight ≡ [])
      × (c.elections ≡ [])

  abbrev pub has_voted : Ballot → Member C S → Bool
  has_voted b m = not (votes_in b m.cast == 0)

  IsFresh-InOrder : (c : Cluster C S) → IsFresh c → Tally c.members c.in_flight c.elections
  unfolding count_if
  IsFresh-InOrder c (fresh, empty, none_won) = subst (Tally c.members c.in_flight) (sym none_won) (
      subst (λ fs. Tally c.members fs []) (sym empty)
        (record {
          numbered = λ k m here. ((fresh k m here).0, (fresh k m here).1);
          honest = λ k m here. subst (IsHonest m.world.node) (sym (fresh k m here).2) (tt, tt);
          own_le = λ b. omega (arith, nobody b);
          asked = λ v m b here. omega (arith, ap (votes_in b) (fresh v m here).2);
          answered = λ b. omega (arith, nobody b);
          counted = λ k m here _. (
            λ a. absurd (omega (arith, a, nobody (itself k m.world.node))),
            λ waits _. absurd (omega (arith, waits, (fresh k m here).3)),
          );
          won = tt;
          led = λ k m here l. absurd ((fresh k m here).4 l);
        }))
    where
      nobody : (b : Ballot) → own b c.members ≡ 0
      nobody b = own-none b c.members (λ k m here. (fresh k m here).2)

  -- No node has voted twice in one term.
  one_vote :
      (c : Cluster C S)
      → Tally c.members c.in_flight c.elections
      → (k : ℕ) (m : Member C S) (b : Ballot) → get_elem? c.members k ≡ some m
      → votes_in b m.cast ≤ 1
  one_vote c t k m b here = omega (arith, t.asked k m b here, t.own_le b)

  total_voters :
      (b : Ballot) (ms : List (Member C S))
      → ((k : ℕ) (m : Member C S) → get_elem? ms k ≡ some m → votes_in b m.cast ≤ 1)
      → total b ms ≤ count_if (has_voted b) ms
  unfolding total count_if
  total_voters b [] h = omega arith
  total_voters b (m ∷ ms) h = omega (
    arith,
    h 0 m refl,
    at_least_one (votes_in b m.cast) (h 0 m refl),
    total_voters b ms (λ k x e. h (suc k) x e),
  )

  no_two :
      (c : Cluster C S)
      → Tally c.members c.in_flight c.elections
      → (b d : Ballot) → length c.members / 2 < total b c.members
      → length c.members / 2 < total d c.members
      → b.term ≡ d.term
      → b.candidate_id ≡ d.candidate_id
  no_two c t b d hb hd same = elim (Bool-cases (b.candidate_id ==ℤ d.candidate_id)) [
    | inl one ↦ (eq_iff b.candidate_id d.candidate_id).0 one
    | inr two ↦ absurd (
        omega (
          arith,
          hb,
          hd,
          total-both b d c.members (λ k m here. elim (zero-cases (votes_in b m.cast)) [
            | inl zero_b ↦ omega (arith, zero_b, one_vote c t k m d here)
            | inr some_b ↦ elim (zero-cases (votes_in d m.cast)) [
              | inl zero_d ↦ omega (arith, zero_d, one_vote c t k m b here)
              | inr some_d ↦ absurd (
                  different two
                    (VotesOnce-Consistent b d m.cast (t.honest k m here).1 some_b some_d same))
            ]
          ]),
        ))
  ]

module _ {C S : Type 0} ⦃clients : ClientManagerInterface C⦄
    ⦃disk : ClusterNodeStorageInterface S⦄ where
  -- In every run of a cluster of fresh nodes that are numbered 0, 1, …, whatever messages are lost
  -- or overtake others and whichever nodes stop for good, if clients send only requests of clients,
  -- two elections of one term have the same winner.
  pub elected_once :
      (ss : List Step) (c : Cluster C S) (i j : ℕ) (b d : Ballot)
      → IsFresh c
      → get_elem? (run ss c).elections i ≡ some b
      → get_elem? (run ss c).elections j ≡ some d
      → b.term ≡ d.term
      → b.candidate_id ≡ d.candidate_id
  elected_once ss c i j b d fresh first second same =
      let t = run-InOrder ss c (IsFresh-InOrder c fresh) in
      no_two (run ss c) t b d (All-get _ i b (run ss c).elections first t.won)
        (All-get _ j d (run ss c).elections second t.won) same

  -- In every run of a cluster of fresh nodes that are numbered 0, 1, …, if clients send only requests
  -- of clients, for a node that leads there is a term, its own or an earlier one, in which more than
  -- half of the nodes have sent a vote for it; its request for votes counts as its own vote.
  pub leader-has_voted :
      (ss : List Step) (c : Cluster C S) (k : ℕ) (m : Member C S)
      → IsFresh c
      → get_elem? (run ss c).members k ≡ some m
      → m.world.node.state ≡ leader
      → (term : ℤ) × (term ≤ℤ m.world.node.cur_term)
        × (length (run ss c).members / 2
            < count_if
                (has_voted (record { term = term; candidate_id = pos k }))
                (run ss c).members)
  leader-has_voted ss c k m fresh here leads =
      let t = run-InOrder ss c (IsFresh-InOrder c fresh) in
      let (term, le, more) = t.led k m here leads in
      let b : Ballot = record { term = term; candidate_id = pos k } in
      (
        term,
        le,
        omega (
          arith,
          more,
          total_voters b (run ss c).members (λ j x e. one_vote (run ss c) t j x b e),
        ),
      )
