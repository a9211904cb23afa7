-- ===== src/Cluster/Candidates.antt =====
-- The delayed request for votes of src/flowmq/cluster_node.cpp as a turn of one node of the cluster.
use flowmq.Base.{
  ℤ, pos, minus_one, ℕ, ◌+◌, ◌≤◌, List, [], ◌∷◌, ◌++◌, some, Bool, true, ◌&&◌, Bool-cases, ok,
  get_elem?, length, count_if, count_if-append, one_if, ◌==◌, if◌then◌else◌, ◌≡◌, ◌≢◌, refl, sym,
  ◌∙◌, ap, subst, arith, ◌≤ℤ◌, ◌+ℤ◌, ◌==ℤ◌, eq_refl, inl, inr, +ℤ_parts,
}
use flowmq.Protocol.{FlowMessage, raft_message, load_vote_request}
use flowmq.ClusterNode.State.{World, serialize_raft_message}
use flowmq.ClusterNode.Vote.{delayed_vote}
use flowmq.ClusterNode.Frames.{Ballot, ballots}
use flowmq.ClusterNode.Ballots.{Moves, delayed_vote-Moves}
use flowmq.ClusterNode.Election.{IsHonest, Remembered}
use flowmq.Cluster.{Member, with_empty, send_all, elected, to_others}
use flowmq.Cluster.Traffic.{
  votes_in, same_ballot, requests, granted, grants, asks, to_others-once, to_others-none,
}
use flowmq.Cluster.Counts.{own, total, own-get, if_by, is_by_of, same_ballot_iff, All-votes_in}
use flowmq.Cluster.Tally.{if_same, Tally, Turn, itself}
use flowmq.Cluster.Effects.{zero-cases, if_zero, quiet-Turn, granted-own, Moves-IsHonest}
use flowmq.Cluster.Events.{nothing_sent, none_won, Turns}
use flowmq.Cluster.Answers.{ballot_for}
use flowmq.Cluster.Asks.{pos_minus_one, if_le, one_if_le, once_each, delayed-cases, Asks}

module _ {C S : Type 0} (ms : List (Member C S)) (fs : List (ℤ × FlowMessage)) (es : List Ballot)
    (t : Tally ms fs es) (k : ℕ) (m : Member C S) (here : get_elem? ms k ≡ some m) where
  -- The delayed request comes to nothing.
  silent-Turn :
      (w' : World C S)
      → w'.node ≡ m.world.node
      → w'.outbox ≡ []
      → w'.waiting_votes ≤ m.world.waiting_votes
      → Moves (with_empty m) w'
      → Turns ms fs es t k m here fs w'
  silent-Turn w' same out fewer moved =
      quiet-Turn ms fs es t k m here fs w' (elected m.world w') (λ p. omega arith)
        (nothing_sent k (length ms) w'.outbox out) (ap ballots out) moved
        (ap (λ n. n.total_nodes) same)
        (λ c.
          let was = ap (λ n. n.state) (sym same) ∙ c in
          (
            λ _. (
              was,
              subst
                  (λ n.
                    n.votes_collected +ℤ pos (granted (itself k w'.node) fs)
                    ≤ℤ m.world.node.votes_collected +ℤ pos (granted (itself k w'.node) fs))
                  (sym same) (omega arith),
            ),
            λ waits free.
                subst (λ n. n.votes_collected ≤ℤ pos 0) (sym same)
                  ((t.counted k m here was).1 (omega (arith, waits, fewer))
                    (ap (λ n. n.voted_for) (sym same) ∙ free)),
          ))
        (none_won _ m.world w' (λ l. ap (λ n. n.state) (sym same) ∙ l))
        (λ l. inl (ap (λ n. n.state) (sym same) ∙ l))

  module _ (w' : World C S) (a : Asks (with_empty m) w') (waits : 1 ≤ m.world.waiting_votes) where
    abbrev x : Ballot
    x = itself k m.world.node

    is_x : ballot_for a.req ≡ x
    is_x =
        a.for_itself
        ∙ ap (λ i. record { term = m.world.node.cur_term; candidate_id = i })
            (t.numbered k m here).0

    not_cast : votes_in x m.cast ≡ 0
    not_cast = elim (zero-cases (votes_in x m.cast)) [
      | inl zeros ↦ zeros
      | inr one ↦ absurd (
          ((All-votes_in (Remembered m.world.node) x m.cast (t.honest k m here).0 one).1 refl).1
            a.free)
    ]

    not_own : own x ms ≡ 0
    not_own = own-get x k m ms here refl ∙ not_cast

    not_granted : granted x fs ≡ 0
    not_granted = elim (zero-cases (granted x fs)) [
      | inl zeros ↦ zeros
      | inr one ↦ absurd (omega (arith, granted-own ms fs es t k m here x one, not_own))
    ]

    abbrev message : FlowMessage
    message = serialize_raft_message m.world.node (load_vote_request a.req raft_message)

    abbrev fs' : List (ℤ × FlowMessage)
    fs' = fs ++ send_all k (length ms) w'.outbox

    sent :
        (p : ℤ × FlowMessage → Bool)
        → count_if p fs' ≡ count_if p fs + count_if p (to_others k (length ms) message)
    unfolding count_if
    sent p = omega (
      arith,
      count_if-append p fs (send_all k (length ms) w'.outbox),
      ap (λ ps. count_if p (send_all k (length ms) ps)) a.out,
      count_if-append p (to_others k (length ms) message) [],
    )

    -- The vote for itself is new, and it is asked of each other node once.
    own_new : (b : Ballot) → own b ms + if_by k b (votes_in b (x ∷ [])) ≤ 1
    unfolding count_if
    own_new b = elim (Bool-cases (same_ballot b x)) [
      | inl same ↦
          subst (λ y. own y ms + if_by k y (votes_in y (x ∷ [])) ≤ 1) (same_ballot_iff b x same)
            (omega (
              arith,
              not_own,
              if_le (is_by_of x.candidate_id k) (votes_in x (x ∷ [])),
              one_if_le (same_ballot x x),
            ))
      | inr other ↦ omega (
        arith,
        t.own_le b,
        if_zero (is_by_of b.candidate_id k) (votes_in b (x ∷ [])) (ap (λ z. one_if z + 0) other),
      )
    ]

    asks_message :
        (v : ℕ) (b : Ballot) (d : ℤ)
        → asks (pos v) b (d, message) ≡ ((d ==ℤ pos v) && same_ballot b x)
    asks_message v b d = ap (λ y. (d ==ℤ pos v) && same_ballot b y) is_x

    by_itself : (b : Ballot) → one_if (same_ballot b x) ≤ if_by k b (one_if (same_ballot b x) + 0)
    by_itself b = elim (Bool-cases (same_ballot b x)) [
      | inl same ↦
          subst (λ y. one_if (same_ballot y x) ≤ if_by k y (one_if (same_ballot y x) + 0))
            (same_ballot_iff b x same) (omega (arith, if_same k (one_if (same_ballot x x) + 0)))
      | inr other ↦ omega (arith, ap one_if other)
    ]

    asked_new :
        (v : ℕ) (b : Ballot)
        → requests (pos v) b fs' + (if k == v then votes_in b (x ∷ []) else 0)
          ≤ requests (pos v) b fs + if_by k b (votes_in b (x ∷ []))
    unfolding count_if
    asked_new v b = omega (
      arith,
      sent (asks (pos v) b),
      (to_others-once (asks (pos v) b) k (length ms) message v (same_ballot b x)
          (asks_message v b)).0,
      once_each v k (same_ballot b x),
      by_itself b,
    )

    granted_same : (b : Ballot) → granted b fs' ≡ granted b fs
    granted_same b = omega (
      arith,
      sent (grants b),
      to_others-none (grants b) k (length ms) message (λ d. ground arith),
    )

    ask-Turn : Moves (with_empty m) w' → Turns ms fs es t k m here fs w'
    unfolding count_if
    ask-Turn moved =
        subst (λ bs. Turn ms fs fs' k m w' bs (elected m.world w')) (sym cast)
          (record {
            node_id_same = moved.node_id_same;
            total_same = a.total_same;
            term_le = moved.term_le;
            honest =
                subst (λ bs. IsHonest w'.node (m.cast ++ bs)) cast
                  (Moves-IsHonest m w' (t.honest k m here) moved);
            own_le = own_new;
            asked = asked_new;
            answered = λ b.
                omega
                  (arith, granted_same b, if_le (is_by_of b.candidate_id k) (votes_in b (x ∷ [])));
            counted = λ c.
                let was = sym a.state_same ∙ c in
                (
                  λ _.
                      subst
                        (λ z.
                          let b : Ballot = record { term = z; candidate_id = pos k } in
                          w'.node.votes_collected +ℤ pos (granted b fs')
                          ≤ℤ pos (total b ms + votes_in b (x ∷ [])))
                        (sym a.term_same)
                        (subst
                          (λ v. v +ℤ pos (granted x fs') ≤ℤ pos (total x ms + votes_in x (x ∷ [])))
                          (sym a.votes)
                          (omega (
                            arith,
                            (t.counted k m here was).1 waits a.free,
                            granted_same x,
                            not_granted,
                            ap one_if is_itself,
                            +ℤ_parts m.world.node.votes_collected (pos 1),
                            +ℤ_parts (m.world.node.votes_collected +ℤ pos 1) (pos (granted x fs')),
                          ))),
                  λ _ free.
                      absurd (pos_minus_one (sym (t.numbered k m here).0 ∙ sym a.voted ∙ free)),
                );
            won = none_won _ m.world w' (λ l. sym a.state_same ∙ l);
            leads = λ l. inl (sym a.state_same ∙ l);
          })
      where
        is_itself : same_ballot x x ≡ true
        is_itself = ground (arith, eq_refl x.term, eq_refl x.candidate_id)

        cast : ballots w'.outbox ≡ x ∷ []
        cast = ap ballots a.out ∙ ap (λ b. b ∷ []) is_x

  pub delayed-Turn :
      (w' : World C S)
      → delayed_vote m.world.waiting_votes (with_empty m) ≡ ok w'
      → m.world.node.node_id ≢ minus_one
      → Turns ms fs es t k m here fs w'
  delayed-Turn w' e sane =
      let moved = delayed_vote-Moves m.world.waiting_votes (with_empty m) w' sane e in
      elim (delayed-cases m.world.waiting_votes (with_empty m) w' refl e) [
        | inl (same, out, fewer) ↦ silent-Turn w' same out fewer moved
        | inr (waits, asks) ↦ ask-Turn w' asks waits moved
      ]
