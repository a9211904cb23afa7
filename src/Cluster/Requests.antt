-- ===== src/Cluster/Requests.antt =====
-- REQUEST_VOTE_REQUEST of src/flowmq/cluster_node.cpp as a turn of one node of the cluster.
use flowmq.Base.{
  ℤ, pos, minus_one, ℕ, ◌+◌, ◌≤◌, List, [], ◌∷◌, ◌++◌, some, Bool, true, ◌&&◌, Bool-cases,
  get_elem?, length, count_if, count_if-append, one_if, ◌==◌, if◌then◌else◌, ◌≡◌, ◌≢◌, refl, sym,
  ◌∙◌, ap, subst, arith, ◌≤ℤ◌, ◌+ℤ◌, eq_refl, inl, inr, +ℤ_parts,
}
use flowmq.Protocol.{FlowMessage, MessageType, get_vote_request}
use flowmq.ClusterNode.State.{World, ClusterNode, leader, write_message}
use flowmq.ClusterNode.Vote.{request_vote_request, answer_vote, adopt_term}
use flowmq.ClusterNode.Frames.{Ballot, ballots}
use flowmq.ClusterNode.Ballots.{Moves, request_vote_request-Moves}
use flowmq.ClusterNode.Election.{IsHonest}
use flowmq.Cluster.{Member, with_empty, send_all, elected}
use flowmq.Cluster.Traffic.{votes_in, same_ballot, requests, granted, grants, asks}
use flowmq.Cluster.Counts.{own, total, own-get, own-nobody, if_by, same_ballot_iff}
use flowmq.Cluster.Tally.{Tally, Turn, itself}
use flowmq.Cluster.Effects.{quiet-Turn, counted_in, own-Remembered, Moves-IsHonest}
use flowmq.Cluster.Events.{nothing_sent, none_won, Turns}
use flowmq.Cluster.Responses.{not_both}
use flowmq.Cluster.Answers.{
  ballot_for, vote_answer, refusal_plain, refusal_cast, asks_for, grant_counts, grant_asks,
  by_other, adopt_term_lem, request-cases,
}

module _ {C S : Type 0} (ms : List (Member C S)) (fs : List (ℤ × FlowMessage)) (es : List Ballot)
    (t : Tally ms fs es) (k : ℕ) (m : Member C S) (here : get_elem? ms k ≡ some m)
    (rest : List (ℤ × FlowMessage)) (fm : FlowMessage)
    (came : (p : ℤ × FlowMessage → Bool) → count_if p fs ≡ one_if (p (pos k, fm)) + count_if p rest)
    (type : fm.type ≡ MessageType.request_vote_request) where
  -- A request that arrives was sent by its candidate, which is another node, and this node has not
  -- voted for it yet.
  asked_once :
      let b = ballot_for (get_vote_request fm) in
      (votes_in b m.cast ≡ 0)
      × (1 ≤ own b ms)
      × (b.candidate_id ≢ pos k)
      × (b.candidate_id ≢ minus_one)
  asked_once =
      let b = ballot_for (get_vote_request fm) in
      let is_b : asks (pos k) b (pos k, fm) ≡ true =
        ground (arith, asks_for k k b fm type, eq_refl b.term, eq_refl b.candidate_id) in
      let one_more : requests (pos k) b fs ≡ 1 + requests (pos k) b rest =
        came (asks (pos k) b) ∙ ap (λ z. one_if z + requests (pos k) b rest) is_b in
      let known = t.asked k m b here in
      let bound = t.own_le b in
      let nothing : votes_in b m.cast ≡ 0 = omega (arith, known, bound, one_more) in
      (
        nothing,
        omega (arith, known, one_more),
        λ by_k. omega (arith, own-get b k m ms here by_k, known, one_more),
        λ nobody. omega (arith, own-nobody b ms nobody, known, one_more),
      )

  less : (p : ℤ × FlowMessage → Bool) → count_if p rest ≤ count_if p fs
  less p = omega (arith, came p)

  moves : Moves (with_empty m) (request_vote_request (get_vote_request fm) (with_empty m))
  moves = request_vote_request-Moves (get_vote_request fm) (with_empty m) asked_once.3

  refused-Turn :
      Moves (with_empty m) (answer_vote (get_vote_request fm) (pos 0) (with_empty m))
      → Turns ms fs es t k m here rest (answer_vote (get_vote_request fm) (pos 0) (with_empty m))
  unfolding answer_vote
  refused-Turn moved =
      quiet-Turn ms fs es t k m here rest (answer_vote (get_vote_request fm) (pos 0) (with_empty m))
        _ less (refusal_plain m.world.node (get_vote_request fm) k (length ms))
        (refusal_cast (get_vote_request fm)) moved refl
        (λ c. (
          λ _. (
            c,
            omega (
              arith,
              less (grants (itself k m.world.node)),
              +ℤ_parts m.world.node.votes_collected (pos (granted (itself k m.world.node) rest)),
              +ℤ_parts m.world.node.votes_collected (pos (granted (itself k m.world.node) fs)),
            ),
          ),
          (t.counted k m here c).1,
        ))
        (none_won _ m.world (answer_vote (get_vote_request fm) (pos 0) (with_empty m)) (λ l. l))
        (λ l. inl l)

  adopted-Turn :
      Moves
        (with_empty m)
        (record m.world { outbox = []; node = adopt_term (get_vote_request fm) m.world.node })
      → m.world.node.state ≡ leader
      → Turns ms fs es t k m here rest
          (record m.world { outbox = []; node = adopt_term (get_vote_request fm) m.world.node })
  adopted-Turn moved leads =
      let w' : World C S = record m.world {
        outbox = [];
        node = adopt_term (get_vote_request fm) m.world.node;
      } in
      let (state_same, total_same, kept) = adopt_term_lem (get_vote_request fm) m.world.node in
      quiet-Turn ms fs es t k m here rest w' _ less (nothing_sent k (length ms) [] refl) refl moved
        total_same (λ c. absurd (not_both c (state_same ∙ leads)))
        (none_won _ m.world w' (λ l. leads)) (λ _. inl leads)

  -- The node votes for the candidate, and sends it the grant.
  vote-Turn :
      (n : ClusterNode) (w' : World C S)
      → w'.outbox
        ≡ write_message
            (get_vote_request fm).candidate_id
            (vote_answer n (get_vote_request fm) (pos 1))
          ∷ []
      → ballots w'.outbox ≡ ballot_for (get_vote_request fm) ∷ []
      → Moves (with_empty m) w'
      → w'.node.total_nodes ≡ m.world.node.total_nodes
      → w'.node.state ≡ m.world.node.state
      → w'.node.voted_for ≡ (get_vote_request fm).candidate_id
      → (w'.node.cur_term ≤ℤ m.world.node.cur_term
          → (w'.node.cur_term ≡ m.world.node.cur_term)
            × (w'.node.votes_collected ≡ m.world.node.votes_collected))
      → Turns ms fs es t k m here rest w'
  unfolding count_if
  vote-Turn n w' out cast moved total_same state_same voted kept =
      subst (λ bs. Turn ms fs fs' k m w' bs (elected m.world w')) (sym cast)
        (record {
          node_id_same = moved.node_id_same;
          total_same = total_same;
          term_le = moved.term_le;
          honest =
              subst (λ bs. IsHonest w'.node (m.cast ++ bs)) cast
                (Moves-IsHonest m w' (t.honest k m here) moved);
          own_le = λ b. omega (arith, t.own_le b, not_own b);
          asked = λ v b.
              omega (arith, not_own b, came (asks (pos v) b), requests_after v b, this_request v b);
          answered = λ b. omega (arith, not_own b, came (grants b), granted_after b);
          counted = λ c.
              let was = sym state_same ∙ c in
              let b = itself k w'.node in
              (
                λ a.
                    let own_some : 1 ≤ own b ms = omega (arith, a, no_vote b refl) in
                    let old = (own-Remembered ms fs es t k m here b refl own_some).0 in
                    let (same_term, same_votes) = kept old in
                    subst (λ v. v +ℤ pos (granted b fs') ≤ℤ pos (total b ms + votes_in b (x ∷ [])))
                      (sym same_votes)
                      (omega (
                        arith,
                        counted_in ms fs es t k m here was w'.node.cur_term same_term own_some,
                        no_vote b refl,
                        granted_after b,
                        less (grants b),
                        +ℤ_parts m.world.node.votes_collected (pos (granted b fs)),
                        +ℤ_parts m.world.node.votes_collected (pos (granted b fs')),
                      )),
                λ _ free. absurd (asked_once.3 (sym voted ∙ free)),
              );
          won = none_won _ m.world w' (λ l. sym state_same ∙ l);
          leads = λ l. inl (sym state_same ∙ l);
        })
    where
      x : Ballot
      x = ballot_for (get_vote_request fm)

      fs' : List (ℤ × FlowMessage)
      fs' = rest ++ send_all k (length ms) w'.outbox

      not_own : (b : Ballot) → if_by k b (votes_in b (x ∷ [])) ≡ 0
      not_own b = by_other k b x asked_once.2

      no_vote : (b : Ballot) → b.candidate_id ≡ pos k → votes_in b (x ∷ []) ≡ 0
      no_vote b by_k = elim (Bool-cases (same_ballot b x)) [
        | inl same ↦
            absurd (asked_once.2 (ap (λ y. y.candidate_id) (same_ballot_iff b x same) ∙ by_k))
        | inr other ↦ ap (λ z. one_if z + 0) other
      ]

      sent :
          (p : ℤ × FlowMessage → Bool)
          → count_if p fs'
            ≡ count_if p rest
              + one_if (p (x.candidate_id, vote_answer n (get_vote_request fm) (pos 1)))
      sent p = omega (
        arith,
        count_if-append p rest (send_all k (length ms) w'.outbox),
        ap (λ ps. count_if p (send_all k (length ms) ps)) out,
      )

      requests_after : (v : ℕ) (b : Ballot) → requests (pos v) b fs' ≡ requests (pos v) b rest
      requests_after v b =
          omega
            (arith, sent (asks (pos v) b), ap one_if (grant_asks n (get_vote_request fm) (pos v) b))

      granted_after : (b : Ballot) → granted b fs' ≡ granted b rest + votes_in b (x ∷ [])
      granted_after b =
          omega (arith, sent (grants b), ap one_if (grant_counts n (get_vote_request fm) b))

      this_request :
          (v : ℕ) (b : Ballot)
          → (if k == v then votes_in b (x ∷ []) else 0) ≤ one_if (asks (pos v) b (pos k, fm))
      this_request v b = elim (Bool-cases (k == v)) [
        | inl same ↦ rw same (
            omega (arith, ap one_if (asks_for v k b fm type ∙ ap (λ z. z && same_ballot b x) same)))
        | inr other ↦ rw other (omega arith)
      ]

  granted-Turn :
      let req = get_vote_request fm in
      let w' : World C S = answer_vote req (pos 1) (record m.world {
        outbox = [];
        node = record (adopt_term req m.world.node) { voted_for = req.candidate_id };
      }) in
      Moves (with_empty m) w' → Turns ms fs es t k m here rest w'
  unfolding answer_vote
  granted-Turn moved =
      let req = get_vote_request fm in
      let n = adopt_term req m.world.node in
      let w' : World C S =
        answer_vote req (pos 1)
          (record m.world { outbox = []; node = record n { voted_for = req.candidate_id } }) in
      let (state_same, total_same, kept) = adopt_term_lem req m.world.node in
      vote-Turn n w' refl (rw (eq_refl (pos 1)) refl) moved total_same state_same refl
        (λ le. (ap (λ a. a.cur_term) (kept le), ap (λ a. a.votes_collected) (kept le)))

  pub request-Turn :
      Turns ms fs es t k m here rest (request_vote_request (get_vote_request fm) (with_empty m))
  request-Turn =
      let req = get_vote_request fm in
      elim (request-cases req (with_empty m)) [
        | inl refused ↦
            subst (Turns ms fs es t k m here rest) (sym refused)
              (refused-Turn (subst (Moves (with_empty m)) refused moves))
        | inr valid ↦ elim valid [
          | inl (adopted, leads) ↦
              subst (Turns ms fs es t k m here rest) (sym adopted)
                (adopted-Turn (subst (Moves (with_empty m)) adopted moves) leads)
          | inr granting ↦
              subst (Turns ms fs es t k m here rest) (sym granting)
                (granted-Turn (subst (Moves (with_empty m)) granting moves))
        ]
      ]
