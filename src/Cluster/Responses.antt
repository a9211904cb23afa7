-- ===== src/Cluster/Responses.antt =====
-- REQUEST_VOTE_RESPONSE of src/flowmq/cluster_node.cpp as a turn of one node of the cluster.
use flowmq.Base.{
  ℤ, pos, minus_one, ℕ, ◌+◌, ◌≤◌, ◌<◌, ◌/◌, List, [], ◌∷◌, some, Bool, true, false, not, ◌&&◌,
  Bool-cases, ok, get_elem?, length, count_if, one_if, ◌≡◌, ◌≢◌, refl, sym, ◌∙◌, ap, subst, arith,
  ◌≤ℤ◌, ◌<ℤ◌, ◌+ℤ◌, ltb_ℤ, ◌==ℤ◌, eq_refl, ≤ℤ_antisym, All, inl, inr, ◌⊎◌, +ℤ_parts, increment_lem,
}
use flowmq.Protocol.{FlowMessage, MessageType, RequestVoteResponse, get_vote_response}
use flowmq.Interfaces.{ClientManagerInterface, ClusterNodeStorageInterface}
use flowmq.ClusterNode.State.{World, State, candidate, leader, half}
use flowmq.ClusterNode.Follower.{is_candidate}
use flowmq.ClusterNode.Vote.{request_vote_response, count_vote}
use flowmq.ClusterNode.Frames.{Ballot, ballots}
use flowmq.ClusterNode.Advance.{Quiet-refl, request_vote_response-Quiet}
use flowmq.ClusterNode.Ballots.{Quiet-Moves}
use flowmq.ClusterNode.Plain.{Calm-refl}
use flowmq.Cluster.{Member, with_empty, elected}
use flowmq.Cluster.Traffic.{granted, grants}
use flowmq.Cluster.Counts.{own, total}
use flowmq.Cluster.Tally.{Tally, itself}
use flowmq.Cluster.Effects.{quiet-Turn, granted-own, own-Remembered}
use flowmq.Cluster.Events.{nothing_sent, none_won, Calm-Turn, Turns}

grants-it :
    (k : ℕ) (fm : FlowMessage)
    → fm.type ≡ MessageType.request_vote_response
    → ((get_vote_response fm).vote_result_term_granted ==ℤ pos 0) ≡ false
    → grants (record { term = (get_vote_response fm).term; candidate_id = pos k }) (pos k, fm)
      ≡ true
grants-it k fm type grant = ground (arith, eq_refl (pos k), eq_refl (get_vote_response fm).term)

above_half : (n : ℕ) (v : ℤ) → ltb_ℤ (pos n) v ≡ true → pos n <ℤ v
above_half n v h = ground arith

pub not_both : {s : State} → s ≡ candidate → s ≡ leader → ⊥
not_both c l = cc

module _ {C S : Type 0} where
  elected-one :
      (w w' : World C S)
      → w.node.state ≡ candidate
      → w'.node.state ≡ leader
      → elected w w' ≡ record { term = w'.node.cur_term; candidate_id = w'.node.node_id } ∷ []
  elected-one w w' c l = ground arith

  -- The node has counted the answer.
  record Counted (resp : RequestVoteResponse) (w w' : World C S) : Type 0 where
    was : w.node.state ≡ candidate
    grant : (resp.vote_result_term_granted ==ℤ pos 0) ≡ false
    term_le : w.node.cur_term ≤ℤ resp.term
    votes_le : w'.node.votes_collected ≤ℤ w.node.votes_collected +ℤ pos 1
    same :
        (w'.outbox ≡ w.outbox)
        × (w'.waiting_votes ≡ w.waiting_votes)
        × (w'.node.node_id ≡ w.node.node_id)
        × (w'.node.total_nodes ≡ w.node.total_nodes)
        × (w'.node.voted_for ≡ w.node.voted_for)
    result :
        ((w'.node.state ≡ candidate) × (w'.node.cur_term ≡ w.node.cur_term))
        ⊎ ((w'.node.state ≡ leader)
            × (w'.node.cur_term ≡ resp.term)
            × (ltb_ℤ (half w.node.total_nodes) w'.node.votes_collected ≡ true))

  response-cases :
      (resp : RequestVoteResponse) (w w' : World C S)
      → request_vote_response resp w ≡ ok w'
      → (w' ≡ w) ⊎ Counted resp w w'
  unfolding request_vote_response count_vote
  response-cases resp w w' e =
      elim (Bool-cases (
        is_candidate w.node.state
        && (not (resp.vote_result_term_granted ==ℤ pos 0)
            && not (ltb_ℤ resp.term w.node.cur_term)))) [
              | inl counts ↦ inr (record {
                was = ground arith;
                grant = ground arith;
                term_le = ground arith;
                votes_le = grind (arith, increment_lem, +ℤ_parts);
                same = grind (arith, increment_lem);
                result = grind (arith, increment_lem);
              })
              | inr not_counted ↦ inl (ground arith)
            ]

module _ {C S : Type 0} ⦃clients : ClientManagerInterface C⦄ ⦃disk : ClusterNodeStorageInterface S⦄
    (ms : List (Member C S)) (fs : List (ℤ × FlowMessage)) (es : List Ballot) (t : Tally ms fs es)
    (k : ℕ) (m : Member C S) (here : get_elem? ms k ≡ some m) (rest : List (ℤ × FlowMessage))
    (fm : FlowMessage)
    (came : (p : ℤ × FlowMessage → Bool) → count_if p fs ≡ one_if (p (pos k, fm)) + count_if p rest)
    (type : fm.type ≡ MessageType.request_vote_response) where
  -- A grant that is counted is for the term that the node is in, in which it has asked for votes.
  in_time :
      ((get_vote_response fm).vote_result_term_granted ==ℤ pos 0) ≡ false
      → m.world.node.cur_term ≤ℤ (get_vote_response fm).term
      → ((get_vote_response fm).term ≡ m.world.node.cur_term)
        × (1 ≤ own (itself k m.world.node) ms)
        × (m.world.node.voted_for ≢ minus_one)
        × (granted (itself k m.world.node) fs ≡ 1 + granted (itself k m.world.node) rest)
  in_time grant later =
      let resp = get_vote_response fm in
      let b : Ballot = record { term = resp.term; candidate_id = pos k } in
      let under_way : granted b fs ≡ 1 + granted b rest =
        came (grants b) ∙ ap (λ t. one_if t + granted b rest) (grants-it k fm type grant) in
      let asked = granted-own ms fs es t k m here b (omega (arith, under_way)) in
      let remembered = own-Remembered ms fs es t k m here b refl asked in
      let same = ≤ℤ_antisym resp.term m.world.node.cur_term remembered.0 later in
      (
        same,
        subst (λ z. 1 ≤ own (record { term = z; candidate_id = pos k }) ms) same asked,
        (remembered.1 same).1,
        subst
            (λ z.
              granted (record { term = z; candidate_id = pos k }) fs
              ≡ 1 + granted (record { term = z; candidate_id = pos k }) rest)
            same under_way,
      )

  majority :
      (w' : World C S)
      → Counted (get_vote_response fm) (with_empty m) w'
      → ltb_ℤ (half m.world.node.total_nodes) w'.node.votes_collected ≡ true
      → length ms / 2 < total (itself k m.world.node) ms
  majority w' c more =
      let (in_term, asked, voted, under_way) = in_time c.grant c.term_le in
      let b = itself k m.world.node in
      let known = (t.counted k m here c.was).0 asked in
      let more' : ltb_ℤ (pos (length ms / 2)) w'.node.votes_collected ≡ true =
        subst (λ n. ltb_ℤ (half n) w'.node.votes_collected ≡ true) (t.numbered k m here).1 more in
      omega (
        arith,
        above_half (length ms / 2) w'.node.votes_collected more',
        known,
        c.votes_le,
        under_way,
        +ℤ_parts m.world.node.votes_collected (pos (granted b fs)),
        +ℤ_parts m.world.node.votes_collected (pos 1),
      )

  won :
      (w' : World C S)
      → Counted (get_vote_response fm) (with_empty m) w'
      → All (λ b. length ms / 2 < total b ms) (elected m.world w')
  won w' c =
      let (in_term, asked, voted, under_way) = in_time c.grant c.term_le in
      elim c.result [
        | inl (still, _) ↦ none_won _ m.world w' (λ l. absurd (not_both still l))
        | inr (leads, new_term, more) ↦
            let (out, waiting, id_same, count_same, voted_same) = c.same in
            let number : w'.node.node_id ≡ pos k = id_same ∙ (t.numbered k m here).0 in
            let term : w'.node.cur_term ≡ m.world.node.cur_term = new_term ∙ in_term in
            let same : itself k m.world.node
                ≡ record { term = w'.node.cur_term; candidate_id = w'.node.node_id } =
              cc in
            subst (All _) (sym (elected-one m.world w' c.was leads))
              (subst (λ z. length ms / 2 < total z ms) same (majority w' c more), tt)
      ]

  leads :
      (w' : World C S)
      → Counted (get_vote_response fm) (with_empty m) w'
      → w'.node.state ≡ leader
      → (m.world.node.state ≡ leader) ⊎ (length ms / 2 < total (itself k w'.node) ms)
  leads w' c l =
      let (in_term, asked, voted, under_way) = in_time c.grant c.term_le in
      elim c.result [
        | inl (still, _) ↦ absurd (not_both still l)
        | inr (_, new_term, more) ↦ inr (
            subst (λ z. length ms / 2 < total (record { term = z; candidate_id = pos k }) ms)
              (sym (new_term ∙ in_term)) (majority w' c more))
      ]

  Counted-Turn :
      (w' : World C S)
      → request_vote_response (get_vote_response fm) (with_empty m) ≡ ok w'
      → Counted (get_vote_response fm) (with_empty m) w'
      → Turns ms fs es t k m here rest w'
  Counted-Turn w' e c =
      let (in_term, asked, voted, under_way) = in_time c.grant c.term_le in
      let (out, waiting, id_same, total_same, voted_same) = c.same in
      let quiet = request_vote_response-Quiet (get_vote_response fm) (with_empty m) w' e in
      let now : w'.node.cur_term ≡ m.world.node.cur_term = elim c.result [
        | inl (_, q) ↦ q
        | inr (_, q, _) ↦ q ∙ in_term
      ] in
      let fewer : w'.node.votes_collected +ℤ pos (granted (itself k w'.node) rest)
          ≤ℤ m.world.node.votes_collected +ℤ pos (granted (itself k w'.node) fs) =
        subst
          (λ z.
            w'.node.votes_collected
              +ℤ pos (granted (record { term = z; candidate_id = pos k }) rest)
            ≤ℤ m.world.node.votes_collected
              +ℤ pos (granted (record { term = z; candidate_id = pos k }) fs))
          (sym now)
          (omega (
            arith,
            c.votes_le,
            under_way,
            +ℤ_parts w'.node.votes_collected (pos (granted (itself k m.world.node) rest)),
            +ℤ_parts m.world.node.votes_collected (pos (granted (itself k m.world.node) fs)),
            +ℤ_parts m.world.node.votes_collected (pos 1),
          )) in
      quiet-Turn ms fs es t k m here rest w' (elected m.world w') (λ p. omega (arith, came p))
        (nothing_sent k (length ms) w'.outbox out) (ap ballots out) (Quiet-Moves quiet) total_same
        (λ s. (λ _. (c.was, fewer), λ _ free. absurd (voted (sym voted_same ∙ free)))) (won w' c)
        (leads w' c)

  pub response-Turn :
      (w' : World C S)
      → request_vote_response (get_vote_response fm) (with_empty m) ≡ ok w'
      → Turns ms fs es t k m here rest w'
  response-Turn w' e = elim (response-cases (get_vote_response fm) (with_empty m) w' e) [
    | inl same ↦ subst (Turns ms fs es t k m here rest) (sym same) (
        Calm-Turn ms fs es t k m here rest (with_empty m) (λ p. omega (arith, came p))
          (Quiet-refl (with_empty m)) (Calm-refl (with_empty m)))
    | inr c ↦ Counted-Turn w' e c
  ]
