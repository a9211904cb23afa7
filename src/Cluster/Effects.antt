-- ===== src/Cluster/Effects.antt =====
-- What a step of one node of src/flowmq/cluster_node.cpp does to the votes of the cluster.
use flowmq.Base.{
  ℤ, pos, minus_one, ℕ, zero, suc, ◌≤◌, ◌<◌, ◌/◌, List, [], ◌++◌, some, Bool, true, false,
  get_elem?, length, append-nil, count_if, count_if-append, ◌==◌, if◌then◌else◌, ◌≡◌, refl, sym,
  subst, arith, ◌≤ℤ◌, ◌+ℤ◌, All-map, ≤ℤ_antisym, All, ◌⊎◌, inl, inr, +ℤ_parts,
}
use flowmq.Protocol.{FlowMessage}
use flowmq.ClusterNode.State.{World, candidate, leader}
use flowmq.ClusterNode.Frames.{Ballot, ballots}
use flowmq.ClusterNode.Ballots.{Moves}
use flowmq.ClusterNode.Election.{IsHonest, Casts-IsHonest, Remembered}
use flowmq.Cluster.{Member, with_empty, send_all}
use flowmq.Cluster.Traffic.{requests, granted, asks, grants}
use flowmq.Cluster.Counts.{own, total, own-get, is_by_of, total-none, All-votes_in}
use flowmq.Cluster.Tally.{Tally, Turn, itself}

pub zero-cases : (n : ℕ) → (n ≡ 0) ⊎ (1 ≤ n)
zero-cases zero = inl refl
zero-cases (suc n) = inr (omega arith)

pub if_zero : (t : Bool) (n : ℕ) → n ≡ 0 → (if t then n else 0) ≡ 0
if_zero true n h = h
if_zero false n h = refl

module _ {C S : Type 0} where
  pub Moves-IsHonest :
      (m : Member C S) (w' : World C S)
      → IsHonest m.world.node m.cast
      → Moves (with_empty m) w'
      → IsHonest w'.node (m.cast ++ ballots w'.outbox)
  Moves-IsHonest m w' h moves =
      Casts-IsHonest (with_empty m) w' moves.term_le m.cast moves.casts
        (subst (IsHonest m.world.node) (sym (append-nil m.cast)) h)

module _ {C S : Type 0} (ms : List (Member C S)) (fs : List (ℤ × FlowMessage)) (es : List Ballot)
    (t : Tally ms fs es) (k : ℕ) (m : Member C S) (here : get_elem? ms k ≡ some m) where
  pub own-Remembered :
      (b : Ballot) → b.candidate_id ≡ pos k → 1 ≤ own b ms → Remembered m.world.node b
  own-Remembered b by_k le =
      All-votes_in (Remembered m.world.node) b m.cast (t.honest k m here).0
        (subst (λ n. 1 ≤ n) (own-get b k m ms here by_k) le)

  -- A grant that is under way answers a request.
  pub granted-own : (b : Ballot) → 1 ≤ granted b fs → 1 ≤ own b ms
  granted-own b le = elim (zero-cases (own b ms)) [
    | inl none ↦ absurd (
        omega (
          arith,
          le,
          t.answered b,
          total-none b ms (λ j x e. omega (arith, none, t.asked j x b e)),
        ))
    | inr one ↦ one
  ]

  -- What a candidate has counted, for its term under any name.
  pub counted_in :
      m.world.node.state ≡ candidate
      → (term : ℤ) → term ≡ m.world.node.cur_term
      → let b : Ballot = record { term = term; candidate_id = pos k } in
        1 ≤ own b ms → m.world.node.votes_collected +ℤ pos (granted b fs) ≤ℤ pos (total b ms)
  counted_in was term same =
      subst
        (λ z.
          let b : Ballot = record { term = z; candidate_id = pos k } in
          1 ≤ own b ms → m.world.node.votes_collected +ℤ pos (granted b fs) ≤ℤ pos (total b ms))
        (sym same) ((t.counted k m here was).0)

  -- A step without a vote.
  pub quiet-Turn :
      (rest : List (ℤ × FlowMessage)) (w' : World C S) (won : List Ballot)
      → ((p : ℤ × FlowMessage → Bool) → count_if p rest ≤ count_if p fs)
      → ((v : ℤ) (b : Ballot)
          → (requests v b (send_all k (length ms) w'.outbox) ≡ 0)
            × (granted b (send_all k (length ms) w'.outbox) ≡ 0))
      → ballots w'.outbox ≡ []
      → Moves (with_empty m) w'
      → w'.node.total_nodes ≡ m.world.node.total_nodes
      → (w'.node.state ≡ candidate
          → (w'.node.cur_term ≡ m.world.node.cur_term
              → (m.world.node.state ≡ candidate)
                × (w'.node.votes_collected +ℤ pos (granted (itself k w'.node) rest)
                    ≤ℤ m.world.node.votes_collected +ℤ pos (granted (itself k w'.node) fs)))
            × (1 ≤ w'.waiting_votes
                → w'.node.voted_for ≡ minus_one
                → w'.node.votes_collected ≤ℤ pos 0))
      → All (λ b. length ms / 2 < total b ms) won
      → (w'.node.state ≡ leader
          → (m.world.node.state ≡ leader) ⊎ (length ms / 2 < total (itself k w'.node) ms))
      → Turn ms fs (rest ++ send_all k (length ms) w'.outbox) k m w' (ballots w'.outbox) won
  unfolding count_if
  quiet-Turn rest w' won less plain none moves total_same counts wins leads =
      subst (λ bs. Turn ms fs fs' k m w' bs won) (sym none)
        (record {
          node_id_same = moves.node_id_same;
          total_same = total_same;
          term_le = moves.term_le;
          honest =
              subst (λ bs. IsHonest w'.node (m.cast ++ bs)) none
                (Moves-IsHonest m w' (t.honest k m here) moves);
          own_le = λ b. omega (arith, t.own_le b, if_zero (is_by_of b.candidate_id k) 0 refl);
          asked = λ v b. omega (
            arith,
            count_if-append (asks (pos v) b) rest sent,
            less (asks (pos v) b),
            (plain (pos v) b).0,
            if_zero (k == v) 0 refl,
          );
          answered = λ b. omega (arith, granted_le b, if_zero (is_by_of b.candidate_id k) 0 refl);
          counted = λ c.
              let b = itself k w'.node in
              let (some_asked, none_asked) = counts c in
              (
                λ a.
                    let own_some : 1 ≤ own b ms = omega (arith, a) in
                    let old = (own-Remembered b refl own_some).0 in
                    let same : w'.node.cur_term ≡ m.world.node.cur_term =
                      ≤ℤ_antisym w'.node.cur_term m.world.node.cur_term old moves.term_le in
                    let (was, votes) = some_asked same in
                    let before' = counted_in was w'.node.cur_term same own_some in
                    omega (
                      arith,
                      before',
                      votes,
                      granted_same b,
                      +ℤ_parts w'.node.votes_collected (pos (granted b fs')),
                      +ℤ_parts w'.node.votes_collected (pos (granted b rest)),
                    ),
                none_asked,
              );
          won = All-map _ _ won (λ b h. omega (arith, h)) wins;
          leads = λ l. elim (leads l) [ inl was ↦ inl was | inr more ↦ inr (omega (arith, more)) ];
        })
    where
      sent : List (ℤ × FlowMessage)
      sent = send_all k (length ms) w'.outbox

      fs' : List (ℤ × FlowMessage)
      fs' = rest ++ sent

      granted_same : (b : Ballot) → granted b fs' ≡ granted b rest
      granted_same b = omega (arith, count_if-append (grants b) rest sent, (plain (pos 0) b).1)

      granted_le : (b : Ballot) → granted b fs' ≤ granted b fs
      granted_le b = omega (arith, granted_same b, less (grants b))
