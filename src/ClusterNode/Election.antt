-- ===== src/ClusterNode/Election.antt =====
-- The votes of one node over a run of src/flowmq/cluster_node.cpp.
use flowmq.Base.{
  minus_one, List, [], ◌∷◌, ◌++◌, ok, >>=-eq-ok, ◌≡◌, sym, ◌∙◌, ap, subst, append_assoc, arith,
  ◌≤ℤ◌, ◌≢◌, inl, inr, All, All-append, All-map, ≤ℤ_antisym, ≤ℤ_trans, ok-injective,
}
use flowmq.Interfaces.{ClientManagerInterface, ClusterNodeStorageInterface}
use flowmq.ClusterNode.State.{World, ClusterNode}
use flowmq.ClusterNode.Frames.{Ballot, ballots}
use flowmq.ClusterNode.Ballots.{Casts, none_cast, one_cast, IsSane, handle-Moves}
use flowmq.ClusterNode.Handler.{Event, handle, run}

-- Two votes for one term are for one candidate.
abbrev pub Consistent : Ballot → Ballot → Type 0
Consistent b c = b.term ≡ c.term → b.candidate_id ≡ c.candidate_id

abbrev pub VotesOnce : List Ballot → Type 0
VotesOnce [] = Unit {0}
VotesOnce (b ∷ bs) = All (Consistent b) bs × VotesOnce bs

-- A vote is for no later term than the node's, and one for the node's own term is remembered.
abbrev pub Remembered : ClusterNode → Ballot → Type 0
Remembered n b =
    (b.term ≤ℤ n.cur_term)
    × (b.term ≡ n.cur_term → (b.candidate_id ≡ n.voted_for) × (n.voted_for ≢ minus_one))

abbrev pub IsHonest : ClusterNode → List Ballot → Type 0
IsHonest n bs = All (Remembered n) bs × VotesOnce bs

VotesOnce-append :
    (bs : List Ballot) (b : Ballot)
    → VotesOnce bs
    → All (λ c. Consistent c b) bs
    → VotesOnce (bs ++ b ∷ [])
VotesOnce-append [] b o h = (tt, tt)
VotesOnce-append (c ∷ bs) b o h =
    (All-append (Consistent c) bs (b ∷ []) o.0 (h.0, tt), VotesOnce-append bs b o.1 h.1)

module _ {C S : Type 0} (w w' : World C S) (le : w.node.cur_term ≤ℤ w'.node.cur_term) where
  -- Only a vote of the term that the node was in already can be for its new term.
  same_term :
      (b : Ballot)
      → Remembered w.node b
      → b.term ≡ w'.node.cur_term
      → w.node.cur_term ≡ w'.node.cur_term
  same_term b r e =
      ≤ℤ_antisym w.node.cur_term w'.node.cur_term le (subst (λ t. t ≤ℤ w.node.cur_term) e r.0)

  still-Remembered :
      (w.node.cur_term ≡ w'.node.cur_term
        → w.node.voted_for ≢ minus_one
        → w'.node.voted_for ≡ w.node.voted_for)
      → (b : Ballot) → Remembered w.node b
      → Remembered w'.node b
  still-Remembered kept b r = (
    ≤ℤ_trans b.term w.node.cur_term w'.node.cur_term r.0 le,
    λ e.
        let s = same_term b r e in
        let (voted, somebody) = r.1 (e ∙ sym s) in
        let k = kept s somebody in (voted ∙ sym k, λ f. somebody (sym k ∙ f)),
  )

  -- After the votes that the node sent before.
  pub Casts-IsHonest :
      (past : List Ballot)
      → Casts w w'
      → IsHonest w.node (past ++ ballots w.outbox)
      → IsHonest w'.node (past ++ ballots w'.outbox)
  Casts-IsHonest past (none_cast same kept) (known, once) =
      subst (λ bs. IsHonest w'.node (past ++ bs)) (sym same)
        (All-map _ _ (past ++ ballots w.outbox) (still-Remembered (λ s _. kept s)) known, once)
  Casts-IsHonest past (one_cast b more term candidate somebody free) (known, once) =
      let sent = past ++ ballots w.outbox in
      let known' = All-map _ (Remembered w'.node) sent (still-Remembered kept) known in
      subst (IsHonest w'.node)
        (append_assoc past (ballots w.outbox) (b ∷ []) ∙ ap (λ bs. past ++ bs) (sym more))
        (
          All-append (Remembered w'.node) sent (b ∷ []) known'
              ((current, λ e. (candidate, somebody)), tt),
          VotesOnce-append sent b once (All-map _ (λ c. Consistent c b) sent agrees known'),
        )
    where
      kept :
          w.node.cur_term ≡ w'.node.cur_term
          → w.node.voted_for ≢ minus_one
          → w'.node.voted_for ≡ w.node.voted_for
      kept s v = elim (free s) [
        | inl nobody ↦ absurd (v nobody)
        | inr same ↦ sym candidate ∙ sym same
      ]

      current : b.term ≤ℤ w'.node.cur_term
      current = subst (λ t. t ≤ℤ w'.node.cur_term) (sym term) (omega arith)

      agrees : (c : Ballot) → Remembered w'.node c → Consistent c b
      agrees c r e = (r.1 (e ∙ term)).0 ∙ sym candidate

module _ {C S : Type 0} ⦃clients : ClientManagerInterface C⦄
    ⦃disk : ClusterNodeStorageInterface S⦄ where
  -- For a node that is not numbered -1 and is never asked to vote for -1, a run that returns keeps:
  -- no two votes that the node has sent (a request for votes counts as one for itself) are of one
  -- term and for different candidates, none is of a later term than the node's, and one of the
  -- node's own term is for the candidate that it remembers.
  pub run-VotesOnce :
      (es : List Event) (w w' : World C S)
      → All IsSane es
      → w.node.node_id ≢ minus_one
      → IsHonest w.node (ballots w.outbox)
      → run es w ≡ ok w'
      → IsHonest w'.node (ballots w'.outbox)
  unfolding run
  run-VotesOnce [] w w' s n h e = subst (λ v. IsHonest v.node (ballots v.outbox)) (ok-injective e) h
  run-VotesOnce (ev ∷ es) w w' (s, ss) n h e =
      let (v, first, rest) = >>=-eq-ok (handle ev w) (run es) e in
      let m = handle-Moves ev w v s n first in
      run-VotesOnce es v w' ss (λ f. n (sym m.node_id_same ∙ f))
        (Casts-IsHonest w v m.term_le [] m.casts h) rest

  -- For a node that is not numbered -1 and is never asked to vote for -1, neither the term nor the
  -- commit index is lower after a run that returns than before it.
  pub run-Moves :
      (es : List Event) (w w' : World C S)
      → All IsSane es
      → w.node.node_id ≢ minus_one
      → run es w ≡ ok w'
      → (w.node.cur_term ≤ℤ w'.node.cur_term) × (w.node.commit_index ≤ℤ w'.node.commit_index)
  unfolding run
  run-Moves [] w w' s n e = ground arith
  run-Moves (ev ∷ es) w w' (s, ss) n e =
      let (v, first, rest) = >>=-eq-ok (handle ev w) (run es) e in
      let m = handle-Moves ev w v s n first in
      let r = run-Moves es v w' ss (λ f. n (sym m.node_id_same ∙ f)) rest in
      (
        ≤ℤ_trans w.node.cur_term v.node.cur_term w'.node.cur_term m.term_le r.0,
        ≤ℤ_trans w.node.commit_index v.node.commit_index w'.node.commit_index m.commit_le r.1,
      )
