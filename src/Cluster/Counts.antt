-- ===== src/Cluster/Counts.antt =====
-- The votes that all nodes of src/flowmq/cluster_node.cpp have sent for a candidate of a term.
use flowmq.Base.{
  ℤ, pos, minus_one, negsuc, ℕ, zero, suc, ◌+◌, ◌≤◌, List, [], ◌∷◌, ◌++◌, Option, none, some, Bool,
  true, false, Bool-cases, get_elem?, set_at, get_elem?-set_at, length, count_if, count_if-append,
  one_if, All, eq_iff, ◌==◌, ==_iff, if◌then◌else◌, ◌≡◌, refl, sym, ◌∙◌, ap, subst, arith, inl, inr,
}
use flowmq.ClusterNode.Frames.{Ballot}
use flowmq.ClusterNode.Election.{Consistent, VotesOnce}
use flowmq.Cluster.{Member}
use flowmq.Cluster.Traffic.{votes_in, same_ballot}

abbrev pub is_by_of : ℤ → ℕ → Bool
is_by_of (pos c) k = k == c
is_by_of (negsuc c) k = false

abbrev pub if_by : ℕ → Ballot → ℕ → ℕ
if_by k b n = if is_by_of b.candidate_id k then n else 0

pub same_ballot_iff : (b x : Ballot) → same_ballot b x ≡ true → x ≡ b
same_ballot_iff b x h =
    let (term, candidate) : (x.term ≡ b.term) × (x.candidate_id ≡ b.candidate_id) =
      ground (arith, eq_iff x.term b.term, eq_iff x.candidate_id b.candidate_id) in
    cc

-- What holds of all votes holds of one that is among them.
pub All-votes_in {ℓ} :
    (P : Ballot → Type ℓ) (b : Ballot) (bs : List Ballot) → All P bs → 1 ≤ votes_in b bs → P b
unfolding count_if
All-votes_in P b [] h le = absurd (omega (arith, le))
All-votes_in P b (x ∷ bs) (h, hs) le = elim (Bool-cases (same_ballot b x)) [
  | inl same ↦ subst P (same_ballot_iff b x same) h
  | inr other ↦ All-votes_in P b bs hs (omega (arith, le, ap one_if other))
]

pub VotesOnce-Consistent :
    (b c : Ballot) (bs : List Ballot)
    → VotesOnce bs
    → 1 ≤ votes_in b bs
    → 1 ≤ votes_in c bs
    → Consistent b c
unfolding count_if
VotesOnce-Consistent b c [] o hb hc = absurd (omega (arith, hb))
VotesOnce-Consistent b c (x ∷ bs) (o, os) hb hc = elim (Bool-cases (same_ballot b x)) [
  | inl p ↦ elim (Bool-cases (same_ballot c x)) [
    | inl q ↦ λ _. ap (λ y. y.candidate_id) (sym (same_ballot_iff b x p) ∙ same_ballot_iff c x q)
    | inr q ↦
        subst (λ y. Consistent y c) (same_ballot_iff b x p)
          (All-votes_in (Consistent x) c bs o (omega (arith, hc, ap one_if q)))
  ]
  | inr p ↦ elim (Bool-cases (same_ballot c x)) [
    | inl q ↦ λ s. sym (
        subst (λ y. Consistent y b) (same_ballot_iff c x q)
          (All-votes_in (Consistent x) b bs o (omega (arith, hb, ap one_if p))) (sym s))
    | inr q ↦
        VotesOnce-Consistent b c bs os (omega (arith, hb, ap one_if p))
          (omega (arith, hc, ap one_if q))
  ]
]

module _ {C S : Type 0} where
  abbrev votes_of : Ballot → Option (Member C S) → ℕ
  votes_of b none = 0
  votes_of b (some m) = votes_in b m.cast

  -- The votes of the candidate for itself.
  abbrev own_of : Ballot → ℤ → List (Member C S) → ℕ
  own_of b (pos c) ms = votes_of b (get_elem? ms c)
  own_of b (negsuc c) ms = 0

  abbrev pub own : Ballot → List (Member C S) → ℕ
  own b ms = own_of b b.candidate_id ms

  unfoldable pub total : Ballot → List (Member C S) → ℕ
  total b [] = 0
  total b (m ∷ ms) = votes_in b m.cast + total b ms

  -- Node k has sent the votes bs in addition.
  pub total-set_at :
      (b : Ballot) (k : ℕ) (m m' : Member C S) (bs : List Ballot) (ms : List (Member C S))
      → get_elem? ms k ≡ some m
      → m'.cast ≡ m.cast ++ bs
      → total b (set_at k m' ms) ≡ total b ms + votes_in b bs
  unfolding total
  total-set_at b k m m' bs [] e h = cc
  total-set_at b zero m m' bs (x ∷ ms) e h =
      let same : x ≡ m = cc in
      omega (
        arith,
        ap (votes_in b) h,
        ap (λ y. votes_in b y.cast) same,
        count_if-append (same_ballot b) m.cast bs,
      )
  total-set_at b (suc k) m m' bs (x ∷ ms) e h = omega (arith, total-set_at b k m m' bs ms e h)

  votes-set_at :
      (b : Ballot) (k : ℕ) (m m' : Member C S) (bs : List Ballot) (ms : List (Member C S)) (v : ℕ)
      → get_elem? ms k ≡ some m
      → m'.cast ≡ m.cast ++ bs
      → votes_of b (get_elem? (set_at k m' ms) v)
        ≡ votes_of b (get_elem? ms v) + (if k == v then votes_in b bs else 0)
  votes-set_at b k m m' bs ms v e h =
      let found = get_elem?-set_at k v m' m ms e in
      elim (Bool-cases (k == v)) [
        | inl same ↦
            let here : get_elem? (set_at k m' ms) v ≡ some m' = cc in
            let before : get_elem? ms v ≡ some m =
              subst (λ j. get_elem? ms j ≡ some m) ((==_iff k v).0 same) e in
            ap (votes_of b) here
            ∙ ap (votes_in b) h
            ∙ count_if-append (same_ballot b) m.cast bs
            ∙ rw (before, same) refl
        | inr other ↦
            let here : get_elem? (set_at k m' ms) v ≡ get_elem? ms v = cc in
            ap (votes_of b) here ∙ rw other (omega arith)
      ]

  pub own-set_at :
      (b : Ballot) (k : ℕ) (m m' : Member C S) (bs : List Ballot) (ms : List (Member C S))
      → get_elem? ms k ≡ some m
      → m'.cast ≡ m.cast ++ bs
      → own b (set_at k m' ms) ≡ own b ms + if_by k b (votes_in b bs)
  own-set_at b k m m' bs ms e h = own_of-set_at b.candidate_id
    where
      own_of-set_at :
          (c : ℤ)
          → own_of b c (set_at k m' ms)
            ≡ own_of b c ms + (if is_by_of c k then votes_in b bs else 0)
      own_of-set_at (pos c) = votes-set_at b k m m' bs ms c e h
      own_of-set_at (negsuc c) = refl

  pub own-get :
      (b : Ballot) (k : ℕ) (m : Member C S) (ms : List (Member C S))
      → get_elem? ms k ≡ some m
      → b.candidate_id ≡ pos k
      → own b ms ≡ votes_in b m.cast
  own-get b k m ms e by_k = ap (λ c. own_of b c ms) by_k ∙ ap (votes_of b) e

  pub own-nobody : (b : Ballot) (ms : List (Member C S)) → b.candidate_id ≡ minus_one → own b ms ≡ 0
  own-nobody b ms e = ap (λ c. own_of b c ms) e

  pub own-none :
      (b : Ballot) (ms : List (Member C S))
      → ((k : ℕ) (m : Member C S) → get_elem? ms k ≡ some m → m.cast ≡ [])
      → own b ms ≡ 0
  unfolding count_if
  own-none b ms h = own_of-none b.candidate_id
    where
      votes_of-none : (k : ℕ) (o : Option (Member C S)) → get_elem? ms k ≡ o → votes_of b o ≡ 0
      votes_of-none k none e = refl
      votes_of-none k (some m) e = ap (votes_in b) (h k m e)

      own_of-none : (c : ℤ) → own_of b c ms ≡ 0
      own_of-none (pos k) = votes_of-none k (get_elem? ms k) refl
      own_of-none (negsuc k) = refl

  -- The candidate has as many votes as the rest has and it itself.
  pub total-get :
      (b : Ballot) (k : ℕ) (m : Member C S) (ms : List (Member C S))
      → get_elem? ms k ≡ some m
      → votes_in b m.cast ≤ total b ms
  unfolding total
  total-get b k m [] e = cc
  total-get b zero m (x ∷ ms) e =
      let same : x ≡ m = cc in omega (arith, ap (λ y. votes_in b y.cast) same)
  total-get b (suc k) m (x ∷ ms) e = omega (arith, total-get b k m ms e)

  -- A vote that nobody has sent.
  pub total-none :
      (b : Ballot) (ms : List (Member C S))
      → ((k : ℕ) (m : Member C S) → get_elem? ms k ≡ some m → votes_in b m.cast ≡ 0)
      → total b ms ≡ 0
  unfolding total
  total-none b [] h = refl
  total-none b (m ∷ ms) h = omega (arith, h 0 m refl, total-none b ms (λ k m e. h (suc k) m e))

  -- Of two candidates of which no node has voted for both, nor for one twice.
  pub total-both :
      (b c : Ballot) (ms : List (Member C S))
      → ((k : ℕ) (m : Member C S)
          → get_elem? ms k ≡ some m
          → votes_in b m.cast + votes_in c m.cast ≤ 1)
      → total b ms + total c ms ≤ length ms
  unfolding total
  total-both b c [] h = omega arith
  total-both b c (m ∷ ms) h = omega (arith, h 0 m refl, total-both b c ms (λ k m e. h (suc k) m e))

  pub length-set_at :
      (k : ℕ) (m : Member C S) (ms : List (Member C S)) → length (set_at k m ms) ≡ length ms
  length-set_at k m [] = refl
  length-set_at zero m (x ∷ ms) = refl
  length-set_at (suc k) m (x ∷ ms) = ground (arith, length-set_at k m ms)
