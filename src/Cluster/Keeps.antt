-- ===== src/Cluster/Keeps.antt =====
-- A step of one node of src/flowmq/cluster_node.cpp that keeps what it has to keep leaves the votes of
-- the cluster in order, and so does the loss of messages.
use flowmq.Base.{
  ℤ, pos, ℕ, ◌+◌, ◌≤◌, ◌<◌, ◌/◌, List, ◌++◌, some, Bool, false, Bool-cases, get_elem?, set_at,
  get_elem?-set_at, count_if, count_if-append, length, ◌==◌, ==_iff, ◌≡◌, refl, sym, ◌∙◌, ap, subst,
  arith, inl, inr, ◌≤ℤ◌, ≤ℤ_trans, ◌+ℤ◌, All-append, All-map, +ℤ_parts, ◌⊎◌,
}
use flowmq.Protocol.{FlowMessage}
use flowmq.ClusterNode.State.{World, candidate, leader}
use flowmq.ClusterNode.Frames.{Ballot}
use flowmq.ClusterNode.Election.{IsHonest}
use flowmq.Cluster.{Member}
use flowmq.Cluster.Traffic.{votes_in, same_ballot, requests, granted, asks, grants}
use flowmq.Cluster.Counts.{own, total, if_by, total-set_at, own-set_at, length-set_at}
use flowmq.Cluster.Tally.{Tally, Turn, CountsRight, itself, if_same}

module _ {C S : Type 0} where
  set_at-cases :
      (k j : ℕ) (a old x : Member C S) (ms : List (Member C S))
      → get_elem? ms k ≡ some old
      → get_elem? (set_at k a ms) j ≡ some x
      → ((k ≡ j) × (a ≡ x)) ⊎ (((k == j) ≡ false) × (get_elem? ms j ≡ some x))
  set_at-cases k j a old x ms e h =
      let found = get_elem?-set_at k j a old ms e in
      elim (Bool-cases (k == j)) [
        | inl same ↦ inl ((==_iff k j).0 same, cc)
        | inr other ↦ inr (other, cc)
      ]

  pub Turn-Tally :
      (ms : List (Member C S)) (fs fs' : List (ℤ × FlowMessage)) (es es' : List Ballot) (k : ℕ)
      (m : Member C S) (w' : World C S) (bs : List Ballot) (halted : Bool)
      → get_elem? ms k ≡ some m
      → Tally ms fs es
      → Turn ms fs fs' k m w' bs es'
      → Tally
          (set_at k (record { world = w'; cast = m.cast ++ bs; stopped = halted }) ms)
          fs'
          (es ++ es')
  Turn-Tally ms fs fs' es es' k m w' bs halted here t u = record {
    numbered = λ j x e. elim (set_at-cases k j m' m x ms here e) [
      | inl (at_k, same) ↦
          let (number, count) = t.numbered k m here in
          (
            ap (λ y. y.world.node.node_id) (sym same) ∙ u.node_id_same ∙ number ∙ ap pos at_k,
            ap (λ y. y.world.node.total_nodes) (sym same)
                ∙ u.total_same
                ∙ count
                ∙ ap pos (sym same_length),
          )
      | inr (other, before) ↦
          let (number, count) = t.numbered j x before in (number, count ∙ ap pos (sym same_length))
    ];
    honest = λ j x e. elim (set_at-cases k j m' m x ms here e) [
      | inl (at_k, same) ↦ subst (λ y. IsHonest y.world.node y.cast) same u.honest
      | inr (other, before) ↦ t.honest j x before
    ];
    own_le = λ b. omega (arith, own_after b, u.own_le b);
    asked = λ v x b e. elim (set_at-cases k v m' m x ms here e) [
      | inl (at_k, same) ↦
          let asked : requests (pos k) b fs' + votes_in b (m.cast ++ bs) ≤ own b (set_at k m' ms) =
            omega (
              arith,
              t.asked k m b here,
              u.asked k b,
              own_after b,
              if_same k (votes_in b bs),
              count_if-append (same_ballot b) m.cast bs,
            ) in
          subst (λ y. requests (pos v) b fs' + votes_in b y.cast ≤ own b (set_at k m' ms)) same
            (subst
              (λ i. requests (pos i) b fs' + votes_in b (m.cast ++ bs) ≤ own b (set_at k m' ms))
              at_k asked)
      | inr (other, before) ↦ omega (arith, own_after b, t.asked v x b before, u.asked v b)
    ];
    answered = λ b. omega (arith, own_after b, total_after b, t.answered b, u.answered b);
    counted = λ j x e c. elim (set_at-cases k j m' m x ms here e) [
      | inl (at_k, same) ↦
          subst (λ y. y.world.node.state ≡ candidate → Right j y) same
            (subst (λ i. w'.node.state ≡ candidate → Right i m') at_k right) c
      | inr (other, before) ↦ other_right j x other before c
    ];
    won =
        All-append (λ b. length (set_at k m' ms) / 2 < total b (set_at k m' ms)) es es'
          (All-map _ _ es (λ b h. omega (arith, total_after b, same_half, h)) t.won)
          (All-map _ _ es' (λ b h. omega (arith, total_after b, same_half, h)) u.won);
    led = λ j x e l. elim (set_at-cases k j m' m x ms here e) [
      | inl (at_k, same) ↦
          subst (λ y. y.world.node.state ≡ leader → Led j y) same
            (subst (λ i. w'.node.state ≡ leader → Led i m') at_k now_leads) l
      | inr (other, before) ↦
          let (term, le, more) = t.led j x before l in
          (
            term,
            le,
            omega (
              arith,
              more,
              total_after (record { term = term; candidate_id = pos j }),
              same_half,
            ),
          )
    ];
  }
    where
      m' : Member C S
      m' = record { world = w'; cast = m.cast ++ bs; stopped = halted }

      own_after : (b : Ballot) → own b (set_at k m' ms) ≡ own b ms + if_by k b (votes_in b bs)
      own_after b = own-set_at b k m m' bs ms here refl

      total_after : (b : Ballot) → total b (set_at k m' ms) ≡ total b ms + votes_in b bs
      total_after b = total-set_at b k m m' bs ms here refl

      same_length : length (set_at k m' ms) ≡ length ms
      same_length = length-set_at k m' ms

      same_half : length (set_at k m' ms) / 2 ≡ length ms / 2
      same_half = ap (λ n. n / 2) same_length

      Led : ℕ → Member C S → Type 0
      Led i y =
          (term : ℤ) × (term ≤ℤ y.world.node.cur_term)
          × (length (set_at k m' ms) / 2
              < total (record { term = term; candidate_id = pos i }) (set_at k m' ms))

      now_leads : w'.node.state ≡ leader → Led k m'
      now_leads l = elim (u.leads l) [
        | inl was ↦
            let (term, le, more) = t.led k m here was in
            (
              term,
              ≤ℤ_trans term m.world.node.cur_term w'.node.cur_term le u.term_le,
              omega (
                arith,
                more,
                total_after (record { term = term; candidate_id = pos k }),
                same_half,
              ),
            )
        | inr more ↦ (
          w'.node.cur_term,
          omega arith,
          omega (arith, more, total_after (itself k w'.node), same_half),
        )
      ]

      Right : ℕ → Member C S → Type 0
      Right i y =
          let b = itself i y.world.node in
          CountsRight (own b (set_at k m' ms)) (total b (set_at k m' ms)) (granted b fs')
            y.world.waiting_votes y.world.node

      right : w'.node.state ≡ candidate → Right k m'
      right c =
          let b = itself k w'.node in
          let (some_asked, none_asked) = u.counted c in
          (
            λ a.
                subst (λ n. w'.node.votes_collected +ℤ pos (granted b fs') ≤ℤ pos n)
                  (sym (total_after b))
                  (some_asked (omega (arith, a, own_after b, if_same k (votes_in b bs)))),
            none_asked,
          )

      other_right :
          (j : ℕ) (x : Member C S)
          → (k == j) ≡ false
          → get_elem? ms j ≡ some x
          → x.world.node.state ≡ candidate
          → Right j x
      other_right j x other before c =
          let b = itself j x.world.node in
          let (some_asked, none_asked) = t.counted j x before c in
          let not_by : if_by k b (votes_in b bs) ≡ 0 = rw other refl in
          (
            λ a. omega (
              arith,
              some_asked (omega (arith, a, own_after b, not_by)),
              total_after b,
              u.answered b,
              not_by,
              +ℤ_parts x.world.node.votes_collected (pos (granted b fs)),
              +ℤ_parts x.world.node.votes_collected (pos (granted b fs')),
            ),
            none_asked,
          )

  -- Messages that are lost change nothing.
  pub Tally-lost :
      (ms : List (Member C S)) (fs rest : List (ℤ × FlowMessage)) (es : List Ballot)
      → Tally ms fs es
      → ((p : ℤ × FlowMessage → Bool) → count_if p rest ≤ count_if p fs)
      → Tally ms rest es
  Tally-lost ms fs rest es t less = record {
    numbered = t.numbered;
    honest = t.honest;
    own_le = t.own_le;
    asked = λ v m b here. omega (arith, t.asked v m b here, less (asks (pos v) b));
    answered = λ b. omega (arith, t.answered b, less (grants b));
    counted = λ k m here c.
        let b = itself k m.world.node in
        let (some_asked, none_asked) = t.counted k m here c in
        (
          λ a. omega (
            arith,
            some_asked a,
            less (grants b),
            +ℤ_parts m.world.node.votes_collected (pos (granted b fs)),
            +ℤ_parts m.world.node.votes_collected (pos (granted b rest)),
          ),
          none_asked,
        );
    won = t.won;
    led = t.led;
  }
