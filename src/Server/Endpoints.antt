-- ===== src/Server/Endpoints.antt =====
-- The endpoints that src/application/cluster_node.cpp hands to the ClusterManager.
use flowmq.Base.{
  count_if, one_if, ℤ, pos, ℕ, suc, ◌+◌, ◌≤◌, ◌<◌, Bytes, List, [], ◌∷◌, Option, none, Bool, true,
  false, Bool-cases, ok, ◌>>=◌, >>=-eq-ok, ok-injective, or_fault, ◌==ℤ◌, eq_iff, if◌then◌else◌,
  ◌≡◌, refl, sym, ◌∙◌, ap, subst, arith, ◌⊎◌, inl, inr,
}
use flowmq.Configuration.{ServerPoint, load_config}
use flowmq.Text.Atoi.{stoi}
use flowmq.ClusterManager.Reconnect.{named}
use flowmq.Server.{
  Server, add_other, other_endpoints, run_server, override_current, find_this_endpoint, node_at,
  not_empty,
}

module _ {Results : Type 0} (resolve : Bytes → Bytes → Option Results) where
  abbrev Added : ℤ → ℕ → ServerPoint → List (ℤ × Results) → List (ℤ × Results) → Type 0
  Added current i p later others =
      ((others ≡ later) × ((p.node_id ==ℤ current) ≡ true))
      ⊎ ((r : Results) × (others ≡ (pos i, r) ∷ later) × ((p.node_id ==ℤ current) ≡ false))

  added :
      (current : ℤ) (i : ℕ) (p : ServerPoint) (later others : List (ℤ × Results))
      → add_other resolve current i p later ≡ ok others
      → Added current i p later others
  added current i p later others e = go (p.node_id ==ℤ current) refl e
    where
      go :
          (b : Bool)
          → (p.node_id ==ℤ current) ≡ b
          → (if b
              then ok later
              else (or_fault (resolve p.host_ip p.server_port) >>= λ r. ok ((pos i, r) ∷ later)))
            ≡ ok others
          → Added current i p later others
      go true h x = inl (sym (ok-injective x), h)
      go false h x =
          let (r, found, rest) = >>=-eq-ok (or_fault (resolve p.host_ip p.server_port)) _ x in
          inr (r, sym (ok-injective rest), h)

  -- One endpoint per position, none before the first.
  others-once :
      (current : ℤ) (i : ℕ) (nodes : List ServerPoint) (others : List (ℤ × Results)) (id : ℤ)
      → other_endpoints resolve current i nodes ≡ ok others
      → (named id others ≤ 1) × ((k : ℕ) → id ≡ pos k → k < i → named id others ≡ 0)
  unfolding other_endpoints count_if
  others-once current i [] others id e =
      let none_there : named id others ≡ 0 = sym (ap (named id) (ok-injective e)) in
      (omega (arith, none_there), λ k h l. none_there)
  others-once current i (p ∷ rest) others id e =
      let (later, first, last) = >>=-eq-ok (other_endpoints resolve current (suc i) rest) _ e in
      let (once, before) = others-once current (suc i) rest later id first in
      elim (added current i p later others last) [
        | inl (same, skipped) ↦
            let all : named id others ≡ named id later = ap (named id) same in
            (omega (arith, all, once), λ k h l. all ∙ before k h (omega arith))
        | inr (r, more, other) ↦
            let all : named id others ≡ one_if (pos i ==ℤ id) + named id later =
              ap (named id) more in
            (
              elim (Bool-cases (pos i ==ℤ id)) [
                | inl hit ↦
                    let here : id ≡ pos i = sym ((eq_iff (pos i) id).0 hit) in
                    omega (arith, all, ap one_if hit, before i here (omega arith))
                | inr miss ↦ omega (arith, all, ap one_if miss, once)
              ],
              λ k h l. elim (Bool-cases (pos i ==ℤ id)) [
                | inl hit ↦
                    let here : pos i ≡ pos k = (eq_iff (pos i) id).0 hit ∙ h in
                    absurd (ground arith)
                | inr miss ↦ omega (arith, all, ap one_if miss, before k h (omega arith))
              ],
            )
      ]

  -- Whatever the configuration file holds: the endpoints that a server hands to its ClusterManager
  -- have different ids, as a ClusterManager needs it to keep one connection for each.
  pub run_server-distinct :
      (config_file : Bytes) (cur_node : ℤ) (server : Server Results)
      → run_server resolve config_file cur_node ≡ ok server
      → (id : ℤ) → named id server.others ≤ 1
  unfolding run_server
  run_server-distinct config_file cur_node server e id =
      let (config, _, e1) = >>=-eq-ok (or_fault (load_config config_file)) _ e in
      let nodes = (override_current cur_node config).server_nodes in
      let (current, _, e2) =
        >>=-eq-ok (or_fault (override_current cur_node config).current_node) _ e1 in
      let (this, _, e3) = >>=-eq-ok (find_this_endpoint current none nodes) _ e2 in
      let (others, found, e4) = >>=-eq-ok (other_endpoints resolve current 0 nodes) _ e3 in
      let (facing, _, e5) = >>=-eq-ok (node_at current nodes) _ e4 in
      let (port, _, e6) = >>=-eq-ok (or_fault (stoi facing.client_port)) _ e5 in
      let (partitions, _, e7) =
        >>=-eq-ok (not_empty (override_current cur_node config).partitions_ids) _ e6 in
      let same : others ≡ server.others = ap (λ (s : Server Results). s.others) (ok-injective e7) in
      subst (λ (l : List (ℤ × Results)). named id l ≤ 1) same
        (others-once current 0 nodes others id found).0
