-- ===== src/ClusterManager/Gains.antt =====
-- What a connection, a timer and an accepted session of src/flowmq/cluster_manager.cpp do to the
-- endpoints.
use flowmq.Base.{
  count_if, count_if-append, one_if, ℤ, ℕ, ◌+◌, ◌≤◌, List, [], ◌∷◌, ◌++◌, some, Option-cases, Bool,
  true, false, Bool-cases, ok, >>=-eq-ok, ok-injective, get_elem?, ◌==ℤ◌, if◌then◌else◌, ◌≡◌, refl,
  sym, ◌∙◌, ap, subst, arith, inl, inr, increment,
}
use flowmq.Containers.OrdMap
use flowmq.Containers.OrdMap.{OrdMap, has, find_or}
use flowmq.Session.{Status, connected, new_session, start_read}
use flowmq.ClusterManager.{
  ClusterManager, Role, Connection, is_connected, is_up, up_at, connected_in, connect_done,
  accept_done, connect,
}
use flowmq.ClusterManager.Tokens.{up_of, ups, ups-append, waits, alarms, tokens}
use flowmq.ClusterManager.Links.{IsLinked, incoming-IsLinked, outgoing-IsLinked, connected-ups}

pub ups-snoc :
    (id : ℤ) (xs : List Connection) (c : Connection)
    → ups id (xs ++ c ∷ []) ≡ ups id xs + up_of id c.role c.session.status
unfolding ups
ups-snoc id xs c = omega (arith, ups-append id xs (c ∷ []))

pub alarms-snoc :
    (id j : ℤ) (xs : List ℤ) → alarms j (xs ++ id ∷ []) ≡ alarms j xs + one_if (id ==ℤ j)
unfolding count_if
alarms-snoc id j xs = omega (arith, count_if-append (λ i. i ==ℤ j) xs (id ∷ []))

pub up_of-outgoing : (id j : ℤ) → up_of j (Role.outgoing id) connected ≡ one_if (id ==ℤ j)
up_of-outgoing id j = ground arith

module _ {Results : Type 0} where
  abbrev pub Linked : ClusterManager Results → Type 0
  Linked m = IsLinked m.sessions m.outgoing_sessions

  waits-snoc :
      (id j : ℤ) (r : Results) (xs : List (ℤ × Results))
      → waits j (xs ++ (id, r) ∷ []) ≡ waits j xs + one_if (id ==ℤ j)
  unfolding count_if
  waits-snoc id j r xs = omega (arith, count_if-append (λ x. x.0 ==ℤ j) xs ((id, r) ∷ []))

  -- One more of an endpoint.
  abbrev pub Gains : ℤ → ClusterManager Results → ClusterManager Results → Type 0
  Gains id m m' = Linked m' × ((j : ℤ) → tokens j m' ≡ one_if (id ==ℤ j) + tokens j m)

  abbrev pub Keeps : ClusterManager Results → ClusterManager Results → Type 0
  Keeps m m' = Linked m' × ((j : ℤ) → tokens j m' ≡ tokens j m)

  pub connect_done-Gains :
      (succeeds : Bool) (id : ℤ) (m : ClusterManager Results)
      → Linked m
      → ups id m.sessions ≡ 0
      → Gains id m (connect_done succeeds id m)
  unfolding connect_done
  connect_done-Gains true id m h none_up = (
    outgoing-IsLinked m.sessions m.outgoing_sessions id (start_read new_session) tt none_up h,
    λ j. omega (
      arith,
      up_of-outgoing id j,
      ups-snoc j m.sessions (record { role = Role.outgoing id; session = start_read new_session }),
    ),
  )
  connect_done-Gains false id m h none_up = (h, λ j. omega (arith, alarms-snoc id j m.timers))

  pub is_up-found :
      (id : ℤ) (n : ℕ) (c : Connection) (m : ClusterManager Results)
      → OrdMap.lookup m.outgoing_sessions id ≡ some n
      → get_elem? m.sessions n ≡ some c
      → is_up id m ≡ is_connected c.session.status
  is_up-found id n c m found there = ap (λ o. up_at o m) found ∙ ap connected_in there

  pub up_counts :
      (id : ℤ) (m : ClusterManager Results) → Linked m → is_up id m ≡ true → 1 ≤ ups id m.sessions
  up_counts id m h e = elim (Option-cases (OrdMap.lookup m.outgoing_sessions id)) [
    | inl nothing ↦ absurd (ground (arith, ap (λ o. up_at o m) nothing))
    | inr (n, found) ↦
        let (c, there, for) = h.linked id n found in
        connected-ups m.sessions id n c there for
          (connected_if c.session.status (sym (is_up-found id n c m found there) ∙ e))
  ]
    where
      connected_if : (st : Status) → is_connected st ≡ true → st ≡ connected
      connected_if st e = ground arith

  pub connect-Gains :
      (no_results : Results) (id : ℤ) (m : ClusterManager Results)
      → Linked m
      → ups id m.sessions ≡ 0
      → Gains id m (connect no_results id m)
  unfolding connect
  connect-Gains no_results id m h none_up = elim (Bool-cases (is_up id m)) [
    | inl up ↦ absurd (omega (arith, none_up, up_counts id m h up))
    | inr down ↦ go (is_up id m) down
  ]
    where
      waiting : ClusterManager Results
      waiting = record m {
        connecting = m.connecting ++ (id, find_or m.endpoint_id_map id no_results) ∷ [];
        endpoint_id_map =
            if has m.endpoint_id_map id
            then m.endpoint_id_map
            else OrdMap.assign id no_results m.endpoint_id_map;
      }

      go : (b : Bool) → b ≡ false → Gains id m (if b then m else waiting)
      go true e = absurd cc
      go false e = (
        h,
        λ j. omega (arith, waits-snoc id j (find_or m.endpoint_id_map id no_results) m.connecting),
      )

  pub accept_done-Keeps :
      (succeeds : Bool) (m m' : ClusterManager Results)
      → Linked m
      → accept_done succeeds m ≡ ok m'
      → Keeps m m'
  unfolding accept_done
  accept_done-Keeps false m m' h e = subst (Keeps m) (ok-injective e) (h, λ j. refl)
  accept_done-Keeps true m m' h e =
      let (count, first, rest) = >>=-eq-ok (increment m.incoming_sessions_count) _ e in
      let s = start_read new_session in
      subst (Keeps m) (ok-injective rest) (
        incoming-IsLinked m.sessions m.outgoing_sessions m.incoming_sessions_count s tt h,
        λ j. omega (
          arith,
          ups-snoc j m.sessions
              (record { role = Role.incoming m.incoming_sessions_count; session = s }),
        ),
      )
