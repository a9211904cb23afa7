-- ===== src/ClusterManager/Reconnect.antt =====
-- A manager of src/flowmq/cluster_manager.cpp from its start on: its connections with the endpoints.
use flowmq.Base.{
  count_if, one_if, ℤ, ℕ, zero, suc, ◌+◌, ◌≤◌, List, [], ◌∷◌, ◌++◌, some, Bool, true, false,
  Bool-cases, ok, >>=-eq-ok, ok-injective, length, get_elem?, ◌==ℤ◌, eq_iff, eq_refl, if◌then◌else◌,
  ◌≡◌, refl, ◌∙◌, ap, subst, arith, ◌⊎◌, inl, inr, get_elem?-append_length,
}
use flowmq.Containers.OrdMap
use flowmq.Containers.OrdMap.{OrdMap, has, find_or, lookup-assign}
use flowmq.Session.{Status, connected, disconnected, closed}
use flowmq.ClusterManager.{
  ClusterManager, Role, Connection, is_connected, is_up, connect_done, connect, Event, connects,
  timer_fires, handle, run, connects_from, fires_from, new_manager, connect_all, start,
  all_endpoints,
}
use flowmq.ClusterManager.Tokens.{
  up_of, ups, waits, alarms, tokens, take_first_lem, take_first_there,
}
use flowmq.ClusterManager.Links.{IsLinked}
use flowmq.ClusterManager.Keeps.{handle-Keeps}
use flowmq.ClusterManager.Gains.{Linked, Keeps, connect-Gains, up_counts, is_up-found}

some_same {ℓ} : {A : Type ℓ} {a b : A} → some a ≡ some b → a ≡ b
some_same e = cc

up_of-connected :
    (id : ℤ) (r : Role) (st : Status)
    → 1 ≤ up_of id r st
    → (r ≡ Role.outgoing id) × (st ≡ connected)
up_of-connected id (Role.incoming i) st h = absurd (omega arith)
up_of-connected id (Role.outgoing i) connected h =
    (ap Role.outgoing (ground (arith, eq_iff i id)), refl)
up_of-connected id (Role.outgoing i) disconnected h = absurd (ground arith)
up_of-connected id (Role.outgoing i) closed h = absurd (ground arith)

none_or_some : (k : ℕ) → (k ≡ 0) ⊎ (1 ≤ k)
none_or_some zero = inl refl
none_or_some (suc k) = inr (omega arith)

-- A session that is counted.
ups_found :
    (id : ℤ) (cs : List Connection)
    → 1 ≤ ups id cs
    → (n : ℕ) × (c : Connection) × (get_elem? cs n ≡ some c)
      × (c.role ≡ Role.outgoing id)
      × (c.session.status ≡ connected)
unfolding ups
ups_found id [] h = absurd (omega arith)
ups_found id (c ∷ cs) h = elim (none_or_some (up_of id c.role c.session.status)) [
  | inr here ↦
      let (role, up) = up_of-connected id c.role c.session.status here in (0, c, refl, role, up)
  | inl none_here ↦
      let (n, d, there, role, up) = ups_found id cs (omega arith) in (suc n, d, there, role, up)
]

-- What leads to a connection: nothing, a connection that succeeds, or a timer before it.
abbrev pub LeadsUp : ℤ → List Event → Type 0
LeadsUp id next =
    (next ≡ []) ⊎ ((next ≡ connects true id ∷ []) ⊎ (next ≡ timer_fires id ∷ connects true id ∷ []))

module _ {Results : Type 0} where
  -- Of an endpoint: its number of sessions, connections in the making, and timers.
  abbrev pub held : ℤ → ClusterManager Results → ℕ
  held id m = one_if (is_up id m) + waits id m.connecting + alarms id m.timers

  abbrev pub named : ℤ → List (ℤ × Results) → ℕ
  named id endpoints = count_if (λ p. p.0 ==ℤ id) endpoints

  ups-is_up :
      (id : ℤ) (m : ClusterManager Results)
      → Linked m
      → ups id m.sessions ≤ 1
      → one_if (is_up id m) ≡ ups id m.sessions
  ups-is_up id m h once = elim (Bool-cases (is_up id m)) [
    | inl up ↦ omega (arith, ap one_if up, up_counts id m h up)
    | inr down ↦ omega (arith, ap one_if down, not_counted down)
  ]
    where
      not_counted : is_up id m ≡ false → ups id m.sessions ≤ 0
      not_counted down = elim (none_or_some (ups id m.sessions)) [
        | inl z ↦ omega (arith, z)
        | inr counted ↦
            let (n, c, there, role, up) = ups_found id m.sessions counted in
            absurd (
              ground (
                arith,
                is_up-found id n c m (h.current id n c there role up) there,
                ap is_connected up,
              ))
      ]

module _ {Results : Type 0} (no_results : Results) where
  connect_same :
      (id : ℤ) (m : ClusterManager Results)
      → ((connect no_results id m).sessions ≡ m.sessions)
        × ((connect no_results id m).timers ≡ m.timers)
  unfolding connect
  connect_same id m = go (is_up id m)
    where
      go :
          (b : Bool)
          → let m' =
              (if b then m else record m {
                connecting = m.connecting ++ (id, find_or m.endpoint_id_map id no_results) ∷ [];
                endpoint_id_map =
                    if has m.endpoint_id_map id
                    then m.endpoint_id_map
                    else OrdMap.assign id no_results m.endpoint_id_map;
              }) in
            (m'.sessions ≡ m.sessions) × (m'.timers ≡ m.timers)
      go true = (refl, refl)
      go false = (refl, refl)

  pub run-Keeps :
      (es : List Event) (m m' : ClusterManager Results)
      → Linked m
      → ((id : ℤ) → tokens id m ≤ 1)
      → run no_results es m ≡ ok m'
      → Keeps m m'
  unfolding run
  run-Keeps [] m m' h once e = subst (Keeps m) (ok-injective e) (h, λ j. refl)
  run-Keeps (x ∷ es) m m' h once e =
      let (u, first, rest) = >>=-eq-ok (handle no_results x m) (λ m'. run no_results es m') e in
      let (h', same) = handle-Keeps no_results x m u h once first in
      let (h'', same') = run-Keeps es u m' h' (λ id. omega (arith, same id, once id)) rest in
      (h'', λ j. same' j ∙ same j)

  connect_all-Gains :
      (ps : List (ℤ × Results)) (m : ClusterManager Results)
      → Linked m
      → m.sessions ≡ []
      → Linked (connect_all no_results ps m)
        × ((j : ℤ) → tokens j (connect_all no_results ps m) ≡ named j ps + tokens j m)
  unfolding connect_all count_if ups
  connect_all-Gains [] m h e = (h, λ j. omega arith)
  connect_all-Gains ((id, r) ∷ ps) m h e =
      let (h', one) = connect-Gains no_results id m h (ap (ups id) e) in
      let (h'', rest) =
        connect_all-Gains ps (connect no_results id m) h' ((connect_same id m).0 ∙ e) in
      (h'', λ j. omega (arith, rest j, one j))

  start-tokens :
      (endpoints : List (ℤ × Results))
      → let m = start no_results (new_manager endpoints) in
        Linked m × ((j : ℤ) → tokens j m ≡ named j endpoints)
  unfolding start
  start-tokens endpoints =
      let accepting = record (new_manager endpoints) {
        accepting = true;
        endpoint_id_map = all_endpoints endpoints [];
      } in
      let (h, counts) = connect_all-Gains endpoints accepting nothing_linked refl in
      (h, λ j. counts j ∙ unfold ups count_if in (omega arith))
    where
      nothing_linked : IsLinked [] []
      nothing_linked = record {
        open_all = tt;
        linked = λ id n e. absurd (unfold OrdMap.lookup in cc);
        current = λ id n c e role up. absurd cc;
      }

  -- From the start of a manager whose endpoints have different ids, after any run that returns: an
  -- endpoint has exactly one of a connected session in the map of outgoing sessions, a connection
  -- that is being made, and a timer of a retry; no other id has any of them.
  pub one_held :
      (endpoints : List (ℤ × Results)) (es : List Event) (m : ClusterManager Results)
      → ((id : ℤ) → named id endpoints ≤ 1)
      → run no_results es (start no_results (new_manager endpoints)) ≡ ok m
      → (id : ℤ) → held id m ≡ named id endpoints
  one_held endpoints es m distinct e id =
      let (h, counts) = start-tokens endpoints in
      let (h', same) = run-Keeps es _ m h (λ j. omega (arith, counts j, distinct j)) e in
      let total : tokens id m ≡ named id endpoints = same id ∙ counts id in
      omega (arith, ups-is_up id m h' (omega (arith, total, distinct id)), total)

  -- A connection that is made ends with a connected session in the map.
  connects-is_up :
      (id : ℤ) (m : ClusterManager Results)
      → 1 ≤ waits id m.connecting
      → (m' : ClusterManager Results) × (handle no_results (connects true id) m ≡ ok m')
        × (is_up id m' ≡ true)
  unfolding handle connect_done
  connects-is_up id m h =
      let (rest, e) = take_first_there (λ x. x.0 ==ℤ id) m.connecting h in
      let left = record m { connecting = rest } in
      let m' = connect_done true id left in
      let found : OrdMap.lookup m'.outgoing_sessions id ≡ some (length m.sessions) =
        lookup-assign m.outgoing_sessions id id (length m.sessions) ∙ rw (eq_refl id) refl in
      (
        m',
        ap (λ o. ok (connects_from o true id m)) e,
        is_up-found id (length m.sessions) _ m' found (get_elem?-append_length m.sessions [] _),
      )

  -- A timer that fires starts a connection.
  fires-waits :
      (id : ℤ) (m : ClusterManager Results)
      → Linked m
      → ((j : ℤ) → tokens j m ≤ 1)
      → 1 ≤ alarms id m.timers
      → (m' : ClusterManager Results) × (handle no_results (timer_fires id) m ≡ ok m')
        × (1 ≤ waits id m'.connecting)
  fires-waits id m h once there =
      let (rest, e) = take_first_there (λ x. x ==ℤ id) m.timers there in
      let left = record m { timers = rest } in
      let m' = connect no_results id left in
      let fired : handle no_results (timer_fires id) m ≡ ok m' =
        unfold handle in ap (λ o. ok (fires_from no_results o id m)) e in
      let (x, hit, counts) = take_first_lem (λ x. x ==ℤ id) m.timers rest e in
      let (h', same) = handle-Keeps no_results (timer_fires id) m m' h once fired in
      let (sessions, timers) = connect_same id left in
      (
        m',
        fired,
        omega (
          arith,
          same id,
          once id,
          ap (ups id) sessions,
          ap (alarms id) timers,
          counts (λ y. y ==ℤ id),
          ap one_if hit,
        ),
      )

  -- After any run, that returns, of a manager whose endpoints have different ids, every endpoint has a
  -- connected session in the map of outgoing sessions, or it gets one by a connection that succeeds,
  -- or by a timer that fires and then a connection that succeeds.
  pub reconnects :
      (endpoints : List (ℤ × Results)) (es : List Event) (m : ClusterManager Results) (id : ℤ)
      → ((j : ℤ) → named j endpoints ≤ 1)
      → run no_results es (start no_results (new_manager endpoints)) ≡ ok m
      → named id endpoints ≡ 1
      → (next : List Event) × LeadsUp id next
        × (m' : ClusterManager Results) × (run no_results next m ≡ ok m')
        × (is_up id m' ≡ true)
  unfolding run
  reconnects endpoints es m id distinct e is_endpoint =
      let (h, counts) = start-tokens endpoints in
      let (h', same) = run-Keeps es _ m h (λ j. omega (arith, counts j, distinct j)) e in
      let once : (j : ℤ) → tokens j m ≤ 1 = λ j. omega (arith, same j, counts j, distinct j) in
      let total : held id m ≡ named id endpoints = one_held endpoints es m distinct e id in
      elim (none_or_some (waits id m.connecting)) [
        | inr waiting ↦
            let (m', done, up) = connects-is_up id m waiting in
            (connects true id ∷ [], inr (inl refl), m', rw done refl, up)
        | inl not_waiting ↦ elim (none_or_some (alarms id m.timers)) [
          | inr sleeping ↦
              let (m1, fired, waiting) = fires-waits id m h' once sleeping in
              let (m2, done, up) = connects-is_up id m1 waiting in
              (
                timer_fires id ∷ connects true id ∷ [],
                inr (inr refl),
                m2,
                rw (fired, done) refl,
                up,
              )
          | inl not_sleeping ↦ (
            [],
            inl refl,
            m,
            refl,
            counted_up (is_up id m) (omega (arith, total, is_endpoint, not_waiting, not_sleeping)),
          )
        ]
      ]
    where
      counted_up : (b : Bool) → one_if b ≡ 1 → b ≡ true
      counted_up true h = refl
      counted_up false h = absurd (omega arith)
