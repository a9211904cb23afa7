-- ===== src/ClusterManager/Keeps.antt =====
-- What one event of a manager of src/flowmq/cluster_manager.cpp does to its endpoints.
use flowmq.Base.{
  All-get, one_if, set_at, ℤ, ℕ, ◌+◌, ◌≤◌, List, [], ◌∷◌, Option, none, some, Bool, true, false, ok,
  >>=-eq-ok, ok-injective, length, get_elem?, drop, ◌==ℤ◌, eq_iff, eq_refl, ltb, if◌then◌else◌, ◌≡◌,
  refl, sym, ◌∙◌, ap, subst, arith, ◌⊎◌, inl, inr,
}
use flowmq.Containers.OrdMap
use flowmq.Containers.OrdMap.{OrdMap, has, find_or}
use flowmq.Message.{Message}
use flowmq.Session
use flowmq.Session.{Session, Status, connected, disconnected, closed, new_session, start_read}
use flowmq.ClusterManager.{
  ClusterManager, Role, Connection, IoEvent, io, take_first, Posted, broad_casts, writes_to,
  connect_done, accept_done, connect, session_goes_on, on_session, event_at, write_found,
  write_connection, write_session, write_all, run_posted, message_handler, disconnect_handler,
  Event, connects, timer_fires, accepts, session_event, runs_posted, calls_broad_cast,
  calls_write_message, handle, connects_from, fires_from, posted_from,
}
use flowmq.ClusterManager.Steps.{IsOpen, Stays, Drops, io-step}
use flowmq.ClusterManager.Tokens.{up_of, ups, ups-set_at, waits, alarms, tokens, take_first_lem}
use flowmq.ClusterManager.Links.{set_at-IsLinked}
use flowmq.ClusterManager.Gains.{
  alarms-snoc, up_of-outgoing, Linked, Gains, Keeps, connect_done-Gains, connect-Gains,
  accept_done-Keeps,
}

module _ {Results : Type 0} where
  if_false :
      (m x y : ClusterManager Results) (b : Bool)
      → b ≡ false
      → Keeps m y
      → Keeps m (if b then x else y)
  if_false m x y true e k = absurd cc
  if_false m x y false e k = k

  if_true :
      (m x y : ClusterManager Results) (b : Bool)
      → b ≡ true
      → Keeps m x
      → Keeps m (if b then x else y)
  if_true m x y true e k = k
  if_true m x y false e k = absurd cc

  -- A session that stays as it was.
  stays :
      (r : Role) (n : ℕ) (s s' : Session) (m : ClusterManager Results)
      → Linked m
      → get_elem? m.sessions n ≡ some (record { role = r; session = s })
      → IsOpen s.status
      → s'.status ≡ s.status
      → Keeps m (record m { sessions = set_at n (record { role = r; session = s' }) m.sessions })
  stays r n s s' m h e o status =
      let c : Connection = record { role = r; session = s } in
      let c' : Connection = record { role = r; session = s' } in
      (
        set_at-IsLinked m.sessions m.outgoing_sessions n c c' h e refl (subst IsOpen (sym status) o)
            (λ u. sym status ∙ u),
        λ j. omega (arith, ups-set_at j n m.sessions c c' e, ap (up_of j r) status),
      )

  -- A session that is disconnected: a timer takes the place of an outgoing one.
  drops :
      (r : Role) (n : ℕ) (s s' : Session) (m : ClusterManager Results)
      → Linked m
      → get_elem? m.sessions n ≡ some (record { role = r; session = s })
      → s.status ≡ connected
      → s'.status ≡ disconnected
      → Keeps m (
          disconnect_handler r
            (record m { sessions = set_at n (record { role = r; session = s' }) m.sessions }))
  drops (Role.incoming i) n s s' m h e up down =
      let c : Connection = record { role = Role.incoming i; session = s } in
      let c' : Connection = record { role = Role.incoming i; session = s' } in
      (
        set_at-IsLinked m.sessions m.outgoing_sessions n c c' h e refl (subst IsOpen (sym down) tt)
            (λ _. up),
        λ j. omega (arith, ups-set_at j n m.sessions c c' e),
      )
  drops (Role.outgoing i) n s s' m h e up down =
      let c : Connection = record { role = Role.outgoing i; session = s } in
      let c' : Connection = record { role = Role.outgoing i; session = s' } in
      (
        set_at-IsLinked m.sessions m.outgoing_sessions n c c' h e refl (subst IsOpen (sym down) tt)
            (λ _. up),
        λ j.
            let before : up_of j (Role.outgoing i) s.status ≡ one_if (i ==ℤ j) =
              ap (up_of j (Role.outgoing i)) up ∙ up_of-outgoing i j in
            let after : up_of j (Role.outgoing i) s'.status ≡ 0 =
              ap (up_of j (Role.outgoing i)) down ∙ ground arith in
            omega
              (arith, ups-set_at j n m.sessions c c' e, before, after, alarms-snoc i j m.timers),
      )

  -- What the handler of a message leaves alone.
  tell-Keeps :
      (r : Role) (new : List Message) (m m' : ClusterManager Results)
      → Keeps m m'
      → Keeps m (message_handler r new m')
  tell-Keeps (Role.incoming i) new m m' k = k
  tell-Keeps (Role.outgoing i) new m m' k = k

  tell-drop :
      (r : Role) (new : List Message) (m m' : ClusterManager Results)
      → Keeps m (disconnect_handler r m')
      → Keeps m (disconnect_handler r (message_handler r new m'))
  tell-drop (Role.incoming i) new m m' k = k
  tell-drop (Role.outgoing i) new m m' k = k

  goes_on :
      (r : Role) (n : ℕ) (s s' : Session) (m : ClusterManager Results)
      → Linked m
      → get_elem? m.sessions n ≡ some (record { role = r; session = s })
      → IsOpen s.status
      → Stays s s' ⊎ Drops s s'
      → Keeps m (session_goes_on n (record { role = r; session = s }) s' m)
  unfolding session_goes_on
  goes_on r n s s' m h e o (inl (status, calls)) =
      if_false m _ _ (ltb s.disconnects s'.disconnects) (ground (arith, calls))
        (tell-Keeps r (drop (length s.handled) s'.handled) m _ (stays r n s s' m h e o status))
  goes_on r n s s' m h e o (inr (up, down, calls)) =
      if_true m _ _ (ltb s.disconnects s'.disconnects) (ground (arith, calls))
        (tell-drop r (drop (length s.handled) s'.handled) m _ (drops r n s s' m h e up down))

  pub on_session-Keeps :
      (n : ℕ) (e : IoEvent) (m m' : ClusterManager Results)
      → Linked m
      → on_session n e m ≡ ok m'
      → Keeps m m'
  unfolding on_session
  on_session-Keeps n e m m' h x = go (get_elem? m.sessions n) refl x
    where
      go :
          (o : Option Connection)
          → get_elem? m.sessions n ≡ o
          → event_at o n e m ≡ ok m'
          → Keeps m m'
      go none there y = subst (Keeps m) (ok-injective y) (h, λ j. refl)
      go (some c) there y =
          let (s, done, rest) =
            >>=-eq-ok (Session.handle (io e) c.session) (λ s. ok (session_goes_on n c s m)) y in
          let opened = All-get (λ d. IsOpen d.session.status) n c m.sessions there h.open_all in
          subst (Keeps m) (ok-injective rest)
            (goes_on c.role n c.session s m h there opened (io-step e c.session s opened done))

  write_session-Keeps :
      (n : ℕ) (msg : Message) (m : ClusterManager Results)
      → Linked m
      → Keeps m (write_session n msg m)
  unfolding write_session Session.write_message
  write_session-Keeps n msg m h = go (get_elem? m.sessions n) refl
    where
      go :
          (o : Option Connection)
          → get_elem? m.sessions n ≡ o
          → Keeps m (record m { sessions = write_connection o n msg m.sessions })
      go none there = (h, λ j. refl)
      go (some c) there =
          stays c.role n c.session (Session.write_message msg c.session) m h there
            (All-get (λ d. IsOpen d.session.status) n c m.sessions there h.open_all) refl

  write_all-Keeps :
      (map : OrdMap ℕ) (msg : Message) (m : ClusterManager Results)
      → Linked m
      → Keeps m (write_all map msg m)
  unfolding write_all
  write_all-Keeps [] msg m h = (h, λ j. refl)
  write_all-Keeps ((id, n) ∷ rest) msg m h =
      let (h', first) = write_session-Keeps n msg m h in
      let (h'', later) = write_all-Keeps rest msg (write_session n msg m) h' in
      (h'', λ j. later j ∙ first j)

  write_found-Keeps :
      (o : Option ℕ) (msg : Message) (m : ClusterManager Results)
      → Linked m
      → Keeps m (write_found o msg m)
  write_found-Keeps none msg m h = (h, λ j. refl)
  write_found-Keeps (some n) msg m h = write_session-Keeps n msg m h

  run_posted-Keeps : (p : Posted) (m : ClusterManager Results) → Linked m → Keeps m (run_posted p m)
  unfolding run_posted
  run_posted-Keeps (broad_casts msg) m h = write_all-Keeps m.outgoing_sessions msg m h
  run_posted-Keeps (writes_to id msg) m h =
      write_found-Keeps (OrdMap.lookup m.outgoing_sessions id) msg m h

  posted_from-Keeps :
      (ps : List Posted) (m : ClusterManager Results) → Linked m → Keeps m (posted_from ps m)
  posted_from-Keeps [] m h = (h, λ j. refl)
  posted_from-Keeps (p ∷ rest) m h = run_posted-Keeps p (record m { posted = rest }) h

  -- What was taken out comes back in another form.
  replaced :
      (id : ℤ) (m rest m' : ClusterManager Results)
      → ((j : ℤ) → tokens j m ≡ one_if (id ==ℤ j) + tokens j rest)
      → Gains id rest m'
      → Keeps m m'
  replaced id m rest m' out (h, gains) = (h, λ j. omega (arith, out j, gains j))

  none_up :
      (id : ℤ) (m : ClusterManager Results)
      → tokens id m ≤ 1
      → 1 ≤ waits id m.connecting + alarms id m.timers
      → ups id m.sessions ≡ 0
  none_up id m once h = omega arith

  connects_from-Keeps :
      (o : Option (List (ℤ × Results))) (succeeds : Bool) (id : ℤ) (m : ClusterManager Results)
      → Linked m
      → tokens id m ≤ 1
      → take_first (λ x. x.0 ==ℤ id) m.connecting ≡ o
      → Keeps m (connects_from o succeeds id m)
  connects_from-Keeps none succeeds id m h once e = (h, λ j. refl)
  connects_from-Keeps (some rest) succeeds id m h once e =
      let (x, hit, counts) = take_first_lem (λ x. x.0 ==ℤ id) m.connecting rest e in
      let key : x.0 ≡ id = (eq_iff x.0 id).0 hit in
      let out : (j : ℤ) → waits j m.connecting ≡ one_if (id ==ℤ j) + waits j rest =
        λ j. counts (λ y. y.0 ==ℤ j) ∙ ap (λ i. one_if (i ==ℤ j) + waits j rest) key in
      let here : 1 ≤ waits id m.connecting = omega (arith, out id, ap one_if (eq_refl id)) in
      replaced id m (record m { connecting = rest })
        (connect_done succeeds id (record m { connecting = rest })) (λ j. omega (arith, out j))
        (connect_done-Gains succeeds id (record m { connecting = rest }) h
          (none_up id m once (omega (arith, here))))

module _ {Results : Type 0} (no_results : Results) where
  fires_from-Keeps :
      (o : Option (List ℤ)) (id : ℤ) (m : ClusterManager Results)
      → Linked m
      → tokens id m ≤ 1
      → take_first (λ x. x ==ℤ id) m.timers ≡ o
      → Keeps m (fires_from no_results o id m)
  fires_from-Keeps none id m h once e = (h, λ j. refl)
  fires_from-Keeps (some rest) id m h once e =
      let (x, hit, counts) = take_first_lem (λ x. x ==ℤ id) m.timers rest e in
      let key : x ≡ id = (eq_iff x id).0 hit in
      let out : (j : ℤ) → alarms j m.timers ≡ one_if (id ==ℤ j) + alarms j rest =
        λ j. counts (λ y. y ==ℤ j) ∙ ap (λ i. one_if (i ==ℤ j) + alarms j rest) key in
      let here : 1 ≤ alarms id m.timers = omega (arith, out id, ap one_if (eq_refl id)) in
      replaced id m (record m { timers = rest })
        (connect no_results id (record m { timers = rest })) (λ j. omega (arith, out j))
        (connect-Gains no_results id (record m { timers = rest }) h
          (none_up id m once (omega (arith, here))))

  pub handle-Keeps :
      (e : Event) (m m' : ClusterManager Results)
      → Linked m
      → ((id : ℤ) → tokens id m ≤ 1)
      → handle no_results e m ≡ ok m'
      → Keeps m m'
  unfolding handle
  handle-Keeps (connects succeeds id) m m' h once e =
      subst (Keeps m) (ok-injective e) (connects_from-Keeps _ succeeds id m h (once id) refl)
  handle-Keeps (timer_fires id) m m' h once e =
      subst (Keeps m) (ok-injective e) (fires_from-Keeps _ id m h (once id) refl)
  handle-Keeps (accepts succeeds) m m' h once e = accepted m.accepting e
    where
      accepted : (b : Bool) → (if b then accept_done succeeds m else ok m) ≡ ok m' → Keeps m m'
      accepted true x = accept_done-Keeps succeeds m m' h x
      accepted false x = subst (Keeps m) (ok-injective x) (h, λ j. refl)
  handle-Keeps (session_event n e) m m' h once x = on_session-Keeps n e m m' h x
  handle-Keeps runs_posted m m' h once e =
      subst (Keeps m) (ok-injective e) (posted_from-Keeps m.posted m h)
  handle-Keeps (calls_broad_cast msg) m m' h once e =
      subst (Keeps m) (ok-injective e) (h, λ j. refl)
  handle-Keeps (calls_write_message id msg) m m' h once e =
      subst (Keeps m) (ok-injective e) (h, λ j. refl)
