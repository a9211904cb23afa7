-- ===== src/ClusterManager/Broadcast.antt =====
-- What a manager of src/flowmq/cluster_manager.cpp writes to its sessions.
use flowmq.Base.{
  count_if, get_elem?-set_at, one_if, ℕ, zero, suc, ◌+◌, [], ◌∷◌, ◌++◌, Option, none, some, true,
  false, Bool-cases, get_elem?, replicate, ◌==◌, ==_iff, ◌≡◌, refl, sym, ◌∙◌, ap, arith, ◌⊎◌, inl,
  inr, append-nil, append_assoc,
}
use flowmq.Containers.OrdMap.{OrdMap}
use flowmq.Message.{Message, wire}
use flowmq.Session
use flowmq.ClusterManager.{
  ClusterManager, Connection, write_connection, write_session, write_all, run_posted, broad_casts,
}

some_same {ℓ} : {A : Type ℓ} {a b : A} → some a ≡ some b → a ≡ b
some_same e = cc

replicate-append {ℓ} :
    {A : Type ℓ} (m n : ℕ) (a : A) → replicate m a ++ replicate n a ≡ replicate (m + n) a
replicate-append zero n a = ap (λ k. replicate k a) (omega arith)
replicate-append (suc m) n a =
    let e : suc m + n ≡ suc (m + n) = omega arith in rw e (ap (◌∷◌ a) (replicate-append m n a))

-- How often the map holds the session.
abbrev pub times : ℕ → OrdMap ℕ → ℕ
times n map = count_if (λ p. p.1 == n) map

module _ {Results : Type 0} where
  -- The session of a number has written the same message some times more.
  abbrev pub Wrote : ℕ → ℕ → Message → ClusterManager Results → ClusterManager Results → Type 0
  Wrote n k msg m m' =
      (c : Connection)
      → get_elem? m.sessions n ≡ some c
      → (c' : Connection) × (get_elem? m'.sessions n ≡ some c')
        × (c'.role ≡ c.role)
        × (c'.session.written ≡ c.session.written ++ replicate k (wire msg))

  write_session-Wrote :
      (i n : ℕ) (msg : Message) (m : ClusterManager Results)
      → Wrote n (one_if (i == n)) msg m (write_session i msg m)
  unfolding write_session Session.write_message
  write_session-Wrote i n msg m c there = go (get_elem? m.sessions i) refl (Bool-cases (i == n))
    where
      go :
          (o : Option Connection)
          → get_elem? m.sessions i ≡ o
          → ((i == n) ≡ true) ⊎ ((i == n) ≡ false)
          → (c' : Connection) × (get_elem? (write_connection o i msg m.sessions) n ≡ some c')
            × (c'.role ≡ c.role)
            × (c'.session.written ≡ c.session.written ++ replicate (one_if (i == n)) (wire msg))
      go none e (inl same) =
          let found : none ≡ some c =
            sym e ∙ ap (get_elem? m.sessions) ((==_iff i n).0 same) ∙ there in
          absurd cc
      go none e (inr other) = (c, there, refl, rw other (sym (append-nil c.session.written)))
      go (some d) e (inl same) =
          let dc : d ≡ c =
            some_same (sym e ∙ ap (get_elem? m.sessions) ((==_iff i n).0 same) ∙ there) in
          (
            record { role = d.role; session = Session.write_message msg d.session },
            get_elem?-set_at i n _ d m.sessions e ∙ rw same refl,
            ap (λ (x : Connection). x.role) dc,
            ap (λ (x : Connection). x.session.written ++ wire msg ∷ []) dc ∙ rw same refl,
          )
      go (some d) e (inr other) = (
        c,
        get_elem?-set_at i n _ d m.sessions e ∙ rw other there,
        refl,
        rw other (sym (append-nil c.session.written)),
      )

  write_all-Wrote :
      (map : OrdMap ℕ) (n : ℕ) (msg : Message) (m : ClusterManager Results)
      → Wrote n (times n map) msg m (write_all map msg m)
  unfolding write_all count_if
  write_all-Wrote [] n msg m c there = (c, there, refl, sym (append-nil c.session.written))
  write_all-Wrote ((id, i) ∷ rest) n msg m c there =
      let (d, there', role, wrote) = write_session-Wrote i n msg m c there in
      let (d', there'', role', wrote') =
        write_all-Wrote rest n msg (write_session i msg m) d there' in
      (
        d',
        there'',
        role' ∙ role,
        wrote'
            ∙ ap (λ w. w ++ replicate (times n rest) (wire msg)) wrote
            ∙ append_assoc c.session.written (replicate (one_if (i == n)) (wire msg))
                (replicate (times n rest) (wire msg))
            ∙ ap (λ w. c.session.written ++ w)
                (replicate-append (one_if (i == n)) (times n rest) (wire msg)),
      )

  -- When a broadcast that was posted runs, every session has written, behind all before it, the bytes
  -- of the message as often as the map of outgoing sessions holds the session then: incoming sessions
  -- and replaced ones, which it does not hold, have written nothing more.
  pub broad_casts-Wrote :
      (msg : Message) (m : ClusterManager Results) (n : ℕ)
      → Wrote n (times n m.outgoing_sessions) msg m (run_posted (broad_casts msg) m)
  unfolding run_posted
  broad_casts-Wrote msg m n = write_all-Wrote m.outgoing_sessions n msg m
