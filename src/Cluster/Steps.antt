-- ===== src/Cluster/Steps.antt =====
-- The steps of a cluster of the nodes of src/flowmq/cluster_node.cpp keep its votes in order.
use flowmq.Base.{
  ℤ, pos, negsuc, ℕ, ◌+◌, ◌≤◌, List, [], ◌∷◌, ◌++◌, Option, none, some, Bool, true, false,
  Bool-cases, Outcome, fault, ok, ok-injective, get_elem?, length, set_at, append-nil, count_if,
  one_if, if◌then◌else◌, ◌≡◌, refl, sym, ◌∙◌, subst, arith, inl, inr,
}
use flowmq.Protocol.{
  FlowMessage, MessageType, get_append_request, get_append_response, get_put_message_request,
  get_commit_message_request,
}
use flowmq.Interfaces.{ClientManagerInterface, ClusterNodeStorageInterface}
use flowmq.ClusterNode.State.{World}
use flowmq.ClusterNode.Handler
use flowmq.ClusterNode.Handler.{Event, handle, dispatch, local_message_handler}
use flowmq.ClusterNode.Frames.{Ballot, ballots}
use flowmq.ClusterNode.Advance.{
  Quiet, Quiet-refl, append_entries_request-Quiet, append_entries_response-Quiet,
  client_put_message-Quiet, client_commit_message-Quiet, client_open_queue-Quiet,
  heartbeat_timer-Quiet, consumer_disconnected-Quiet,
}
use flowmq.ClusterNode.Plain.{
  is_vote, Calm, Calm-refl, append_entries_request-Calm, append_entries_response-Calm,
  client_put_message-Calm, client_commit_message-Calm, client_open_queue-Calm, heartbeat_timer-Calm,
  consumer_disconnected-Calm,
}
use flowmq.Cluster.{
  Member, Cluster, with_empty, send_all, elected, stepped, act_of, act, arrive, Step, step, run,
  remove_at, is_local, from_client, delivers, loses, happens,
}
use flowmq.Cluster.Traffic.{count_if-remove_at, count_if-remove_at_le}
use flowmq.Cluster.Tally.{Tally, Turn}
use flowmq.Cluster.Keeps.{Turn-Tally, Tally-lost}
use flowmq.Cluster.Events.{Calm-Turn, timer-Turn, elected-none, Turns}
use flowmq.Cluster.Responses.{response-Turn}
use flowmq.Cluster.Requests.{request-Turn}
use flowmq.Cluster.Candidates.{delayed-Turn}
use flowmq.Cluster.Asks.{pos_minus_one}

client_plain : (ty : MessageType) → from_client ty ≡ true → is_vote ty ≡ false
client_plain ty h = ground arith

cases : (P : Bool → Type 0) (t : Bool) → P true → P false → P t
cases P true h k = h
cases P false h k = k

module _ {C S : Type 0} ⦃clients : ClientManagerInterface C⦄
    ⦃disk : ClusterNodeStorageInterface S⦄ where
  plain-Calm :
      (ty : MessageType) (fm : FlowMessage) (now id : ℤ) (w w' : World C S)
      → is_vote ty ≡ false
      → dispatch ty fm now id w ≡ ok w'
      → Quiet w w' × Calm w w'
  plain-Calm MessageType.append_entries_request fm now id w w' p e = (
    append_entries_request-Quiet (get_append_request fm) now w w' e,
    append_entries_request-Calm (get_append_request fm) now w w' e,
  )
  plain-Calm MessageType.append_entries_response fm now id w w' p e = (
    append_entries_response-Quiet (get_append_response fm) w w' e,
    append_entries_response-Calm (get_append_response fm) w w' e,
  )
  plain-Calm MessageType.client_put_message fm now id w w' p e = (
    client_put_message-Quiet (get_put_message_request fm) id w w' e,
    client_put_message-Calm (get_put_message_request fm) id w w' e,
  )
  plain-Calm MessageType.client_open_queue fm now id w w' p e =
      (client_open_queue-Quiet w w' e, client_open_queue-Calm w w' e)
  plain-Calm MessageType.client_commit_message fm now id w w' p e = (
    client_commit_message-Quiet (get_commit_message_request fm) w w' e,
    client_commit_message-Calm (get_commit_message_request fm) w w' e,
  )
  plain-Calm MessageType.request_vote_request fm now id w w' p e = cc
  plain-Calm MessageType.request_vote_response fm now id w w' p e = cc
  plain-Calm other fm now id w w' p e =
      subst (λ v. Quiet w v × Calm w v) (ok-injective e) (Quiet-refl w, Calm-refl w)

module _ {C S : Type 0} ⦃clients : ClientManagerInterface C⦄ ⦃disk : ClusterNodeStorageInterface S⦄
    (ms : List (Member C S)) (fs : List (ℤ × FlowMessage)) (es : List Ballot) (t : Tally ms fs es)
    (k : ℕ) (m : Member C S) (here : get_elem? ms k ≡ some m) where
  -- A message that arrives.
  message-Turn :
      (rest : List (ℤ × FlowMessage)) (fm : FlowMessage) (now id : ℤ) (w' : World C S)
      → ((p : ℤ × FlowMessage → Bool) → count_if p fs ≡ one_if (p (pos k, fm)) + count_if p rest)
      → (ty : MessageType) → fm.type ≡ ty
      → dispatch ty fm now id (with_empty m) ≡ ok w'
      → Turns ms fs es t k m here rest w'
  message-Turn rest fm now id w' came MessageType.request_vote_request type e =
      subst (Turns ms fs es t k m here rest) (ok-injective e)
        (request-Turn ms fs es t k m here rest fm came type)
  message-Turn rest fm now id w' came MessageType.request_vote_response type e =
      response-Turn ms fs es t k m here rest fm came type w' e
  message-Turn rest fm now id w' came other type e =
      let (quiet, calm) = plain-Calm other fm now id (with_empty m) w' refl e in
      Calm-Turn ms fs es t k m here rest w' (λ p. omega (arith, came p)) quiet calm

  local-Turn :
      (ev : Event) (w' : World C S)
      → is_local ev ≡ true
      → handle ev (with_empty m) ≡ ok w'
      → Turns ms fs es t k m here fs w'
  unfolding handle local_message_handler
  local-Turn (Handler.message fm now id) w' l e =
      let (quiet, calm) =
        plain-Calm fm.type fm now id (with_empty m) w' (client_plain fm.type l) e in
      Calm-Turn ms fs es t k m here fs w' (λ p. omega arith) quiet calm
  local-Turn (Handler.vote_timer_fires now) w' l e = timer-Turn ms fs es t k m here now w' e
  local-Turn Handler.delayed_vote_fires w' l e =
      delayed-Turn ms fs es t k m here w' e (λ f. pos_minus_one (sym (t.numbered k m here).0 ∙ f))
  local-Turn Handler.heartbeat_timer_fires w' l e =
      Calm-Turn ms fs es t k m here fs w' (λ p. omega arith)
        (heartbeat_timer-Quiet (with_empty m) w' e) (heartbeat_timer-Calm (with_empty m) w' e)
  local-Turn (Handler.consumer_leaves c) w' l e =
      Calm-Turn ms fs es t k m here fs w' (λ p. omega arith)
        (consumer_disconnected-Quiet c (with_empty m) w' e)
        (consumer_disconnected-Calm c (with_empty m) w' e)

  -- What a node is after a turn, or after it has stopped.
  stepped-Tally :
      (rest : List (ℤ × FlowMessage)) (o : Outcome (World C S))
      → ((p : ℤ × FlowMessage → Bool) → count_if p rest ≤ count_if p fs)
      → ((w' : World C S) → o ≡ ok w' → Turns ms fs es t k m here rest w')
      → let c = stepped o m k (record { members = ms; in_flight = rest; elections = es }) in
        Tally c.members c.in_flight c.elections
  stepped-Tally rest fault less turn =
      subst
        (λ bs. Tally (set_at k (record { world = m.world; cast = bs; stopped = true }) ms) rest es)
        (append-nil m.cast)
        (subst
          (λ e.
            Tally (set_at k (record { world = m.world; cast = m.cast ++ []; stopped = true }) ms)
              rest e)
          (append-nil es) (Turn-Tally ms fs rest es [] k m m.world [] true here t still))
    where
      w₀ : World C S
      w₀ = with_empty m

      idle : Turn ms fs (rest ++ []) k m w₀ [] (elected m.world w₀)
      idle = Calm-Turn ms fs es t k m here rest w₀ less (Quiet-refl w₀) (Calm-refl w₀)

      idle' : Turn ms fs rest k m w₀ [] []
      idle' =
          subst (λ r. Turn ms fs r k m w₀ [] []) (append-nil rest)
            (subst (Turn ms fs (rest ++ []) k m w₀ []) (elected-none m.world w₀ (λ l. l)) idle)

      still : Turn ms fs rest k m m.world [] []
      still = record {
        node_id_same = idle'.node_id_same;
        total_same = idle'.total_same;
        term_le = idle'.term_le;
        honest = idle'.honest;
        own_le = idle'.own_le;
        asked = idle'.asked;
        answered = idle'.answered;
        counted = idle'.counted;
        won = idle'.won;
        leads = idle'.leads;
      }
  stepped-Tally rest (ok w') less turn =
      Turn-Tally ms fs (rest ++ send_all k (length ms) w'.outbox) es (elected m.world w') k m w'
        (ballots w'.outbox) false here t (turn w' refl)

module _ {C S : Type 0} ⦃clients : ClientManagerInterface C⦄
    ⦃disk : ClusterNodeStorageInterface S⦄ where
  abbrev pub InOrder : Cluster C S → Type 0
  InOrder c = Tally c.members c.in_flight c.elections

  -- The node k handles an event while the messages `fs` were under way.
  act-InOrder :
      (k : ℕ) (ev : Event) (c : Cluster C S) (fs : List (ℤ × FlowMessage))
      → Tally c.members fs c.elections
      → ((p : ℤ × FlowMessage → Bool) → count_if p c.in_flight ≤ count_if p fs)
      → ((t : Tally c.members fs c.elections) (m : Member C S)
            (here : get_elem? c.members k ≡ some m) (w' : World C S)
          → handle ev (with_empty m) ≡ ok w'
          → Turns c.members fs c.elections t k m here c.in_flight w')
      → InOrder (act k ev c)
  unfolding act
  act-InOrder k ev c fs t less turn = with_member (get_elem? c.members k) refl
    where
      with_member :
          (o : Option (Member C S)) → get_elem? c.members k ≡ o → InOrder (act_of o k ev c)
      with_member none e = Tally-lost c.members fs c.in_flight c.elections t less
      with_member (some m) e =
          let o = handle ev (with_empty m) in
          cases (λ halts. InOrder (if halts then c else stepped o m k c)) m.stopped
            (Tally-lost c.members fs c.in_flight c.elections t less)
            (stepped-Tally c.members fs c.elections t k m e c.in_flight o less (turn t m e))

  handled :
      (fm : FlowMessage) (now id : ℤ) (w w' : World C S)
      → handle (Handler.message fm now id) w ≡ ok w'
      → dispatch fm.type fm now id w ≡ ok w'
  unfolding handle local_message_handler
  handled fm now id w w' h = h

  arrive-InOrder :
      (c : Cluster C S) (i : ℕ) (now id : ℤ) (o : Option (ℤ × FlowMessage))
      → get_elem? c.in_flight i ≡ o
      → InOrder c
      → InOrder (arrive o now id (record c { in_flight = remove_at i c.in_flight }))
  arrive-InOrder c i now id none e t =
      Tally-lost c.members c.in_flight (remove_at i c.in_flight) c.elections t
        (λ p. count_if-remove_at_le p i c.in_flight)
  arrive-InOrder c i now id (some (negsuc k, fm)) e t =
      Tally-lost c.members c.in_flight (remove_at i c.in_flight) c.elections t
        (λ p. count_if-remove_at_le p i c.in_flight)
  arrive-InOrder c i now id (some (pos k, fm)) e t =
      act-InOrder k (Handler.message fm now id) (record c { in_flight = remove_at i c.in_flight })
        c.in_flight t (λ p. count_if-remove_at_le p i c.in_flight)
        (λ t' m here w' h.
          message-Turn c.members c.in_flight c.elections t' k m here (remove_at i c.in_flight) fm
            now id w' (λ p. count_if-remove_at p i c.in_flight (pos k, fm) e) fm.type refl
            (handled fm now id (with_empty m) w' h))

  pub step-InOrder : (s : Step) (c : Cluster C S) → InOrder c → InOrder (step s c)
  unfolding step
  step-InOrder (delivers i now id) c t = arrive-InOrder c i now id (get_elem? c.in_flight i) refl t
  step-InOrder (loses i) c t =
      Tally-lost c.members c.in_flight (remove_at i c.in_flight) c.elections t
        (λ p. count_if-remove_at_le p i c.in_flight)
  step-InOrder (happens k ev) c t = elim (Bool-cases (is_local ev)) [
    | inl local ↦ rw local (
        act-InOrder k ev c c.in_flight t (λ p. omega arith)
          (λ t' m here w' h.
            local-Turn c.members c.in_flight c.elections t' k m here ev w' local h))
    | inr other ↦ rw other t
  ]

  pub run-InOrder : (ss : List Step) (c : Cluster C S) → InOrder c → InOrder (run ss c)
  unfolding run
  run-InOrder [] c t = t
  run-InOrder (s ∷ ss) c t = run-InOrder ss (step s c) (step-InOrder s c t)
