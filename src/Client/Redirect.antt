-- ===== src/Client/Redirect.antt =====
-- How a client of src/flowmq_client/simple_client.hpp finds the leader with the answer of a node
-- (src/flowmq/cluster_node.cpp).
use flowmq.Base.{
  ℤ, suc, Bytes, List, [], ◌∷◌, ◌++◌, Option, some, Bool, true, false, ok, >>=-eq-ok, ok-injective,
  ◌≡◌, refl, sym, ◌∙◌, ap, subst,
}
use flowmq.Protocol.{FlowMessage, raft_message, set_partition_id, load_client_open_queue_request}
use flowmq.Text.Decimal.{is_empty}
use flowmq.Message.{Message, FlowMessageCodec, serialize_as_message, deserialize_from_message, wire}
use flowmq.Session
use flowmq.Session.{Session, new_session, start_read}
use flowmq.ClusterNode.State.{ClusterNode, serialize_raft_message, get_address_for_node}
use flowmq.ClusterNode.Leader.{not_leader, queue_opened}
use flowmq.Configuration.{ServerPoint}
use flowmq.Client.{
  GenericClient, SimpleClient, newest, write_message, send_raft, open_queue_sync, redirect,
  handle_message, answered, opened,
}

newest_there :
    (f : Session → Session) (ss ss' : List Session)
    → newest f ss ≡ ok ss'
    → (s : Session) × (rest : List Session) × (ss ≡ s ∷ rest) × (ss' ≡ f s ∷ rest)
newest_there f [] ss' e = cc
newest_there f (s ∷ rest) ss' e = (s, rest, refl, sym (ok-injective e))

module _ {Results : Type 0} (codec : FlowMessageCodec)
    (resolve : Bytes → Bytes → Option Results) where
  -- What a message that was sent did.
  sent :
      (m : FlowMessage) (c c' : SimpleClient Results)
      → send_raft codec resolve m c ≡ ok c'
      → (msg : Message) × (serialize_as_message codec m ≡ ok msg)
        × (s : Session) × (rest : List Session) × (c' ≡ record c {
          generic_client = record c.generic_client {
            sessions = Session.write_message msg s ∷ rest;
          };
        })
  unfolding send_raft
  sent m c c' e =
      let (msg, serialized, e1) = >>=-eq-ok (serialize_as_message codec m) _ e in
      let (g, written, e2) = >>=-eq-ok (write_message msg c.generic_client) _ e1 in
      let (ss, front, e3) =
        >>=-eq-ok (newest (Session.write_message msg) c.generic_client.sessions) _ written in
      let (s, rest, before, after) =
        newest_there (Session.write_message msg) c.generic_client.sessions ss front in
      (
        msg,
        serialized,
        s,
        rest,
        sym (ok-injective e2)
            ∙ ap (λ (x : GenericClient Results). record c { generic_client = x })
                (sym (ok-injective e3) ∙ ap (λ l. record c.generic_client { sessions = l }) after),
      )

  sends :
      (m : FlowMessage) (c : SimpleClient Results) (msg : Message) (s : Session)
      (rest : List Session)
      → serialize_as_message codec m ≡ ok msg
      → c.generic_client.sessions ≡ s ∷ rest
      → send_raft codec resolve m c
        ≡ ok (record c {
          generic_client = record c.generic_client {
            sessions = Session.write_message msg s ∷ rest;
          };
        })
  unfolding send_raft
  sends m c msg s rest serialized there = rw serialized (rw there refl)

  -- The two sessions of a client that was sent on: the new one has got the bytes that the old one got
  -- last.
  abbrev pub SentOn : SimpleClient Results → SimpleClient Results → Type 0
  SentOn c c' =
      (s : Session) × (rest : List Session) × (old : List Bytes) × (bytes : Bytes)
      × (c.generic_client.sessions ≡ s ∷ rest)
      × (s.written ≡ old ++ bytes ∷ [])
      × (t : Session) × (c'.generic_client.sessions ≡ t ∷ s ∷ rest)
      × (t.written ≡ bytes ∷ [])

  redirects :
      (ip port : Bytes) (r : Results) (c : SimpleClient Results) (msg : Message)
      → resolve ip port ≡ some r
      → serialize_as_message codec c.open_queue_msg ≡ ok msg
      → redirect codec resolve true ip port c
        ≡ ok (record c {
          generic_client = record {
            running = c.generic_client.running;
            sessions =
                Session.write_message msg (start_read new_session) ∷ c.generic_client.sessions;
            endpoints = r;
          };
        })
  unfolding redirect
  redirects ip port r c msg found serialized = rw found (
      sends c.open_queue_msg _ msg (start_read new_session) c.generic_client.sessions serialized
        refl)

  -- The refusal is followed: the client has the endpoints, has sent its request on, and still waits;
  -- the success ends the wait.
  abbrev pub Follows :
      SimpleClient Results → Results → (refusal success : Message) → SimpleClient Results → Type 0
  Follows c r refusal success c1 =
      (c2 : SimpleClient Results) × (handle_message codec resolve true refusal c1 ≡ ok c2)
      × (c2.generic_client.endpoints ≡ r)
      × SentOn c1 c2
      × (c2.waiting ≡ suc c.waiting)
      × (c3 : SimpleClient Results) × (handle_message codec resolve true success c2 ≡ ok c3)
      × (c3.waiting ≡ 0)
      × (opened c3 ≡ opened c)

  handle_answer :
      (accepted : Bool) (reply : Message) (m : FlowMessage) (c : SimpleClient Results)
      → deserialize_from_message codec reply ≡ ok m
      → handle_message codec resolve accepted reply c ≡ answered codec resolve accepted m m.type c
  unfolding handle_message
  handle_answer accepted reply m c e = rw e refl

  refused_goes_on :
      (n : ClusterNode) (address : Bytes × Bytes) (r : Results) (msg : Message)
      (c : SimpleClient Results)
      → is_empty address.0 ≡ false
      → resolve address.0 address.1 ≡ some r
      → serialize_as_message codec c.open_queue_msg ≡ ok msg
      → let m = serialize_raft_message n (not_leader address) in
        answered codec resolve true m m.type c
        ≡ ok (record c {
          generic_client = record {
            running = c.generic_client.running;
            sessions =
                Session.write_message msg (start_read new_session) ∷ c.generic_client.sessions;
            endpoints = r;
          };
        })
  refused_goes_on n address r msg c filled found serialized =
      rw filled (redirects address.0 address.1 r c msg found serialized)

  -- A client that asks to open a queue and gets the answer of a node that is not the leader, but
  -- knows its address: where the resolver finds the address and a connection to it is accepted, the
  -- client has the leader's endpoints, sends the very bytes of its request on a new session, and
  -- goes on waiting; the answer that the queue is opened then ends the wait.
  pub open-redirect :
      (name : Bytes) (mode : ℤ) (c c1 : SimpleClient Results) (n : ClusterNode)
      (servers : List ServerPoint) (r : Results) (refusal success : Message)
      → open_queue_sync codec resolve name mode c ≡ ok c1
      → let address = get_address_for_node servers n.cur_leader in
        is_empty address.0 ≡ false
        → resolve address.0 address.1 ≡ some r
        → deserialize_from_message codec refusal
          ≡ ok (serialize_raft_message n (not_leader address))
        → deserialize_from_message codec success ≡ ok (serialize_raft_message n queue_opened)
        → Follows c r refusal success c1
  unfolding Session.write_message
  open-redirect name mode c c1 n servers r refusal success e filled found refused succeeded =
      let address = get_address_for_node servers n.cur_leader in
      let req = set_partition_id c.partition_id (
        load_client_open_queue_request (record { open_mode = mode; queue_name = name })
          c.open_queue_msg) in
      let asking = record c { open_queue_msg = req; waiting = suc c.waiting } in
      let (msg, serialized, s, rest, same) = sent req asking c1 e in
      let asked : SimpleClient Results = record asking {
        generic_client = record c.generic_client { sessions = Session.write_message msg s ∷ rest };
      } in
      let again = Session.write_message msg (start_read new_session) in
      let c2 : SimpleClient Results = record asked {
        generic_client = record {
          running = c.generic_client.running;
          sessions = again ∷ Session.write_message msg s ∷ rest;
          endpoints = r;
        };
      } in
      let c3 : SimpleClient Results = record c2 { open_queue_msg = raft_message; waiting = 0 } in
      subst (Follows c r refusal success) (sym same) (
        c2,
        handle_answer true refusal (serialize_raft_message n (not_leader address)) asked refused
            ∙ refused_goes_on n address r msg asked filled found serialized,
        refl,
        (Session.write_message msg s, rest, s.written, wire msg, refl, refl, again, refl, refl),
        refl,
        c3,
        handle_answer true success (serialize_raft_message n queue_opened) c2 succeeded,
        refl,
        refl,
      )
