-- ===== src/Terminal/Requests.antt =====
-- The requests that src/application/client.cpp sends.
use flowmq.Base.{
  minus_one, Bytes, List, [], ◌∷◌, none, Bool, true, false, Outcome, ok, fault, >>=-eq-ok, or_fault,
  ◌==ℤ◌, if◌then◌else◌, drop, All, All-append, ◌≡◌, refl, subst, ok-injective,
}
use flowmq.Protocol.{FlowMessage}
use flowmq.Text.Atoi.{stoi}
use flowmq.Message.{Message, FlowMessageCodec, serialize_as_message, wire}
use flowmq.Session
use flowmq.Session.{Session}
use flowmq.Client.{GenericClient, write_message, newest, session_lost}
use flowmq.Terminal.{
  Input, typed, lost, write, read_line, wait, main_loop, commit_message, lose_if, open_word, same,
  finds, commit_word,
}

-- The bytes of a message that names no partition.
abbrev pub IsUnaddressed : FlowMessageCodec → Bytes → Type 0
IsUnaddressed codec bytes =
    (m : FlowMessage) × (msg : Message) × (m.partition_id ≡ none)
    × (serialize_as_message codec m ≡ ok msg)
    × (bytes ≡ wire msg)

if_cases {ℓ κ} :
    {A : Type ℓ} {Q : Type κ} (t : Bool) (a b : Outcome A) (y : A)
    → (if t then a else b) ≡ ok y
    → (a ≡ ok y → Q)
    → (b ≡ ok y → Q)
    → Q
if_cases true a b y e f g = f e
if_cases false a b y e f g = g e

no_session : {ss : List Session} → fault ≡ ok ss → ⊥
no_session e = cc

newest-All :
    (P : Session → Type 0) (f : Session → Session) (ss ss' : List Session)
    → newest f ss ≡ ok ss'
    → ((s : Session) → P s → P (f s))
    → All P ss
    → All P ss'
newest-All P f [] ss' e keeps h = absurd (no_session e)
newest-All P f (s ∷ rest) ss' e keeps (h, hs) = subst (All P) (ok-injective e) (keeps s h, hs)

written :
    (codec : FlowMessageCodec) (m : FlowMessage) (msg : Message)
    → m.partition_id ≡ none
    → serialize_as_message codec m ≡ ok msg
    → (s : Session) → All (IsUnaddressed codec) s.written
    → All (IsUnaddressed codec) (Session.write_message msg s).written
unfolding Session.write_message
written codec m msg p e s h =
    All-append (IsUnaddressed codec) s.written (wire msg ∷ []) h ((m, msg, p, e, refl), tt)

module _ {Results : Type 0} (codec : FlowMessageCodec) where
  abbrev pub AllUnaddressed : GenericClient Results → Type 0
  AllUnaddressed client = All (λ (s : Session). All (IsUnaddressed codec) s.written) client.sessions

  write-Unaddressed :
      (m : FlowMessage) (client client' : GenericClient Results)
      → m.partition_id ≡ none
      → AllUnaddressed client
      → write codec m client ≡ ok client'
      → AllUnaddressed client'
  write-Unaddressed m client client' p h e =
      let (msg, first, rest) =
        >>=-eq-ok (serialize_as_message codec m) (λ x. write_message x client) e in
      let (sessions, second, last) =
        >>=-eq-ok (newest (Session.write_message msg) client.sessions)
          (λ ss. ok (record client { sessions = ss })) rest in
      subst (λ c. AllUnaddressed c) (ok-injective last)
        (newest-All (λ s. All (IsUnaddressed codec) s.written) (Session.write_message msg)
          client.sessions sessions second (written codec m msg p first) h)

  read_line-Unaddressed :
      (line : Bytes) (client client' : GenericClient Results)
      → AllUnaddressed client
      → read_line codec line client ≡ ok client'
      → AllUnaddressed client'
  unfolding read_line
  read_line-Unaddressed line client client' h e =
      if_cases (same line open_word) _ _ client' e (write-Unaddressed _ client client' refl h)
        (λ e₁.
          if_cases (finds commit_word line) _ _ client' e₁
            (λ e₂.
              let (msg_id, number, rest) =
                >>=-eq-ok (or_fault (stoi (drop 6 line)))
                  (λ id. if id ==ℤ minus_one then ok client else commit_message codec id client)
                  e₂ in
              if_cases (msg_id ==ℤ minus_one) _ _ client' rest
                (λ e₃. subst AllUnaddressed (ok-injective e₃) h)
                (write-Unaddressed _ client client' refl h))
            (write-Unaddressed _ client client' refl h))

  lose_if-Unaddressed :
      (drops : Bool) (client : GenericClient Results)
      → AllUnaddressed client
      → AllUnaddressed (lose_if drops client)
  lose_if-Unaddressed true client h = h
  lose_if-Unaddressed false client h = h

  wait-Unaddressed :
      (inputs : List Input) (client client' : GenericClient Results)
      → AllUnaddressed client
      → wait codec inputs client ≡ ok client'
      → AllUnaddressed client'
  unfolding wait
  wait-Unaddressed [] client client' h e = subst AllUnaddressed (ok-injective e) h
  wait-Unaddressed (lost ∷ rest) client client' h e =
      wait-Unaddressed rest (session_lost client) client' h e
  wait-Unaddressed (typed line drops ∷ rest) client client' h e =
      let (read, first, then') =
        >>=-eq-ok (read_line codec line client)
          (λ c. let c' = lose_if drops c in if c'.running then wait codec rest c' else ok c') e in
      let h' = lose_if-Unaddressed drops read (read_line-Unaddressed line client read h first) in
      if_cases (lose_if drops read).running _ _ client' then'
        (wait-Unaddressed rest (lose_if drops read) client' h')
        (λ e'. subst AllUnaddressed (ok-injective e') h')

  -- Whatever is typed at the interactive client, and whenever it loses its session: if it has written
  -- no message that names a partition, it writes none until it ends.
  pub main_loop-Unaddressed :
      (inputs : List Input) (client client' : GenericClient Results)
      → AllUnaddressed client
      → main_loop codec inputs client ≡ ok client'
      → AllUnaddressed client'
  unfolding main_loop
  main_loop-Unaddressed inputs client client' h e =
      if_cases client.running _ _ client' e (wait-Unaddressed inputs client client' h)
        (λ e'. subst AllUnaddressed (ok-injective e') h)
