-- ===== src/ClientManager/RoundRobin.antt =====
-- The order in which src/flowmq/client_manager.cpp serves the consumers of a partition.
use flowmq.Base.{
  ℤ, pos, ℕ, zero, suc, ◌+◌, ◌<◌, ◌%◌, ◌^◌, ◌-◌, List, [], ◌∷◌, ◌++◌, some, true, Outcome, ok,
  ◌>>=◌, ◌≡◌, refl, sym, ◌∙◌, arith, length, get_elem?, append-nil, append_assoc, subst,
  get_elem?_exists, All, pos-+ℤ, increment, eq_refl,
}
use flowmq.Containers.OrdSet.{contains}
use flowmq.Containers.OrdMap.{lookup, find_or, lookup-assign, assign}
use flowmq.Protocol.{FlowMessage}
use flowmq.ClientManager.{ClientManager, deliver_one_message_round_robin, deliver_to, write_to}
use native.Mathlib.Nat.{mod-lt}

-- One delivery after the other to one partition; the clients that got them.
unfoldable pub deliver_many :
    ℤ → List FlowMessage → ClientManager → Outcome (List ℤ × ClientManager)
deliver_many partition_id [] m = ok ([], m)
deliver_many partition_id (msg ∷ rest) m = do
  (id, m') ← deliver_one_message_round_robin partition_id msg m
  (ids, m'') ← deliver_many partition_id rest m'
  ok (id ∷ ids, m'')

-- Every consumer has a session.
abbrev pub AllConnected : List ℤ → ClientManager → Type 0
AllConnected ids m = All (λ id. contains m.client_sessions id ≡ true) ids

all_get : (P : ℤ → Type 0) (xs : List ℤ) (i : ℕ) (a : ℤ) → All P xs → get_elem? xs i ≡ some a → P a
all_get P [] i a h e = cc
all_get P (x ∷ xs) zero a h e = subst P (cc) h.0
all_get P (x ∷ xs) (suc i) a h e = all_get P xs i a h.1 e

-- What one delivery does, with consumers, sessions for all of them, and the count below INT_MAX.
abbrev pub Served : ℤ → FlowMessage → List ℤ → ℕ → ClientManager → Type 0
Served p msg ids c m =
    (id : ℤ) × (get_elem? ids (c % length ids) ≡ some id)
    × (deliver_one_message_round_robin p msg m
        ≡ ok (
          id,
          record m {
            written = m.written ++ (id, msg) ∷ [];
            deliver_count = assign p (pos (suc c)) m.deliver_count;
          },
        ))

increment_pos : (c : ℕ) → c < 2 ^ 31 - 1 → increment (pos c) ≡ ok (pos (suc c))
unfolding increment
increment_pos c h = rw (pos-+ℤ c 1) (ground arith)

served_next :
    (p : ℤ) (msg : FlowMessage) (id : ℤ) (ids : List ℤ) (c : ℕ) (m : ClientManager) (next : ℤ)
    → lookup m.consumer_client_id_array p ≡ some (id ∷ ids)
    → find_or m.deliver_count p (pos 0) ≡ pos c
    → c < 2 ^ 31 - 1
    → get_elem? (id ∷ ids) (c % length (id ∷ ids)) ≡ some next
    → contains m.client_sessions next ≡ true
    → deliver_one_message_round_robin p msg m
      ≡ ok (
        next,
        record m {
          written = m.written ++ (next, msg) ∷ [];
          deliver_count = assign p (pos (suc c)) m.deliver_count;
        },
      )
unfolding deliver_one_message_round_robin deliver_to write_to
served_next p msg id ids c m next listed turn small e up =
    rw (listed, deliver_one_message_round_robin)
      (rw turn (rw e (rw up (rw (increment_pos c small) refl))))

-- With consumers that all have sessions, the message is written to the consumer whose turn it is,
-- its id is returned, and the turn goes on; nothing else changes.
pub deliver_one-Served :
    (p : ℤ) (msg : FlowMessage) (id : ℤ) (ids : List ℤ) (c : ℕ) (m : ClientManager)
    → lookup m.consumer_client_id_array p ≡ some (id ∷ ids)
    → AllConnected (id ∷ ids) m
    → find_or m.deliver_count p (pos 0) ≡ pos c
    → c < 2 ^ 31 - 1
    → Served p msg (id ∷ ids) c m
deliver_one-Served p msg id ids c m listed connected turn small =
    let (next, e) = get_elem?_exists (id ∷ ids) (c % length (id ∷ ids)) (mod-lt c (omega arith)) in
    (
      next,
      e,
      served_next p msg id ids c m next listed turn small e (
          all_get (λ i. contains m.client_sessions i ≡ true) (id ∷ ids) (c % length (id ∷ ids)) next
            connected e),
    )

-- Whose turn it is at the count `c` and after.
abbrev pub Turns : List ℤ → ℕ → ℕ → List ℤ → Type 0
Turns ids c zero got = got ≡ []
Turns ids c (suc n) [] = ⊥
Turns ids c (suc n) (id ∷ got) =
    (get_elem? ids (c % length ids) ≡ some id) × Turns ids (suc c) n got

abbrev pub paired : List ℤ → List FlowMessage → List (ℤ × FlowMessage)
paired [] msgs = []
paired (id ∷ ids) [] = []
paired (id ∷ ids) (msg ∷ msgs) = (id, msg) ∷ paired ids msgs

-- With consumers that all have sessions, and with the count in the range of an int throughout, a
-- series of deliveries to a partition goes round its consumers: it returns, the message number j goes
-- to the consumer whose turn it is at the count j further on, and these messages, in this order, are
-- all that is written.
pub deliver_many-Turns :
    (p : ℤ) (msgs : List FlowMessage) (id : ℤ) (ids : List ℤ) (c : ℕ) (m : ClientManager)
    → lookup m.consumer_client_id_array p ≡ some (id ∷ ids)
    → AllConnected (id ∷ ids) m
    → find_or m.deliver_count p (pos 0) ≡ pos c
    → c + length msgs < 2 ^ 31
    → (got : List ℤ) × (m' : ClientManager) × (deliver_many p msgs m ≡ ok (got, m'))
      × Turns (id ∷ ids) c (length msgs) got
      × (m'.written ≡ m.written ++ paired got msgs)
unfolding deliver_many
deliver_many-Turns p [] id ids c m listed connected turn small =
    ([], m, refl, refl, sym (append-nil m.written))
deliver_many-Turns p (msg ∷ msgs) id ids c m listed connected turn small =
    let (next, e, d) = deliver_one-Served p msg id ids c m listed connected turn (omega arith) in
    let (got, m', all, turns, wrote) =
      deliver_many-Turns p msgs id ids (suc c)
        (record m {
          written = m.written ++ (next, msg) ∷ [];
          deliver_count = assign p (pos (suc c)) m.deliver_count;
        })
        listed connected
        (ground (arith, lookup-assign m.deliver_count p p (pos (suc c)), eq_refl p))
        (omega arith) in
    (
      next ∷ got,
      m',
      rw d (rw all refl),
      (e, turns),
      wrote ∙ append_assoc m.written ((next, msg) ∷ []) (paired got msgs),
    )
