-- ===== src/ClientManager/Sessions.antt =====
-- When the null pointer of src/flowmq/client_manager.cpp cannot be reached, and when it is.
use flowmq.Base.{
  ℤ, List, [], ◌∷◌, ◌++◌, none, some, true, false, fault, ◌≡◌, refl, sym, arith, All, All-map,
  All-append, All-zip, subst, Bool-cases, inl, inr, ◌==ℤ◌, eq_iff, eq_refl, if◌then◌else◌,
}
use flowmq.Containers.OrdSet
use flowmq.Containers.OrdSet.{OrdSet, contains, contains-insert, contains-erase}
use flowmq.Containers.OrdMap.{OrdMap, lookup, find_or, lookup-assign}
use flowmq.Protocol.{FlowMessage}
use flowmq.ClientManager.{
  ClientManager, accept, disconnect, open_queue, erase_first, erase_from_all,
  deliver_one_message_round_robin, deliver_to, write_to,
}

-- No id occurs twice.
abbrev pub Distinct : List ℤ → Type 0
Distinct [] = Unit {0}
Distinct (x ∷ xs) = All (λ i. (x ==ℤ i) ≡ false) xs × Distinct xs

lookup-erase_from_all :
    (id p : ℤ) (m : OrdMap (List ℤ))
    → lookup (erase_from_all id m) p
      ≡ (elim (lookup m p) [ none ↦ none | some ids ↦ some (erase_first id ids) ])
unfolding lookup erase_from_all
lookup-erase_from_all id p [] = refl
lookup-erase_from_all id p ((i, ids) ∷ rest) = ground (arith, lookup-erase_from_all id p rest)

listed_open_queue :
    (p c : ℤ) (m : ClientManager)
    → lookup (open_queue p c m).consumer_client_id_array p
      ≡ some (find_or m.consumer_client_id_array p [] ++ c ∷ [])
unfolding open_queue
listed_open_queue p c m = ground (
  arith,
  eq_refl p,
  lookup-assign m.consumer_client_id_array p p (find_or m.consumer_client_id_array p [] ++ c ∷ []),
)

listed_disconnect :
    (p c : ℤ) (m : ClientManager) (ids : List ℤ)
    → lookup m.consumer_client_id_array p ≡ some ids
    → lookup (disconnect c m).consumer_client_id_array p ≡ some (erase_first c ids)
unfolding disconnect
listed_disconnect p c m ids h =
    ground (arith, lookup-erase_from_all c p m.consumer_client_id_array, h)

deliver_to_gone :
    (p c : ℤ) (msg : FlowMessage) (m : ClientManager)
    → contains m.client_sessions c ≡ false
    → deliver_to p msg (c ∷ []) m ≡ fault
unfolding deliver_to write_to
deliver_to_gone p c msg m h = ground arith

-- A client that opens a queue of no consumers twice and then leaves stays among the consumers with
-- no session: the next delivery to the partition goes through a null pointer.
pub reopened_faults :
    (p c : ℤ) (msg : FlowMessage) (m : ClientManager)
    → find_or m.consumer_client_id_array p [] ≡ []
    → deliver_one_message_round_robin p msg (disconnect c (open_queue p c (open_queue p c m)))
      ≡ fault
unfolding deliver_one_message_round_robin erase_first
reopened_faults p c msg m h =
    let opened = open_queue p c m in
    let twice = open_queue p c opened in
    let first : find_or opened.consumer_client_id_array p [] ≡ c ∷ [] =
      ground (arith, listed_open_queue p c m, h) in
    let second : lookup twice.consumer_client_id_array p ≡ some (c ∷ c ∷ []) =
      ground (arith, listed_open_queue p c opened, first) in
    let left : lookup (disconnect c twice).consumer_client_id_array p ≡ some (c ∷ []) =
      ground (arith, listed_disconnect p c twice (c ∷ c ∷ []) second, eq_refl c) in
    rw (left, deliver_one_message_round_robin)
      (deliver_to_gone p c msg (disconnect c twice) (gone c twice))
  where
    gone : (d : ℤ) (n : ClientManager) → contains (disconnect d n).client_sessions d ≡ false
    gone d n = unfold disconnect in rw (contains-erase n.client_sessions d d, eq_refl d) refl

abbrev pub consumers : ClientManager → ℤ → List ℤ
consumers m p = find_or m.consumer_client_id_array p []

abbrev pub Linked : OrdSet → List ℤ → Type 0
Linked sessions ids = All (λ id. contains sessions id ≡ true) ids × Distinct ids

-- Each consumer of a partition has a session, and is listed once.
abbrev pub IsLinked : ClientManager → Type 0
IsLinked m = (p : ℤ) → Linked m.client_sessions (consumers m p)

-- A new connection keeps it.
accept-IsLinked : (id : ℤ) (m : ClientManager) → IsLinked m → IsLinked (accept id m)
unfolding accept
accept-IsLinked id m h p = (
  All-map _ (λ i. contains (OrdSet.insert id m.client_sessions) i ≡ true) (consumers m p)
      (λ i e. rw (contains-insert m.client_sessions id i) (ground (arith, e))) (h p).0,
  (h p).1,
)

Distinct-snoc :
    (xs : List ℤ) (c : ℤ) → Distinct xs → All (λ i. (i ==ℤ c) ≡ false) xs → Distinct (xs ++ c ∷ [])
Distinct-snoc [] c d h = (tt, tt)
Distinct-snoc (x ∷ xs) c d h =
    (All-append (λ i. (x ==ℤ i) ≡ false) xs (c ∷ []) d.0 (h.0, tt), Distinct-snoc xs c d.1 h.1)

consumers-open_queue :
    (p c j : ℤ) (m : ClientManager)
    → consumers (open_queue p c m) j ≡ (if p ==ℤ j then consumers m p ++ c ∷ [] else consumers m j)
unfolding open_queue
consumers-open_queue p c j m =
    ground (arith, lookup-assign m.consumer_client_id_array p j (consumers m p ++ c ∷ []))

-- A connected client that opens a queue that it does not consume yet keeps it.
open_queue-IsLinked :
    (p c : ℤ) (m : ClientManager)
    → contains m.client_sessions c ≡ true
    → All (λ i. (i ==ℤ c) ≡ false) (consumers m p)
    → IsLinked m
    → IsLinked (open_queue p c m)
open_queue-IsLinked p c m up fresh h j =
    subst (Linked (open_queue p c m).client_sessions) (sym (consumers-open_queue p c j m)) (
      unfold open_queue in
      (elim (Bool-cases (p ==ℤ j)) [
        | inl e ↦ rw e (
          All-append (λ i. contains m.client_sessions i ≡ true) (consumers m p) (c ∷ []) (h p).0
              (up, tt),
          Distinct-snoc (consumers m p) c (h p).1 fresh,
        )
        | inr e ↦ rw e (h j)
      ]))

All-erase_first : (P : ℤ → Type 0) (c : ℤ) (ids : List ℤ) → All P ids → All P (erase_first c ids)
unfolding erase_first
All-erase_first P c [] h = tt
All-erase_first P c (x ∷ xs) h = elim (Bool-cases (x ==ℤ c)) [
  | inl e ↦ rw e h.1
  | inr e ↦ rw e (h.0, All-erase_first P c xs h.1)
]

-- Only the id itself loses its session, and it was listed once.
Linked-erase :
    (c : ℤ) (s : OrdSet) (ids : List ℤ)
    → Linked s ids
    → Linked (OrdSet.erase c s) (erase_first c ids)
unfolding erase_first
Linked-erase c s [] h = (tt, tt)
Linked-erase c s (x ∷ xs) ((up, ups), (new, distinct)) = elim (Bool-cases (x ==ℤ c)) [
  | inl e ↦ rw e (
    All-zip (λ i. contains s i ≡ true) (λ i. (x ==ℤ i) ≡ false)
        (λ i. contains (OrdSet.erase c s) i ≡ true) xs
        (λ i a b. ground (arith, contains-erase s c i, eq_iff x c, eq_iff x i, eq_iff c i, e, a, b))
        ups new,
    distinct,
  )
  | inr e ↦
      let (rest, distinct') = Linked-erase c s xs (ups, distinct) in
      rw e (
        (ground (arith, contains-erase s c x, eq_iff x c, eq_iff c x, e, up), rest),
        (All-erase_first (λ i. (x ==ℤ i) ≡ false) c xs new, distinct'),
      )
]

consumers-disconnect :
    (c j : ℤ) (m : ClientManager) → consumers (disconnect c m) j ≡ erase_first c (consumers m j)
unfolding disconnect erase_first
consumers-disconnect c j m = ground (arith, lookup-erase_from_all c j m.consumer_client_id_array)

disconnect-IsLinked : (c : ℤ) (m : ClientManager) → IsLinked m → IsLinked (disconnect c m)
disconnect-IsLinked c m h j =
    subst (Linked (disconnect c m).client_sessions) (sym (consumers-disconnect c j m))
      (unfold disconnect in (Linked-erase c m.client_sessions (consumers m j) (h j)))

-- What clients do.
pub data Action : Type 0 where
  connects : ℤ → Action
  opens : ℤ → ℤ → Action
  leaves : ℤ → Action

unfoldable pub act : Action → ClientManager → ClientManager
act (connects id) m = accept id m
act (opens p c) m = open_queue p c m
act (leaves c) m = disconnect c m

-- A queue is opened by a connected client that does not consume it already.
abbrev pub IsPolite : Action → ClientManager → Type 0
IsPolite (opens p c) m =
    (contains m.client_sessions c ≡ true) × All (λ i. (i ==ℤ c) ≡ false) (consumers m p)
IsPolite a m = Unit {0}

-- While clients open each queue at most once, every consumer on every list has a session.
pub act-IsLinked : (a : Action) (m : ClientManager) → IsPolite a m → IsLinked m → IsLinked (act a m)
unfolding act
act-IsLinked (connects id) m w h = accept-IsLinked id m h
act-IsLinked (opens p c) m w h = open_queue-IsLinked p c m w.0 w.1 h
act-IsLinked (leaves c) m w h = disconnect-IsLinked c m h
