-- ===== src/Cluster/Traffic.antt =====
-- The votes, the requests for votes and the grants that are under way between the nodes of
-- src/flowmq/cluster_node.cpp.
use flowmq.Base.{
  ℤ, pos, ℕ, zero, suc, ◌+◌, ◌≤◌, List, [], ◌∷◌, some, Bool, false, not, ◌&&◌, Bool-cases, All,
  get_elem?, count_if, count_if-append, one_if, ◌==ℤ◌, eq_iff, ◌==◌, ==_iff, ◌≡◌, refl, ◌∙◌, ap,
  arith, inl, inr,
}
use flowmq.Protocol.{FlowMessage, MessageType, get_vote_request, get_vote_response}
use flowmq.ClusterNode.State.{Packet, broad_cast, write_message}
use flowmq.ClusterNode.Frames.{Ballot, ballots}
use flowmq.ClusterNode.Plain.{Plain, is_vote}
use flowmq.Cluster.{to_others, send_all, remove_at}

abbrev pub same_ballot : Ballot → Ballot → Bool
same_ballot b x = (x.term ==ℤ b.term) && (x.candidate_id ==ℤ b.candidate_id)

abbrev pub votes_in : Ballot → List Ballot → ℕ
votes_in b bs = count_if (same_ballot b) bs

-- A request for this vote.
abbrev asks_type : Ballot → MessageType → FlowMessage → Bool
asks_type b MessageType.request_vote_request m =
    ((get_vote_request m).term ==ℤ b.term) && ((get_vote_request m).candidate_id ==ℤ b.candidate_id)
asks_type b other m = false

abbrev pub asks : ℤ → Ballot → ℤ × FlowMessage → Bool
asks v b (dest, m) = (dest ==ℤ v) && asks_type b m.type m

-- An answer that grants this vote, on its way to the candidate.
abbrev grants_type : Ballot → MessageType → FlowMessage → Bool
grants_type b MessageType.request_vote_response m =
    not ((get_vote_response m).vote_result_term_granted ==ℤ pos 0)
    && ((get_vote_response m).term ==ℤ b.term)
grants_type b other m = false

abbrev pub grants : Ballot → ℤ × FlowMessage → Bool
grants b (dest, m) = (dest ==ℤ b.candidate_id) && grants_type b m.type m

abbrev pub requests : ℤ → Ballot → List (ℤ × FlowMessage) → ℕ
requests v b fs = count_if (asks v b) fs

abbrev pub granted : Ballot → List (ℤ × FlowMessage) → ℕ
granted b fs = count_if (grants b) fs

plain_type :
    (b : Ballot) (t : MessageType) (m : FlowMessage)
    → is_vote t ≡ false
    → (asks_type b t m ≡ false) × (grants_type b t m ≡ false)
plain_type b t m h = ground arith

plain_message :
    (v : ℤ) (b : Ballot) (d : ℤ) (m : FlowMessage)
    → is_vote m.type ≡ false
    → (asks v b (d, m) ≡ false) × (grants b (d, m) ≡ false)
plain_message v b d m h = ground (arith, plain_type b m.type m h)

-- None of the elements that are sent to the others passes a test that fails for every destination.
pub to_others-none :
    (p : ℤ × FlowMessage → Bool) (k n : ℕ) (m : FlowMessage)
    → ((d : ℤ) → p (d, m) ≡ false)
    → count_if p (to_others k n m) ≡ 0
unfolding count_if
to_others-none p k zero m h = refl
to_others-none p k (suc n) m h = ground (arith, to_others-none p k n m h, h (pos n))

-- What the nodes hand over that is no vote neither asks for one nor grants one.
pub send_all-Plain :
    (k n : ℕ) (ps : List Packet)
    → All Plain ps
    → (v : ℤ) (b : Ballot)
    → (requests v b (send_all k n ps) ≡ 0) × (granted b (send_all k n ps) ≡ 0)
unfolding count_if
send_all-Plain k n [] h v b = (refl, refl)
send_all-Plain k n (broad_cast m ∷ ps) (h, hs) v b =
    let (r, g) = send_all-Plain k n ps hs v b in
    (
      omega (
        arith,
        r,
        count_if-append (asks v b) (to_others k n m) (send_all k n ps),
        to_others-none (asks v b) k n m (λ d. (plain_message v b d m h).0),
      ),
      omega (
        arith,
        g,
        count_if-append (grants b) (to_others k n m) (send_all k n ps),
        to_others-none (grants b) k n m (λ d. (plain_message v b d m h).1),
      ),
    )
send_all-Plain k n (write_message dest m ∷ ps) (h, hs) v b =
    let (r, g) = send_all-Plain k n ps hs v b in
    let (a, c) = plain_message v b dest m h in
    (omega (arith, r, ap one_if a), omega (arith, g, ap one_if c))

pub ballots-Plain : (ps : List Packet) → All Plain ps → ballots ps ≡ []
ballots-Plain [] h = refl
ballots-Plain (broad_cast m ∷ ps) (h, hs) = ground (arith, ballots-Plain ps hs)
ballots-Plain (write_message dest m ∷ ps) (h, hs) = ground (arith, ballots-Plain ps hs)

pub pos_eq : (n v : ℕ) → (pos n ==ℤ pos v) ≡ (n == v)
pos_eq n v = ground (arith, eq_iff (pos n) (pos v))

-- A broadcast reaches every other node at most once, and not its sender.
pub to_others-once :
    (p : ℤ × FlowMessage → Bool) (k n : ℕ) (m : FlowMessage) (v : ℕ) (hit : Bool)
    → ((d : ℤ) → p (d, m) ≡ ((d ==ℤ pos v) && hit))
    → (count_if p (to_others k n m) ≤ one_if (not (v == k) && hit))
      × (n ≤ v → count_if p (to_others k n m) ≡ 0)
unfolding count_if
to_others-once p k zero m v hit h = (omega arith, λ _. refl)
to_others-once p k (suc n) m v hit h =
    let (once, before) = to_others-once p k n m v hit h in
    let here : p (pos n, m) ≡ ((n == v) && hit) = h (pos n) ∙ ap (λ t. t && hit) (pos_eq n v) in
    elim (Bool-cases (n == v)) [
      | inl same ↦ (
        ground (arith, here, before (omega (arith, (==_iff n v).0 same))),
        λ le. ground (arith, here),
      )
      | inr other ↦ (ground (arith, here, once), λ le. ground (arith, here, before (omega arith)))
    ]

-- Taking a message out of the network.
pub count_if-remove_at {ℓ} :
    {A : Type ℓ} (p : A → Bool) (i : ℕ) (xs : List A) (x : A)
    → get_elem? xs i ≡ some x
    → count_if p xs ≡ one_if (p x) + count_if p (remove_at i xs)
unfolding count_if
count_if-remove_at p i [] x e = cc
count_if-remove_at p zero (y ∷ xs) x e =
    let same : y ≡ x = cc in ap (λ z. one_if (p z) + count_if p xs) same
count_if-remove_at p (suc i) (y ∷ xs) x e = omega (arith, count_if-remove_at p i xs x e)

pub count_if-remove_at_le {ℓ} :
    {A : Type ℓ} (p : A → Bool) (i : ℕ) (xs : List A) → count_if p (remove_at i xs) ≤ count_if p xs
unfolding count_if
count_if-remove_at_le p i [] = omega arith
count_if-remove_at_le p zero (y ∷ xs) = omega arith
count_if-remove_at_le p (suc i) (y ∷ xs) = omega (arith, count_if-remove_at_le p i xs)
