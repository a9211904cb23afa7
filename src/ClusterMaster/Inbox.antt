-- ===== src/ClusterMaster/Inbox.antt =====
-- What the nodes of a master of src/flowmq/cluster_master.cpp find in their io_contexts.
use flowmq.Base.{
  ℤ, List, [], ◌∷◌, ◌++◌, some, Bool-cases, Outcome, ok, fault, ◌>>=◌, All, ◌==ℤ◌, eq_iff,
  if◌then◌else◌, ◌≡◌, refl, sym, ◌∙◌, ap, inl, inr, append-nil, append_assoc,
}
use flowmq.Containers.OrdMap
use flowmq.Containers.OrdMap.{OrdMap, lookup-assign}
use flowmq.Protocol.{FlowMessage, partition_id_of}
use flowmq.Message.{Message, FlowMessageCodec, deserialize_from_message}
use flowmq.ClusterMaster.{
  ClusterMaster, PartitionNode, Posted, local_message, lost_consumer, node_message_handler,
  dispatch_to, message_handler, consumer_disconnected, all_disconnected, client_disconnected, Input,
  message, client_leaves, handle, run,
}

-- What one call is meant to post to the node of a partition: the message if it names the partition,
-- and every client that leaves.
abbrev pub read_for : ℤ → Outcome FlowMessage → List Posted
read_for p (ok m) = if partition_id_of m ==ℤ p then local_message m ∷ [] else []
read_for p fault = []

abbrev pub addressed : FlowMessageCodec → ℤ → Input → List Posted
addressed codec p (message msg) = read_for p (deserialize_from_message codec msg)
addressed codec p (client_leaves client_id) = lost_consumer client_id ∷ []

abbrev pub all_addressed : FlowMessageCodec → ℤ → List Input → List Posted
all_addressed codec p [] = []
all_addressed codec p (i ∷ is) = addressed codec p i ++ all_addressed codec p is

module _ {N : Type 0} where
  abbrev pub with_posted : List Posted → PartitionNode N → PartitionNode N
  with_posted more n = record n { posted = n.posted ++ more }

  some_same : {a b : PartitionNode N} → some a ≡ some b → a ≡ b
  some_same h = cc

  lookup-all_disconnected :
      (client_id p : ℤ) (nodes : OrdMap (PartitionNode N)) (n : PartitionNode N)
      → OrdMap.lookup nodes p ≡ some n
      → OrdMap.lookup (all_disconnected client_id nodes) p
        ≡ some (consumer_disconnected client_id n)
  unfolding OrdMap.lookup all_disconnected
  lookup-all_disconnected client_id p [] n e = cc
  lookup-all_disconnected client_id p ((i, m) ∷ rest) n e = elim (Bool-cases (i ==ℤ p)) [
    | inl hit ↦
        let same : some m ≡ some n = sym (rw hit refl) ∙ e in
        rw hit (ap some (ap (consumer_disconnected client_id) (some_same same)))
    | inr miss ↦ rw miss (lookup-all_disconnected client_id p rest n (sym (rw miss refl) ∙ e))
  ]

  node_message_handler_lem :
      (codec : FlowMessageCodec) (msg : Message) (raft_msg : FlowMessage) (n : PartitionNode N)
      → deserialize_from_message codec msg ≡ ok raft_msg
      → node_message_handler codec msg n ≡ ok (with_posted (local_message raft_msg ∷ []) n)
  unfolding node_message_handler
  node_message_handler_lem codec msg raft_msg n e = rw e refl

  -- A message whose partition is known reaches its node.
  dispatched :
      (codec : FlowMessageCodec) (msg : Message) (raft_msg : FlowMessage) (m : ClusterMaster N)
      (n : PartitionNode N)
      → deserialize_from_message codec msg ≡ ok raft_msg
      → OrdMap.lookup m.nodes (partition_id_of raft_msg) ≡ some n
      → message_handler codec msg m
        ≡ ok (record m {
          nodes =
              OrdMap.assign
                (partition_id_of raft_msg)
                (with_posted (local_message raft_msg ∷ []) n)
                m.nodes;
        })
  unfolding message_handler
  dispatched codec msg raft_msg m n e found =
      let id = partition_id_of raft_msg in
      ap
        (λ o. o >>= λ r.
          dispatch_to codec msg (partition_id_of r) (OrdMap.lookup m.nodes (partition_id_of r)) m)
        e
      ∙ ap (λ o. dispatch_to codec msg id o m) found
      ∙ ap (λ o. o >>= λ n'. ok (record m { nodes = OrdMap.assign id n' m.nodes }))
          (node_message_handler_lem codec msg raft_msg n e)

  assigned :
      (codec : FlowMessageCodec) (raft_msg : FlowMessage) (nodes : OrdMap (PartitionNode N))
      (k n : PartitionNode N) (p : ℤ)
      → OrdMap.lookup nodes (partition_id_of raft_msg) ≡ some k
      → OrdMap.lookup nodes p ≡ some n
      → OrdMap.lookup
          (OrdMap.assign
            (partition_id_of raft_msg)
            (with_posted (local_message raft_msg ∷ []) k)
            nodes)
          p
        ≡ some (with_posted (read_for p (ok raft_msg)) n)
  assigned codec raft_msg nodes k n p known found =
      let id = partition_id_of raft_msg in
      lookup-assign nodes id p (with_posted (local_message raft_msg ∷ []) k)
      ∙ (elim (Bool-cases (id ==ℤ p)) [
        | inl hit ↦
            let same : k ≡ n =
              some_same (sym known ∙ ap (OrdMap.lookup nodes) ((eq_iff id p).0 hit) ∙ found) in
            rw hit (ap some (ap (with_posted (local_message raft_msg ∷ [])) same))
        | inr miss ↦ rw (miss, found) (ap some (nothing_more n))
      ])
    where
      nothing_more : (x : PartitionNode N) → x ≡ with_posted [] x
      nothing_more x = ap (λ l. record x { posted = l }) (sym (append-nil x.posted))

  -- A message that can be read and names a partition of the master; every client may leave.
  abbrev pub Known : FlowMessageCodec → ClusterMaster N → Input → Type 0
  Known codec m (client_leaves client_id) = Unit {0}
  Known codec m (message msg) =
      (raft_msg : FlowMessage) × (deserialize_from_message codec msg ≡ ok raft_msg)
      × (n : PartitionNode N) × (OrdMap.lookup m.nodes (partition_id_of raft_msg) ≡ some n)

  -- The call returns, and every node finds what is addressed to it.
  abbrev Reaches : FlowMessageCodec → List Posted → ClusterMaster N → ClusterMaster N → ℤ → Type 0
  Reaches codec more m m' p =
      (n : PartitionNode N)
      → OrdMap.lookup m.nodes p ≡ some n
      → OrdMap.lookup m'.nodes p ≡ some (with_posted more n)

  handle-addressed :
      (codec : FlowMessageCodec) (i : Input) (m : ClusterMaster N)
      → Known codec m i
      → (m' : ClusterMaster N) × (handle codec i m ≡ ok m')
        × ((p : ℤ) → Reaches codec (addressed codec p i) m m' p)
  unfolding handle consumer_disconnected
  handle-addressed codec (client_leaves client_id) m known = (
    client_disconnected client_id m,
    refl,
    λ p n found. lookup-all_disconnected client_id p m.nodes n found,
  )
  handle-addressed codec (message msg) m (raft_msg, e, k, known) = (
    _,
    dispatched codec msg raft_msg m k e known,
    λ p n found.
        assigned codec raft_msg m.nodes k n p known found
        ∙ ap (λ o. some (with_posted (read_for p o) n)) (sym e),
  )

  still-Known :
      (codec : FlowMessageCodec) (i j : Input) (m m' : ClusterMaster N)
      → ((p : ℤ) → Reaches codec (addressed codec p i) m m' p)
      → Known codec m j
      → Known codec m' j
  still-Known codec i (client_leaves client_id) m m' reach h = tt
  still-Known codec i (message msg) m m' reach (raft_msg, e, n, known) =
      (raft_msg, e, _, reach (partition_id_of raft_msg) n known)

  each-Known :
      (codec : FlowMessageCodec) (i : Input) (is : List Input) (m m' : ClusterMaster N)
      → ((p : ℤ) → Reaches codec (addressed codec p i) m m' p)
      → All (Known codec m) is
      → All (Known codec m') is
  each-Known codec i [] m m' reach h = tt
  each-Known codec i (j ∷ is) m m' reach (h, hs) =
      (still-Known codec i j m m' reach h, each-Known codec i is m m' reach hs)

  -- When every message of the calls can be read and names a partition that the master has, the calls
  -- return, and the io_context of each node has got, behind what it had, the messages of its
  -- partition and all clients that left, in the order of the calls, and nothing else; the node
  -- itself is as before.
  pub run-addressed :
      (codec : FlowMessageCodec) (is : List Input) (m : ClusterMaster N)
      → All (Known codec m) is
      → (m' : ClusterMaster N) × (run codec is m ≡ ok m')
        × ((p : ℤ) (n : PartitionNode N)
            → OrdMap.lookup m.nodes p ≡ some n
            → OrdMap.lookup m'.nodes p ≡ some (with_posted (all_addressed codec p is) n))
  unfolding run
  run-addressed codec [] m h = (
    m,
    refl,
    λ p n found. found ∙ ap (λ l. some (record n { posted = l })) (sym (append-nil n.posted)),
  )
  run-addressed codec (i ∷ is) m (h, hs) =
      let (u, first, reach) = handle-addressed codec i m h in
      let (m', later, reach') = run-addressed codec is u (each-Known codec i is m u reach hs) in
      (
        m',
        rw first later,
        λ p n found.
            reach' p (with_posted (addressed codec p i) n) (reach p n found)
            ∙ ap (λ l. some (record n { posted = l }))
                (append_assoc n.posted (addressed codec p i) (all_addressed codec p is)),
      )
