-- ===== src/ClusterMaster/Runs.antt =====
-- A run of a master of src/flowmq/cluster_master.cpp with two partitions, and its theorem there. A
-- number stands for a node.
use flowmq.Base.{ℤ, pos, ℕ, List, [], ◌∷◌, ◌++◌, some, ok, ◌≡◌, refl, replicate, ◌==ℤ◌, All}
use flowmq.Containers.OrdMap
use flowmq.Message.{Message, deserialize_from_message}
use flowmq.Message.Runs.{partition_codec}
use flowmq.Configuration.{no_config}
use flowmq.ClusterMaster.{
  ClusterMaster, PartitionNode, lost_consumer, Input, message, client_leaves, run, add_cluster_node,
  new_master,
}
use flowmq.ClusterMaster.Inbox.{Known, with_posted, all_addressed, run-addressed}

abbrev to_seven : Message
to_seven = record { body_length = pos 1; data_buffer = replicate 20 0 ++ 7 ∷ [] }

abbrev seven_and_eight : ClusterMaster ℕ
seven_and_eight = record {
  nodes =
      (pos 7, record { node = 70; posted = [] })
      ∷ (pos 8, record { node = 80; posted = lost_consumer (pos 1) ∷ [] })
      ∷ [];
  server_config = no_config;
}

nodes_added :
    (add_cluster_node {N = ℕ} (pos 7) 70 (new_master no_config)).nodes
    ≡ (pos 7, record { node = 70; posted = [] }) ∷ []
unfolding add_cluster_node OrdMap.assign
nodes_added = refl

abbrev two_calls : List Input
two_calls = client_leaves (pos 3) ∷ message to_seven ∷ []

two_calls-Known : All (Known partition_codec seven_and_eight) two_calls
unfolding deserialize_from_message OrdMap.lookup ◌==ℤ◌
two_calls-Known = (tt, ((_, refl, _, refl), tt))

run-addressed_example :
    (m : ClusterMaster ℕ) × (run partition_codec two_calls seven_and_eight ≡ ok m)
    × ((p : ℤ) (n : PartitionNode ℕ)
        → OrdMap.lookup seven_and_eight.nodes p ≡ some n
        → OrdMap.lookup m.nodes p
          ≡ some (with_posted (all_addressed partition_codec p two_calls) n))
run-addressed_example = run-addressed partition_codec two_calls seven_and_eight two_calls-Known
