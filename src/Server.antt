-- ===== src/Server.antt =====
-- RunServer in src/application/cluster_node.cpp: from the configuration to the endpoints and the
-- nodes of a server process. The resolver is a parameter (`none` where it throws); a `fault` is also
-- an exception that leaves the function.
pub mod Endpoints
mod Runs
use flowmq.Base.{
  ℤ, pos, negsuc, ℕ, suc, ◌+◌, ◌-◌, ◌%◌, ◌^◌, Bytes, List, [], ◌∷◌, Option, none, some, Bool, true,
  false, Outcome, ok, fault, ◌>>=◌, or_fault, length, get_elem?, map, ◌==ℤ◌, ltb_ℤ, if◌then◌else◌,
}
use flowmq.Text.Atoi.{stoi}
use flowmq.Configuration.{ServerConfiguration, ServerPoint, load_config}
use flowmq.ClusterNode.Start.{ClusterNodeConfig}

-- static_cast<unsigned short>
abbrev pub to_port : ℤ → ℕ
to_port (pos n) = n % 2 ^ 16
to_port (negsuc n) = 2 ^ 16 - 1 - n % 2 ^ 16

-- What RunServer constructs: the port of this node, if the configuration has the node, the other
-- nodes, the port for clients, and the nodes of the partitions.
pub record Server (Results : Type 0) : Type 0 where
  pub this_endpoint : Option ℕ
  pub others : List (ℤ × Results)
  pub client_facing_endpoint : ℕ
  pub node_configs : List ClusterNodeConfig

-- The command line's node, if it is not negative, goes before the file's.
abbrev pub override_current : ℤ → ServerConfiguration → ServerConfiguration
override_current cur_node config =
    if ltb_ℤ cur_node (pos 0) then config else record config { current_node = some cur_node }

-- The last node with the current id counts.
unfoldable pub find_this_endpoint : ℤ → Option ℕ → List ServerPoint → Outcome (Option ℕ)
find_this_endpoint current found [] = ok found
find_this_endpoint current found (p ∷ rest) =
    if p.node_id ==ℤ current
    then (or_fault (stoi p.server_port) >>= λ port.
        find_this_endpoint current (some (to_port port)) rest)
    else find_this_endpoint current found rest

-- config.server_nodes[i]
abbrev pub node_at : ℤ → List ServerPoint → Outcome ServerPoint
node_at (pos i) nodes = or_fault (get_elem? nodes i)
node_at (negsuc i) nodes = fault

-- assert(config.partitions_ids.size() > 0)
abbrev pub not_empty : List ℤ → Outcome (List ℤ)
not_empty [] = fault
not_empty (i ∷ is) = ok (i ∷ is)

module _ {Results : Type 0} (resolve : Bytes → Bytes → Option Results) where
  -- The other nodes, each under its position.
  abbrev pub add_other : ℤ → ℕ → ServerPoint → List (ℤ × Results) → Outcome (List (ℤ × Results))
  add_other current i p later =
      if p.node_id ==ℤ current
      then ok later
      else (or_fault (resolve p.host_ip p.server_port) >>= λ r. ok ((pos i, r) ∷ later))

  unfoldable pub other_endpoints : ℤ → ℕ → List ServerPoint → Outcome (List (ℤ × Results))
  other_endpoints current i [] = ok []
  other_endpoints current i (p ∷ rest) =
      other_endpoints current (suc i) rest >>= λ later. add_other current i p later

  unfoldable pub run_server : Bytes → ℤ → Outcome (Server Results)
  run_server config_file cur_node = do
    loaded ← or_fault (load_config config_file)
    let config = override_current cur_node loaded
    cur_node_id ← or_fault config.current_node
    this ← find_this_endpoint cur_node_id none config.server_nodes
    others ← other_endpoints cur_node_id 0 config.server_nodes
    facing ← node_at cur_node_id config.server_nodes
    port ← or_fault (stoi facing.client_port)
    partitions ← not_empty config.partitions_ids
    ok (record {
      this_endpoint = this;
      others = others;
      client_facing_endpoint = to_port port;
      node_configs =
          map
            (λ partition_id. record {
              partition_id = partition_id;
              node_id = cur_node_id;
              total_nodes = pos (length config.server_nodes);
            })
            partitions;
    })
