-- ===== src/Server/Runs.antt =====
-- The server of src/application/cluster_node.cpp with a configuration of two nodes, and its theorem
-- there. A number stands for endpoints.
use flowmq.Base.{ℤ, pos, ℕ, Bytes, [], ◌∷◌, Option, some, ok, ◌≡◌, ◌≤◌, refl, ◌==ℤ◌}
use flowmq.Text.Decimal.{show_ℕ, show_ℤ, digits, skip_spaces, span_digits, value_from}
use flowmq.Text.Atoi.{to_number}
use flowmq.Text.Strip.{strip, find_first_not_of, find_last_not_of}
use flowmq.Text.Lines.{lines}
use flowmq.Configuration.{
  ServerPoint, load_config, load_lines, load_line, get_key_value, split_key, set_key,
  push_if_complete,
}
use flowmq.Configuration.RoundTrip.{print_config}
use flowmq.ClusterManager.Reconnect.{named}
use flowmq.Server.{Server, run_server, other_endpoints, find_this_endpoint}
use flowmq.Server.Endpoints.{run_server-distinct}

abbrev resolve_all : Bytes → Bytes → Option ℕ
resolve_all ip port = some 9

abbrev point : ℤ → ServerPoint
point id = record { node_id = id; host_ip = 97 ∷ []; server_port = 49 ∷ []; client_port = 55 ∷ [] }

abbrev config_file : Bytes
config_file = print_config (pos 0) (point (pos 0) ∷ point (pos 1) ∷ []) (pos 4 ∷ [])

abbrev second_server : Server ℕ
second_server = record {
  this_endpoint = some 1;
  others = (pos 0, 9) ∷ [];
  client_facing_endpoint = 7;
  node_configs = record { partition_id = pos 4; node_id = pos 1; total_nodes = pos 2 } ∷ [];
}

second_runs : run_server resolve_all config_file (pos 1) ≡ ok second_server
unfolding run_server other_endpoints find_this_endpoint load_config load_lines load_line lines
    get_key_value split_key strip find_first_not_of find_last_not_of set_key push_if_complete
    to_number skip_spaces span_digits value_from show_ℕ show_ℤ digits ◌==ℤ◌
second_runs = refl

run_server-distinct_example : named (pos 0) second_server.others ≤ 1
run_server-distinct_example =
    run_server-distinct resolve_all config_file (pos 1) second_server second_runs (pos 0)
