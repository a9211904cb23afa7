-- ===== src/Configuration.antt =====
-- src/flowmq/configuration.hpp and configuration.cpp: the file that names the nodes and the
-- partitions of a cluster, and its reader. `none` is an exception that the reader lets out.
pub mod RoundTrip
pub mod Refusal
pub mod Loaded
mod Runs
use flowmq.Base.{
  ℤ, ℕ, Bytes, List, [], ◌∷◌, ◌++◌, Option, none, some, Bool, true, false, ◌==◌, ◌&&◌, ◌||◌, not,
  if◌then◌else◌,
}
use flowmq.Text.Decimal.{is_empty}
use flowmq.Text.Atoi.{stoi, stoll}
use flowmq.Text.Strip.{strip}
use flowmq.Text.Lines.{lines, same_string}

-- std::tuple of node_id, host_ip, server_port and client_port.
pub record ServerPoint : Type 0 where
  pub node_id : ℤ
  pub host_ip : Bytes
  pub server_port : Bytes
  pub client_port : Bytes

-- `current_node` is indeterminate until it is set.
pub record ServerConfiguration : Type 0 where
  pub current_node : Option ℤ
  pub server_nodes : List ServerPoint
  pub partitions_ids : List ℤ

-- The variables of load_config.
pub record Loading : Type 0 where
  pub config : ServerConfiguration
  pub id : Bytes
  pub host : Bytes
  pub cluster_port : Bytes
  pub client_port : Bytes

abbrev pub no_config : ServerConfiguration
no_config = record { current_node = none; server_nodes = []; partitions_ids = [] }

abbrev pub start_loading : Loading
start_loading = record {
  config = no_config;
  id = [];
  host = [];
  cluster_port = [];
  client_port = [];
}

abbrev pub equals_sign : ℕ
equals_sign = 61

-- "current_node", "id", "host", "cluster_port", "client_port" and "partition_id".
abbrev pub current_node_key : Bytes
current_node_key = 99 ∷ 117 ∷ 114 ∷ 114 ∷ 101 ∷ 110 ∷ 116 ∷ 95 ∷ 110 ∷ 111 ∷ 100 ∷ 101 ∷ []

abbrev pub id_key : Bytes
id_key = 105 ∷ 100 ∷ []

abbrev pub host_key : Bytes
host_key = 104 ∷ 111 ∷ 115 ∷ 116 ∷ []

abbrev pub cluster_port_key : Bytes
cluster_port_key = 99 ∷ 108 ∷ 117 ∷ 115 ∷ 116 ∷ 101 ∷ 114 ∷ 95 ∷ 112 ∷ 111 ∷ 114 ∷ 116 ∷ []

abbrev pub client_port_key : Bytes
client_port_key = 99 ∷ 108 ∷ 105 ∷ 101 ∷ 110 ∷ 116 ∷ 95 ∷ 112 ∷ 111 ∷ 114 ∷ 116 ∷ []

abbrev pub partition_id_key : Bytes
partition_id_key = 112 ∷ 97 ∷ 114 ∷ 116 ∷ 105 ∷ 116 ∷ 105 ∷ 111 ∷ 110 ∷ 95 ∷ 105 ∷ 100 ∷ []

abbrev pub behind : ℕ → Option (Bytes × Bytes) → Option (Bytes × Bytes)
behind c none = none
behind c (some (before, after)) = some (c ∷ before, after)

-- What stands before and after the first '='.
unfoldable pub split_key : Bytes → Option (Bytes × Bytes)
split_key [] = none
split_key (c ∷ s) = if c == equals_sign then some ([], s) else behind c (split_key s)

-- What get_key_value leaves: an exception, false, or true with the key and the value.
pub data KeyValue : Type 0 where
  throws no_key_value : KeyValue
  key_value : Bytes → Bytes → KeyValue

abbrev pub stripped_key_value : Option Bytes → Option Bytes → KeyValue
stripped_key_value (some key) (some value) =
    if not (is_empty key) && not (is_empty value) then key_value key value else no_key_value
stripped_key_value (some key) none = throws
stripped_key_value none value = throws

abbrev strip_both : Option (Bytes × Bytes) → KeyValue
strip_both none = no_key_value
strip_both (some (before, after)) = stripped_key_value (strip before) (strip after)

unfoldable pub get_key_value : Bytes → KeyValue
get_key_value line = strip_both (split_key line)

abbrev pub set_current_node : Loading → Option ℤ → Option Loading
set_current_node l none = none
set_current_node l (some n) = some (record l { config = record l.config { current_node = some n } })

abbrev pub push_partition : Loading → Option ℤ → Option Loading
push_partition l none = none
push_partition l (some n) =
    some
      (record l { config = record l.config { partitions_ids = l.config.partitions_ids ++ n ∷ [] } })

-- The if-chain over the keys.
unfoldable pub set_key : Bytes → Bytes → Loading → Option Loading
set_key key value l =
    if same_string key current_node_key
    then set_current_node l (stoi value)
    else if same_string key id_key
    then some (record l { id = value })
    else if same_string key host_key
    then some (record l { host = value })
    else if same_string key cluster_port_key
    then some (record l { cluster_port = value })
    else if same_string key client_port_key
    then some (record l { client_port = value })
    else if same_string key partition_id_key
    then push_partition l (stoll value)
    else none

abbrev pub push_server : Loading → Option ℤ → Option Loading
push_server l none = none
push_server l (some n) = some (record {
  config = record l.config {
    server_nodes =
        l.config.server_nodes
        ++ record {
          node_id = n;
          host_ip = l.host;
          server_port = l.cluster_port;
          client_port = l.client_port;
        }
          ∷ [];
  };
  id = [];
  host = [];
  cluster_port = [];
  client_port = [];
})

-- A node is complete once its four values are there.
unfoldable pub push_if_complete : Loading → Option Loading
push_if_complete l =
    if not (is_empty l.id)
      && (not (is_empty l.host) && (not (is_empty l.cluster_port) && not (is_empty l.client_port)))
    then push_server l (stoi l.id)
    else some l

abbrev then_push : Option Loading → Option Loading
then_push none = none
then_push (some l) = push_if_complete l

abbrev pub load_key_value : KeyValue → Loading → Option Loading
load_key_value throws l = none
load_key_value no_key_value l = some l
load_key_value (key_value key value) l = then_push (set_key key value l)

-- One round of the loop. Empty lines and those that begin with '#' are skipped.
unfoldable pub load_line : Bytes → Loading → Option Loading
load_line [] l = some l
load_line (c ∷ s) l = if c == 35 then some l else load_key_value (get_key_value (c ∷ s)) l

unfoldable pub load_lines : List Bytes → Option Loading → Option Loading
load_lines [] l = l
load_lines (line ∷ rest) none = none
load_lines (line ∷ rest) (some l) = load_lines rest (load_line line l)

abbrev loaded : Option Loading → Option ServerConfiguration
loaded none = none
loaded (some l) = some l.config

unfoldable pub load_config : Bytes → Option ServerConfiguration
load_config in_stream = loaded (load_lines (lines in_stream) (some start_loading))
