-- ===== src/Configuration/Runs.antt =====
-- The reader of src/flowmq/configuration.cpp on concrete files, and its theorems there.
use flowmq.Base.{◌++◌, pos, negsuc, ℕ, Bytes, [], ◌∷◌, none, some, ◌≡◌, refl, arith, ◌⊎◌, replicate}
use flowmq.Text.Decimal.{skip_spaces, span_digits, value_from}
use flowmq.Text.Atoi.{to_number}
use flowmq.Text.Strip.{
  strip-cases, IsWord, padded, blank, strip, find_first_not_of, find_last_not_of,
}
use flowmq.Text.Lines.{lines}
use flowmq.Configuration.Refusal.{get_key_value-Sides, Sides, NoSign}
use flowmq.Configuration.{
  no_key_value, ServerConfiguration, ServerPoint, load_config, load_lines, load_line, get_key_value,
  split_key, set_key, push_if_complete,
}
use flowmq.Configuration.RoundTrip.{IsServer, print_config, load_config-print}
use flowmq.Configuration.Loaded.{IsConfig, load_config-IsConfig, load_config_again}

-- "id = 2", "host=ab", "cluster_port=1", "client_port= 7 ", an empty line, a comment, "nothing",
-- "current_node=2" and "partition_id=-4" without a newline.
abbrev file : Bytes
file =
    105 ∷ 100 ∷ 32 ∷ 61 ∷ 32 ∷ 50 ∷ 10 ∷ 104 ∷ 111 ∷ 115 ∷ 116 ∷ 61 ∷ 97 ∷ 98 ∷ 10 ∷ 99 ∷ 108 ∷ 117
    ∷ 115 ∷ 116 ∷ 101 ∷ 114 ∷ 95 ∷ 112 ∷ 111 ∷ 114 ∷ 116 ∷ 61 ∷ 49 ∷ 10 ∷ 99 ∷ 108 ∷ 105 ∷ 101 ∷ 110
    ∷ 116 ∷ 95 ∷ 112 ∷ 111 ∷ 114 ∷ 116 ∷ 61 ∷ 32 ∷ 55 ∷ 32 ∷ 10 ∷ 10 ∷ 35 ∷ 61 ∷ 10 ∷ 110 ∷ 111
    ∷ 116 ∷ 104 ∷ 105 ∷ 110 ∷ 103 ∷ 10 ∷ 99 ∷ 117 ∷ 114 ∷ 114 ∷ 101 ∷ 110 ∷ 116 ∷ 95 ∷ 110 ∷ 111
    ∷ 100 ∷ 101 ∷ 61 ∷ 50 ∷ 10 ∷ 112 ∷ 97 ∷ 114 ∷ 116 ∷ 105 ∷ 116 ∷ 105 ∷ 111 ∷ 110 ∷ 95 ∷ 105 ∷ 100
    ∷ 61 ∷ 45 ∷ 52 ∷ []

abbrev node : ServerPoint
node = record {
  node_id = pos 2;
  host_ip = 97 ∷ 98 ∷ [];
  server_port = 49 ∷ [];
  client_port = 55 ∷ [];
}

abbrev file_config : ServerConfiguration
file_config = record {
  current_node = some (pos 2);
  server_nodes = node ∷ [];
  partitions_ids = negsuc 3 ∷ [];
}

file_loads : load_config file ≡ some file_config
unfolding load_config load_lines load_line lines get_key_value split_key strip find_first_not_of
    find_last_not_of set_key push_if_complete to_number skip_spaces span_digits value_from
file_loads = refl

-- "id =": an exception, not a line without a value.
empty_value_throws : load_config (105 ∷ 100 ∷ 32 ∷ 61 ∷ []) ≡ none
unfolding load_config load_lines load_line lines get_key_value split_key strip find_first_not_of
    find_last_not_of
empty_value_throws = refl

load_config-IsConfig_example : IsConfig file_config
load_config-IsConfig_example = load_config-IsConfig file file_config file_loads

load_config_again_example :
    load_config (print_config (pos 2) (node ∷ []) (negsuc 3 ∷ [])) ≡ some file_config
load_config_again_example = load_config_again file file_config (pos 2) file_loads refl

node-IsServer : IsServer node
node-IsServer = record {
  is_id = omega arith;
  is_host = ((refl, refl), (refl, (refl, tt)));
  is_server_port = ((refl, refl), (refl, tt));
  is_client_port = ((refl, refl), (refl, tt));
}

load_config-print_example :
    load_config (print_config (negsuc 4) (node ∷ node ∷ []) (pos 1 ∷ []))
    ≡ some (record {
      current_node = some (negsuc 4);
      server_nodes = node ∷ node ∷ [];
      partitions_ids = pos 1 ∷ [];
    })
load_config-print_example =
    load_config-print (negsuc 4) (node ∷ node ∷ []) (pos 1 ∷ []) (omega arith)
      (node-IsServer, (node-IsServer, tt)) (omega arith, tt)

-- "a" between blanks, and "=" alone.
strip-cases_example :
    ((n : ℕ) × (32 ∷ 97 ∷ [] ≡ replicate n blank) × (strip (32 ∷ 97 ∷ []) ≡ none))
    ⊎ ((a : ℕ) × (w : Bytes) × (b : ℕ) × IsWord w
        × (32 ∷ 97 ∷ [] ≡ padded a w b)
        × (strip (32 ∷ 97 ∷ []) ≡ some w))
strip-cases_example = strip-cases (32 ∷ 97 ∷ [])

-- "a==b"
get_key_value-Sides_example :
    (NoSign (97 ∷ 61 ∷ 61 ∷ 98 ∷ []) × (get_key_value (97 ∷ 61 ∷ 61 ∷ 98 ∷ []) ≡ no_key_value))
    ⊎ ((before : Bytes) × (after : Bytes) × (97 ∷ 61 ∷ 61 ∷ 98 ∷ [] ≡ before ++ 61 ∷ after)
        × NoSign before
        × Sides (get_key_value (97 ∷ 61 ∷ 61 ∷ 98 ∷ [])) before after)
get_key_value-Sides_example = get_key_value-Sides (97 ∷ 61 ∷ 61 ∷ 98 ∷ [])
