-- ===== src/Configuration/Loaded.antt =====
-- What the reader of src/flowmq/configuration.cpp returns for a file of any content.
use flowmq.Base.{
  ℤ, ◌^◌, ◌-◌, Bytes, List, [], ◌∷◌, Option, none, some, true, false, ◌≡◌, refl, sym, ◌∙◌, ap,
  subst, arith, ◌⊎◌, inl, inr, ◌==◌, ◌&&◌, not, if◌then◌else◌, All, All-append, Bool,
}
use flowmq.Text.Decimal.{is_empty}
use flowmq.Text.Atoi.{stoi, stoll, Fits, to_number-Fits}
use flowmq.Text.Lines.{same_string, lines, IsLine, lines-IsLine}
use flowmq.Configuration.{
  KeyValue, throws, no_key_value, key_value, get_key_value, load_line, load_lines, load_config,
  loaded, Loading, set_key, then_push, current_node_key, id_key, host_key, cluster_port_key,
  client_port_key, partition_id_key, ServerConfiguration, push_if_complete, push_server,
  start_loading, load_key_value, set_current_node, push_partition,
}
use flowmq.Configuration.RoundTrip.{IsValue, IsServer, print_config, load_config-print}
use flowmq.Configuration.Refusal.{
  padded-IsLine, after_sign-IsLine, get_key_value-Sides, Sides, Surrounds,
}

-- What is empty or can be written in a file.
abbrev Waiting : Bytes → Type 0
Waiting s = (s ≡ []) ⊎ IsValue s

-- A configuration that can be written out, but for a current node that was not set.
pub record IsConfig (c : ServerConfiguration) : Type 0 where
  pub nodes : All IsServer c.server_nodes
  pub partitions : All (Fits (2 ^ 63)) c.partitions_ids
  pub current : (n : ℤ) → c.current_node ≡ some n → Fits (2 ^ 31) n

record IsLoading (l : Loading) : Type 0 where
  config : IsConfig l.config
  id : Waiting l.id
  host : Waiting l.host
  cluster_port : Waiting l.cluster_port
  client_port : Waiting l.client_port

-- An exception, or a loading that keeps the invariant.
abbrev Kept : Option Loading → Type 0
Kept none = Unit {0}
Kept (some l) = IsLoading l

if-Kept : (b : Bool) (x y : Option Loading) → Kept x → Kept y → Kept (if b then x else y)
if-Kept true x y h k = h
if-Kept false x y h k = k

same_some : (n m : ℤ) → some n ≡ some m → n ≡ m
same_some n m e = cc

when_Kept :
    (b : Bool) (x y : Option Loading) → (b ≡ true → Kept x) → Kept y → Kept (if b then x else y)
when_Kept true x y h k = h refl
when_Kept false x y h k = k

set_current_node-Kept :
    (l : Loading) (o : Option ℤ)
    → IsLoading l
    → ((n : ℤ) → o ≡ some n → Fits (2 ^ 31) n)
    → Kept (set_current_node l o)
set_current_node-Kept l none h f = tt
set_current_node-Kept l (some n) h f = record {
  config = record {
    nodes = h.config.nodes;
    partitions = h.config.partitions;
    current = λ m e. subst (Fits (2 ^ 31)) (same_some n m e) (f n refl);
  };
  id = h.id;
  host = h.host;
  cluster_port = h.cluster_port;
  client_port = h.client_port;
}

push_partition-Kept :
    (l : Loading) (o : Option ℤ)
    → IsLoading l
    → ((n : ℤ) → o ≡ some n → Fits (2 ^ 63) n)
    → Kept (push_partition l o)
push_partition-Kept l none h f = tt
push_partition-Kept l (some n) h f = record {
  config = record {
    nodes = h.config.nodes;
    partitions =
        All-append (Fits (2 ^ 63)) l.config.partitions_ids (n ∷ []) h.config.partitions
          (f n refl, tt);
    current = h.config.current;
  };
  id = h.id;
  host = h.host;
  cluster_port = h.cluster_port;
  client_port = h.client_port;
}

set_key-Kept :
    (key value : Bytes) (l : Loading) → IsValue value → IsLoading l → Kept (set_key key value l)
unfolding set_key
set_key-Kept key value l v h =
    if-Kept (same_string key current_node_key) _ _
      (set_current_node-Kept l (stoi value) h (λ n e. to_number-Fits (2 ^ 31 - 1) value n e))
      (if-Kept (same_string key id_key) _ _
        (record {
          config = h.config;
          id = inr v;
          host = h.host;
          cluster_port = h.cluster_port;
          client_port = h.client_port;
        })
        (if-Kept (same_string key host_key) _ _
          (record {
            config = h.config;
            id = h.id;
            host = inr v;
            cluster_port = h.cluster_port;
            client_port = h.client_port;
          })
          (if-Kept (same_string key cluster_port_key) _ _
            (record {
              config = h.config;
              id = h.id;
              host = h.host;
              cluster_port = inr v;
              client_port = h.client_port;
            })
            (if-Kept (same_string key client_port_key) _ _
              (record {
                config = h.config;
                id = h.id;
                host = h.host;
                cluster_port = h.cluster_port;
                client_port = inr v;
              })
              (if-Kept (same_string key partition_id_key) _ _
                (push_partition-Kept l (stoll value) h
                  (λ n e. to_number-Fits (2 ^ 63 - 1) value n e))
                tt)))))

filled-IsValue : (s : Bytes) → Waiting s → is_empty s ≡ false → IsValue s
filled-IsValue s (inl e) h = absurd (ground (arith, ap is_empty e))
filled-IsValue s (inr v) h = v

push_server-Kept :
    (l : Loading) (o : Option ℤ)
    → IsConfig l.config
    → IsValue l.host
    → IsValue l.cluster_port
    → IsValue l.client_port
    → ((n : ℤ) → o ≡ some n → Fits (2 ^ 31) n)
    → Kept (push_server l o)
push_server-Kept l none h host cluster client f = tt
push_server-Kept l (some n) h host cluster client f = record {
  config = record {
    partitions = h.partitions;
    current = h.current;
    nodes = All-append IsServer l.config.server_nodes _ h.nodes (
      record {
        is_id = f n refl;
        is_host = host;
        is_server_port = cluster;
        is_client_port = client;
      },
      tt,
    );
  };
  id = inl refl;
  host = inl refl;
  cluster_port = inl refl;
  client_port = inl refl;
}

push_if_complete-Kept : (l : Loading) → IsLoading l → Kept (push_if_complete l)
unfolding push_if_complete
push_if_complete-Kept l h =
    when_Kept
      (not (is_empty l.id)
        && (not (is_empty l.host)
            && (not (is_empty l.cluster_port) && not (is_empty l.client_port))))
      (push_server l (stoi l.id)) (some l)
      (λ e.
        push_server-Kept l (stoi l.id) h.config (filled-IsValue l.host h.host (ground (arith, e)))
          (filled-IsValue l.cluster_port h.cluster_port (ground (arith, e)))
          (filled-IsValue l.client_port h.client_port (ground (arith, e)))
          (λ n x. to_number-Fits (2 ^ 31 - 1) l.id n x))
      h

then_push-Kept : (o : Option Loading) → Kept o → Kept (then_push o)
then_push-Kept none h = tt
then_push-Kept (some l) h = push_if_complete-Kept l h

-- A key or a value that get_key_value gives comes from its line.
side-IsValue : (side value : Bytes) → IsLine side → Surrounds side value → IsValue value
side-IsValue side value h (word, a, b, e) = (word, padded-IsLine a value b (subst IsLine e h))

load_key_value-Kept :
    (o : KeyValue) (before after : Bytes) (l : Loading)
    → IsLine after
    → Sides o before after
    → IsLoading l
    → Kept (load_key_value o l)
load_key_value-Kept throws before after l s x h = tt
load_key_value-Kept no_key_value before after l s x h = absurd x
load_key_value-Kept (key_value key value) before after l s (x, y) h =
    then_push-Kept (set_key key value l) (set_key-Kept key value l (side-IsValue after value s y) h)

load_parsed-Kept :
    (line : Bytes) (l : Loading)
    → IsLine line
    → IsLoading l
    → Kept (load_key_value (get_key_value line) l)
load_parsed-Kept line l s h = elim (get_key_value-Sides line) [
  | inl (no_sign, e) ↦ rw e h
  | inr (before, after, e, _, x) ↦
      load_key_value-Kept (get_key_value line) before after l
        (after_sign-IsLine line before after e s) x h
]

load_line-Kept : (line : Bytes) (l : Loading) → IsLine line → IsLoading l → Kept (load_line line l)
unfolding load_line
load_line-Kept [] l s h = h
load_line-Kept (c ∷ line) l s h =
    if-Kept (c == 35) (some l) (load_key_value (get_key_value (c ∷ line)) l) h
      (load_parsed-Kept (c ∷ line) l s h)

load_lines-Kept :
    (ls : List Bytes) (o : Option Loading) → All IsLine ls → Kept o → Kept (load_lines ls o)
unfolding load_lines
load_lines-Kept [] o s h = h
load_lines-Kept (line ∷ ls) none s h = tt
load_lines-Kept (line ∷ ls) (some l) (s, ss) h =
    load_lines-Kept ls (load_line line l) ss (load_line-Kept line l s h)

start-IsLoading : IsLoading start_loading
start-IsLoading = record {
  config = record { nodes = tt; partitions = tt; current = λ n e. absurd cc };
  id = inl refl;
  host = inl refl;
  cluster_port = inl refl;
  client_port = inl refl;
}

loaded_from :
    (o : Option Loading) (c : ServerConfiguration) → Kept o → loaded o ≡ some c → IsConfig c
loaded_from none c h e = cc
loaded_from (some l) c h e = let same : l.config ≡ c = cc in subst IsConfig same h.config

-- Whatever the file holds, if a configuration is loaded from it, then its numbers are of their types,
-- and no host and no port of its nodes is empty, begins or ends with a blank, or has a newline.
pub load_config-IsConfig :
    (in_stream : Bytes) (c : ServerConfiguration) → load_config in_stream ≡ some c → IsConfig c
unfolding load_config
load_config-IsConfig in_stream c e =
    loaded_from (load_lines (lines in_stream) (some start_loading)) c
      (load_lines-Kept (lines in_stream) (some start_loading) (lines-IsLine in_stream)
        start-IsLoading)
      e

-- A configuration that was loaded from any file and has a current node is loaded again, the same,
-- from what it is written out as.
pub load_config_again :
    (in_stream : Bytes) (c : ServerConfiguration) (n : ℤ)
    → load_config in_stream ≡ some c
    → c.current_node ≡ some n
    → load_config (print_config n c.server_nodes c.partitions_ids) ≡ some c
load_config_again in_stream c n e k =
    let h = load_config-IsConfig in_stream c e in
    load_config-print n c.server_nodes c.partitions_ids (h.current n k) h.nodes h.partitions
    ∙ ap (λ o. some (record c { current_node = o })) (sym k)
