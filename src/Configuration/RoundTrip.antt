-- ===== src/Configuration/RoundTrip.antt =====
-- The reader of src/flowmq/configuration.cpp on a configuration that is written out.
use flowmq.Base.{
  ℤ, pos, negsuc, ℕ, suc, ◌^◌, Bytes, List, [], ◌∷◌, ◌++◌, some, true, false, ◌==◌, ◌≡◌, refl, sym,
  ◌∙◌, ap, arith, append-nil, append_assoc, All,
}
use flowmq.Text.Decimal.{show_ℤ, show_ℕ, is_digit, is_empty, IsNumeral, show_ℕ-IsNumeral}
use flowmq.Text.Atoi.{Fits, to_number, to_number-show_ℤ}
use flowmq.Text.Strip.{strip, IsWord, LastInk, strip-padded}
use flowmq.Text.Lines.{lines, newline, IsLine, lines-append}
use flowmq.Configuration.{
  ServerPoint, ServerConfiguration, Loading, start_loading, no_config, current_node_key, id_key,
  host_key, cluster_port_key, client_port_key, partition_id_key, split_key, get_key_value,
  key_value, set_key, push_if_complete, then_push, load_line, load_lines, load_config, loaded,
  equals_sign,
}

-- "key = value" on a line.
abbrev line_of : Bytes → Bytes → Bytes
line_of key value = key ++ 32 ∷ 61 ∷ 32 ∷ value

abbrev pub print_line : Bytes → Bytes → Bytes
print_line key value = line_of key value ++ newline ∷ []

abbrev pub print_server : ServerPoint → Bytes
print_server p =
    print_line id_key (show_ℤ p.node_id)
    ++ (print_line host_key p.host_ip
        ++ (print_line cluster_port_key p.server_port ++ print_line client_port_key p.client_port))

abbrev pub print_servers : List ServerPoint → Bytes
print_servers [] = []
print_servers (p ∷ ps) = print_server p ++ print_servers ps

abbrev pub print_partitions : List ℤ → Bytes
print_partitions [] = []
print_partitions (i ∷ is) = print_line partition_id_key (show_ℤ i) ++ print_partitions is

abbrev pub print_config : ℤ → List ServerPoint → List ℤ → Bytes
print_config n servers partitions =
    print_line current_node_key (show_ℤ n) ++ (print_servers servers ++ print_partitions partitions)

-- A value that stands on one line with no blank at its ends.
abbrev pub IsValue : Bytes → Type 0
IsValue value = IsWord value × IsLine value

abbrev IsKey : Bytes → Type 0
IsKey [] = ⊥
IsKey (c ∷ key) =
    ((c == 35) ≡ false) × IsValue (c ∷ key) × All (λ d. (d == equals_sign) ≡ false) (c ∷ key)

split_key-line :
    (key value : Bytes)
    → All (λ d. (d == equals_sign) ≡ false) key
    → split_key (line_of key value) ≡ some (key ++ 32 ∷ [], 32 ∷ value)
unfolding split_key
split_key-line [] value h = refl
split_key-line (c ∷ key) value (h, hs) = rw (h, split_key-line key value hs) refl

filled : (value : Bytes) → IsWord value → is_empty value ≡ false
filled [] h = absurd h
filled (c ∷ value) h = refl

get_key_value-line :
    (key value : Bytes)
    → IsWord key
    → IsWord value
    → All (λ d. (d == equals_sign) ≡ false) key
    → get_key_value (line_of key value) ≡ key_value key value
unfolding get_key_value
get_key_value-line key value k v h =
    rw (split_key-line key value h, strip-padded 0 key 1 k)
      (rw (ap (λ (s : Bytes). strip (32 ∷ s)) (sym (append-nil value)) ∙ strip-padded 1 value 0 v)
        (rw (filled key k, filled value v) refl))

load_line-line :
    (key value : Bytes) (l : Loading)
    → IsKey key
    → IsWord value
    → load_line (line_of key value) l ≡ then_push (set_key key value l)
unfolding load_line
load_line-line [] value l k v = absurd k
load_line-line (c ∷ key) value l (h, (word, is_line), no_equals) v =
    rw (h, get_key_value-line (c ∷ key) value word v no_equals) refl

line_of-IsLine : (key value : Bytes) → IsLine key → IsLine value → IsLine (line_of key value)
line_of-IsLine [] value k v = (refl, (refl, (refl, v)))
line_of-IsLine (c ∷ key) value (k, ks) v = (k, line_of-IsLine key value ks v)

key-IsLine : (key : Bytes) → IsKey key → IsLine key
key-IsLine [] k = absurd k
key-IsLine (c ∷ key) (h, (word, is_line), no_equals) = is_line

-- What a text does to what is loaded, whatever follows it.
abbrev Loads : Bytes → Loading → Loading → Type 0
Loads text l l' =
    (rest : Bytes) → load_lines (lines (text ++ rest)) (some l) ≡ load_lines (lines rest) (some l')

Loads-append : (s t : Bytes) (l m n : Loading) → Loads s l m → Loads t m n → Loads (s ++ t) l n
Loads-append s t l m n first second rest =
    ap (λ u. load_lines (lines u) (some l)) (append_assoc s t rest)
    ∙ first (t ++ rest)
    ∙ second rest

print_line-Loads :
    (key value : Bytes) (l l' : Loading)
    → IsKey key
    → IsValue value
    → then_push (set_key key value l) ≡ some l'
    → Loads (print_line key value) l l'
unfolding load_lines
print_line-Loads key value l l' k (word, is_line) e rest =
    ap (λ u. load_lines (lines u) (some l)) (append_assoc (line_of key value) (newline ∷ []) rest)
    ∙ ap (λ ls. load_lines ls (some l))
        (lines-append (line_of key value) rest
          (line_of-IsLine key value (key-IsLine key k) is_line))
    ∙ ap (load_lines (lines rest)) (load_line-line key value l k word ∙ e)

digits_ink : (c : ℕ) (s : Bytes) → is_digit c ≡ true → All (λ d. is_digit d ≡ true) s → LastInk c s
digits_ink c [] h hs = ground arith
digits_ink c (d ∷ s) h (k, hs) = digits_ink d s k hs

digits-IsLine : (s : Bytes) → All (λ d. is_digit d ≡ true) s → IsLine s
digits-IsLine [] h = tt
digits-IsLine (c ∷ s) (h, hs) = (ground arith, digits-IsLine s hs)

numeral-IsValue : (s : Bytes) → IsNumeral s → IsValue s × IsValue (45 ∷ s)
numeral-IsValue [] h = absurd h
numeral-IsValue (c ∷ s) (h, hs) =
    let last = digits_ink c s h hs in
    let is_line = digits-IsLine (c ∷ s) (h, hs) in
    (((ground arith, last), is_line), ((refl, last), (refl, is_line)))

show_ℤ-IsValue : (i : ℤ) → IsValue (show_ℤ i)
unfolding show_ℤ
show_ℤ-IsValue (pos n) = (numeral-IsValue (show_ℕ n) (show_ℕ-IsNumeral n)).0
show_ℤ-IsValue (negsuc n) = (numeral-IsValue (show_ℕ (suc n)) (show_ℕ-IsNumeral (suc n))).1

reads_back : (limit : ℕ) (i : ℤ) → Fits limit i → to_number limit (show_ℤ i) ≡ some i
reads_back limit i h =
    ap (to_number limit) (sym (append-nil (show_ℤ i))) ∙ to_number-show_ℤ limit i [] h tt

-- Between two nodes.
abbrev idle : ServerConfiguration → Loading
idle c = record { config = c; id = []; host = []; cluster_port = []; client_port = [] }

current_node-Loads :
    (n : ℤ)
    → Fits (2 ^ 31) n
    → Loads
        (print_line current_node_key (show_ℤ n))
        start_loading
        (idle (record no_config { current_node = some n }))
unfolding set_key push_if_complete
current_node-Loads n h =
    print_line-Loads current_node_key (show_ℤ n) start_loading
      (idle (record no_config { current_node = some n })) (ground arith) (show_ℤ-IsValue n)
      (rw (reads_back (2 ^ 31) n h) refl)

partition-Loads :
    (i : ℤ) (c : ServerConfiguration)
    → Fits (2 ^ 63) i
    → Loads
        (print_line partition_id_key (show_ℤ i))
        (idle c)
        (idle (record c { partitions_ids = c.partitions_ids ++ i ∷ [] }))
unfolding set_key push_if_complete
partition-Loads i c h =
    print_line-Loads partition_id_key (show_ℤ i) (idle c)
      (idle (record c { partitions_ids = c.partitions_ids ++ i ∷ [] })) (ground arith)
      (show_ℤ-IsValue i) (rw (reads_back (2 ^ 63) i h) refl)

-- What the four values of a node must be.
pub record IsServer (p : ServerPoint) : Type 0 where
  pub is_id : Fits (2 ^ 31) p.node_id
  pub is_host : IsValue p.host_ip
  pub is_server_port : IsValue p.server_port
  pub is_client_port : IsValue p.client_port

server-Loads :
    (p : ServerPoint) (c : ServerConfiguration)
    → IsServer p
    → Loads (print_server p) (idle c) (idle (record c { server_nodes = c.server_nodes ++ p ∷ [] }))
unfolding set_key push_if_complete
server-Loads p c h =
    let with_id : Loading = record (idle c) { id = show_ℤ p.node_id } in
    let with_host : Loading = record with_id { host = p.host_ip } in
    let with_port : Loading = record with_host { cluster_port = p.server_port } in
    let whole = idle (record c { server_nodes = c.server_nodes ++ p ∷ [] }) in
    let id_is_value = show_ℤ-IsValue p.node_id in
    let id_filled = filled (show_ℤ p.node_id) id_is_value.0 in
    let host_filled = filled p.host_ip h.is_host.0 in
    let port_filled = filled p.server_port h.is_server_port.0 in
    let client_filled = filled p.client_port h.is_client_port.0 in
    let first =
      print_line-Loads id_key (show_ℤ p.node_id) (idle c) with_id (ground arith) id_is_value
        (rw id_filled refl) in
    let second =
      print_line-Loads host_key p.host_ip with_id with_host (ground arith) h.is_host
        (rw (id_filled, host_filled) refl) in
    let third =
      print_line-Loads cluster_port_key p.server_port with_host with_port (ground arith)
        h.is_server_port (rw (id_filled, host_filled, port_filled) refl) in
    let fourth =
      print_line-Loads client_port_key p.client_port with_port whole (ground arith) h.is_client_port
        (rw
          (
            id_filled,
            host_filled,
            port_filled,
            client_filled,
            reads_back (2 ^ 31) p.node_id h.is_id,
          )
          refl) in
    Loads-append (print_line id_key (show_ℤ p.node_id)) _ (idle c) with_id whole first (
      Loads-append (print_line host_key p.host_ip) _ with_id with_host whole second (
        Loads-append (print_line cluster_port_key p.server_port) _ with_host with_port whole third
          fourth))

servers-Loads :
    (ps : List ServerPoint) (c : ServerConfiguration)
    → All IsServer ps
    → Loads (print_servers ps) (idle c) (idle (record c { server_nodes = c.server_nodes ++ ps }))
servers-Loads [] c h rest = rw (append-nil c.server_nodes) refl
servers-Loads (p ∷ ps) c (h, hs) rest =
    let c' = record c { server_nodes = c.server_nodes ++ p ∷ [] } in
    Loads-append (print_server p) (print_servers ps) (idle c) (idle c') _ (server-Loads p c h)
      (servers-Loads ps c' hs) rest
    ∙ rw (append_assoc c.server_nodes (p ∷ []) ps) refl

partitions-Loads :
    (is : List ℤ) (c : ServerConfiguration)
    → All (Fits (2 ^ 63)) is
    → Loads
        (print_partitions is)
        (idle c)
        (idle (record c { partitions_ids = c.partitions_ids ++ is }))
partitions-Loads [] c h rest = rw (append-nil c.partitions_ids) refl
partitions-Loads (i ∷ is) c (h, hs) rest =
    let c' = record c { partitions_ids = c.partitions_ids ++ i ∷ [] } in
    Loads-append (print_line partition_id_key (show_ℤ i)) (print_partitions is) (idle c) (idle c') _
      (partition-Loads i c h) (partitions-Loads is c' hs) rest
    ∙ rw (append_assoc c.partitions_ids (i ∷ []) is) refl

-- A configuration written out, one "key = value" on a line, is loaded as it is, when the numbers are
-- of their types and no host and no port is empty, begins or ends with a blank, or has a newline.
pub load_config-print :
    (n : ℤ) (servers : List ServerPoint) (partitions : List ℤ)
    → Fits (2 ^ 31) n
    → All IsServer servers
    → All (Fits (2 ^ 63)) partitions
    → load_config (print_config n servers partitions)
      ≡ some (record { current_node = some n; server_nodes = servers; partitions_ids = partitions })
unfolding load_config lines load_lines
load_config-print n servers partitions h hs ks =
    let c : ServerConfiguration = record no_config { current_node = some n } in
    let c' : ServerConfiguration = record c { server_nodes = servers } in
    let c'' : ServerConfiguration = record c' { partitions_ids = partitions } in
    let texts = print_servers servers ++ print_partitions partitions in
    let loads =
      Loads-append (print_line current_node_key (show_ℤ n)) texts start_loading (idle c) (idle c'')
        (current_node-Loads n h)
        (Loads-append (print_servers servers) (print_partitions partitions) (idle c) (idle c')
          (idle c'') (servers-Loads servers c hs) (partitions-Loads partitions c' ks)) in
    ap (λ t. loaded (load_lines (lines t) (some start_loading)))
      (sym (append-nil (print_config n servers partitions)))
    ∙ ap loaded (loads [])
