-- ===== src/Slots.antt =====
-- The slot table of hiredis::happ::cluster (src/detail/happ_cluster.cpp): get_slot_master,
-- remove_connection_key, and the table that on_reply_update_slot reads from a reply to CLUSTER SLOTS.
pub mod Endpoint
pub mod Filling
pub mod Masters
use hiredis_happ.Common.{
  ℕ, zero, suc, ◌+◌, ◌-◌, ◌%◌, ltb, leb, ◌==◌, ◌||◌, bit_and, Bool, true, false, if◌then◌else◌, [],
  ◌∷◌, ◌++◌, List, Bytes, Option, none, some, ℤ, pos, negsuc,
}
use hiredis_happ.Name.{Key, set_key}
use hiredis_happ.HashSlot.{slot_number, hash_slot}
use hiredis_happ.Memory.{
  Reply, reply, ReplyType, reply_string, reply_array, reply_integer, reply_nil, Replies, done,
  null_elem, elem, update,
}

-- slot_status::type
pub data SlotStatus : Type 0 where
  invalid updating usable : SlotStatus

-- `slots_`: the hosts of each slot, the master first.
abbrev pub Table : Type 0
Table = ℕ → List Key

-- The context's connection type, and its host and source address, where null is `none`.
pub record Peer : Type 0 where
  pub is_tcp : Bool
  pub host : Option Bytes
  pub source_addr : Option Bytes

-- `reply->element`, where a null pointer is `none`.
unfoldable pub elements : Replies → List (Option Reply)
elements done = []
elements (null_elem rest) = none ∷ elements rest
elements (elem r rest) = some r ∷ elements rest

-- A C string that is there, is not empty and does not start with a question mark.
unfoldable pub is_named : Option Bytes → Bool
is_named none = false
is_named (some []) = false
is_named (some (c ∷ s)) = if c == 0 || c == b'?' then false else true

unfoldable pub text_of : Option Bytes → Bytes
text_of none = []
text_of (some s) = s

-- The switch over the endpoint's type: the address as it stands, which may be empty, or false.
unfoldable pub endpoint_text : Reply → Option Bytes
endpoint_text (reply reply_string i none e) = some []
endpoint_text (reply reply_string i (some []) e) = some []
endpoint_text (reply reply_string i (some (c ∷ s)) e) =
    if c == b'?' then none else if c == 0 then some [] else some (c ∷ s)
endpoint_text (reply reply_nil i s e) = some []
endpoint_text (reply t i s e) = none

-- An empty address stands for the peer's own.
unfoldable pub peer_text : Option Peer → Bytes
peer_text none = []
peer_text (some p) =
    if p.is_tcp
    then if is_named p.host
      then text_of p.host
      else if is_named p.source_addr
      then text_of p.source_addr
      else []
    else []

unfoldable pub or_peer : Option Peer → Bytes → Bytes
or_peer peer [] = peer_text peer
or_peer peer (c ∷ s) = c ∷ s

-- The port, of a reply that is an integer of 16 bits.
unfoldable pub port_of : ℤ → Option ℕ
port_of (pos n) = if ltb 65535 n then none else some n
port_of (negsuc n) = none

unfoldable pub with_port : Bytes → ℤ → Option (Bytes × ℕ)
with_port [] i = none
with_port (c ∷ s) i = elim (port_of i) [ none ↦ none | some port ↦ some (c ∷ s, port) ]

-- pick_cluster_endpoint_from_reply; `none` is the result false.
unfoldable pub pick_endpoint : Option Peer → Option Reply → Option Reply → Option (Bytes × ℕ)
pick_endpoint peer (some endpoint) (some (reply reply_integer i s e)) =
    elim (endpoint_text endpoint) [ none ↦ none | some text ↦ with_port (or_peer peer text) i ]
pick_endpoint peer endpoint port = none

-- The hosts of one range, from its addresses; those that cannot be read are left out.
unfoldable pub host_of : Option Peer → Option Reply → Option Key
host_of peer (some (reply reply_array i s (elem a (elem b rest)))) =
    elim (pick_endpoint peer (some a) (some b)) [ none ↦ none | some (ip, port) ↦ set_key ip port ]
host_of peer addr = none

unfoldable pub hosts_of : Option Peer → List (Option Reply) → List Key
hosts_of peer [] = []
hosts_of peer (a ∷ rest) =
    let others = hosts_of peer rest in elim (host_of peer a) [ none ↦ others | some k ↦ k ∷ others ]

-- What one element of the reply says: the first and the last slot, and the hosts. An element that is no
-- array, or has no first and last slot and an address at least, says nothing.
pub record Node : Type 0 where
  pub si : ℤ
  pub ei : ℤ
  pub hosts : List Key

unfoldable pub node_of : Option Peer → Option Reply → Option Node
node_of peer (some (reply reply_array i s e)) = elim (elements e) [
  | some (reply reply_integer si t d) ∷ some (reply reply_integer ei t' d') ∷ a ∷ rest ↦
      some (record { si = si; ei = ei; hosts = hosts_of peer (a ∷ rest) })
  | _ ↦ none
]
node_of peer slot_node = none

-- A range of slots with its hosts: `first` and `last` are clamped to the table.
pub record Range : Type 0 where
  pub first : ℕ
  pub last : ℕ
  pub hosts : List Key

unfoldable pub clamp_first : ℤ → ℕ
clamp_first (pos n) = n
clamp_first (negsuc n) = 0

unfoldable pub clamp_range : ℤ → ℤ → List Key → Option Range
clamp_range si (negsuc n) hosts = none
clamp_range si (pos n) hosts =
    let last = if leb slot_number n then slot_number - 1 else n in
    if ltb last (clamp_first si)
    then none
    else some (record { first = clamp_first si; last = last; hosts = hosts })

unfoldable pub range_of : Option Node → Option Range
range_of none = none
range_of (some n) = clamp_range n.si n.ei n.hosts

-- `for (; si <= ei; ++si) slots_[si].hosts = hosts`, for `count` slots.
unfoldable pub fill : ℕ → ℕ → List Key → Table → Table
fill zero si hosts table = table
fill (suc count) si hosts table = fill count (suc si) hosts (update table si hosts)

unfoldable pub fill_range : Option Range → Table → Table
fill_range none table = table
fill_range (some r) table = fill (suc r.last - r.first) r.first r.hosts table

unfoldable pub fill_nodes : Option Peer → List (Option Reply) → Table → Table
fill_nodes peer [] table = table
fill_nodes peer (node ∷ rest) table =
    fill_nodes peer rest (fill_range (range_of (node_of peer node)) table)

-- The new table of on_reply_update_slot: none where the reply is no array of arrays.
unfoldable pub read_slots : Option Peer → Option Reply → Option Table
read_slots peer (some (reply reply_array i s (elem (reply reply_array j t d) rest))) =
    some (fill_nodes peer (elements (elem (reply reply_array j t d) rest)) (λ slot. []))
read_slots peer r = none

-- The table and its status after the reply: a reply that cannot be read leaves the table as it is.
unfoldable pub update_slots : Option Peer → Option Reply → Table → SlotStatus × Table
update_slots peer r table = elim (read_slots peer r) [
  | none ↦ (invalid, table)
  | some fresh ↦ (usable, fresh)
]

-- `slots_[slot].hosts`; `none` is a read behind the table.
unfoldable pub read_hosts : Table → ℕ → Option (List Key)
read_hosts table slot = if ltb slot slot_number then some (table slot) else none

-- The hosts that the first test of get_slot_master reads; none where the index is no slot.
unfoldable pub own_hosts : ℤ → Table → Option (List Key)
own_hosts (negsuc n) table = some []
own_hosts (pos n) table = if ltb n slot_number then read_hosts table n else some []

unfoldable pub first_host : List Key → Key → Key
first_host [] init = init
first_host (k ∷ rest) init = k

unfoldable pub host_or : Option (List Key) → Key → Option Key
host_or none init = none
host_or (some hosts) init = some (first_host hosts init)

-- `random` is the number that detail::random gives.
unfoldable pub random_master : ℕ → Key → Table → Option Key
random_master random init table =
    host_or (read_hosts table (bit_and random 0xffff % slot_number)) init

unfoldable pub master_of : Option (List Key) → ℕ → Key → Table → Option Key
master_of none random init table = none
master_of (some []) random init table = random_master random init table
master_of (some (k ∷ rest)) random init table = some k

-- get_slot_master(index); `none` is a read behind the table.
unfoldable pub get_slot_master : ℤ → ℕ → Key → Table → Option Key
get_slot_master index random init table = master_of (own_hosts index table) random init table

-- get_slot_by_key: the hosts of the key's slot, or null inside; `none` is a read behind the table.
unfoldable pub get_slot_at : ℤ → Table → Option (Option (List Key))
get_slot_at (negsuc n) table = some none
get_slot_at (pos n) table = elim (read_hosts table n) [
  | none ↦ none
  | some hosts ↦ some (some hosts)
]

unfoldable pub get_slot_by_key : Bytes → Table → Option (Option (List Key))
get_slot_by_key key table = get_slot_at (hash_slot key) table

-- `swap(hosts[0], hosts.back()); hosts.pop_back()`: the last host takes the master's place.
unfoldable pub rotate_last : Key → List Key → Key × List Key
rotate_last k [] = (k, [])
rotate_last k (next ∷ rest) = let r = rotate_last next rest in (r.0, k ∷ r.1)

unfoldable pub drop_master : List Key → List Key
drop_master [] = []
drop_master (k ∷ []) = []
drop_master (k ∷ next ∷ rest) = let r = rotate_last next rest in r.0 ∷ r.1

unfoldable pub bytes_eq : Bytes → Bytes → Bool
bytes_eq [] [] = true
bytes_eq [] (y ∷ ys) = false
bytes_eq (x ∷ xs) [] = false
bytes_eq (x ∷ xs) (y ∷ ys) = let same = bytes_eq xs ys in if x == y then same else false

unfoldable pub remove_from : Bytes → List Key → List Key
remove_from name [] = []
remove_from name (k ∷ rest) = if bytes_eq k.name name then drop_master (k ∷ rest) else k ∷ rest

-- The loop of remove_connection_key over the first `count` slots.
unfoldable pub remove_loop : ℕ → Bytes → Table → Table
remove_loop zero name table = table
remove_loop (suc i) name table =
    let before = remove_loop i name table in update before i (remove_from name (before i))

unfoldable pub remove_connection_key : Bytes → Table → SlotStatus × Table
remove_connection_key name table = (invalid, remove_loop slot_number name table)
