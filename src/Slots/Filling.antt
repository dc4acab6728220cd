-- ===== src/Slots/Filling.antt =====
-- The table after a reply: of the ranges that hold a slot, the last one gives its hosts.
use hiredis_happ.Common.{
  ℕ, zero, suc, ◌+◌, ◌-◌, ◌≡◌, refl, ap, ◌∙◌, arith, ltb, leb, ◌&&◌, Bool, true, false,
  if◌then◌else◌, [], ◌∷◌, List, Option, none, some, ℤ, pos, negsuc,
}
use hiredis_happ.Name.{Key}
use hiredis_happ.HashSlot.{slot_number}
use hiredis_happ.Memory.{Reply, update}
use hiredis_happ.Slots.{
  Table, Peer, Node, Range, node_of, clamp_first, clamp_range, range_of, fill, fill_range,
  fill_nodes,
}

-- The slot stands in the range.
abbrev pub covers : Range → ℕ → Bool
covers r slot = leb r.first slot && leb slot r.last

-- The hosts of a range that holds the slot.
abbrev pub own_hosts : Option Range → ℕ → Option (List Key)
own_hosts none slot = none
own_hosts (some r) slot = if covers r slot then some r.hosts else none

abbrev pub hosts_or : Option (List Key) → List Key → List Key
hosts_or none old = old
hosts_or (some hosts) old = hosts

fill_lem :
    (count si : ℕ) (hosts : List Key) (table : Table) (slot : ℕ)
    → fill count si hosts table slot
      ≡ (if leb si slot && ltb slot (si + count) then hosts else table slot)
unfolding fill
fill_lem zero si hosts table slot = ground arith
fill_lem (suc count) si hosts table slot =
    fill_lem count (suc si) hosts (update table si hosts) slot ∙ ground arith

fill_range_lem :
    (r : Option Range) (table : Table) (slot : ℕ)
    → fill_range r table slot ≡ hosts_or (own_hosts r slot) (table slot)
unfolding fill_range
fill_range_lem none table slot = refl
fill_range_lem (some r) table slot =
    fill_lem (suc r.last - r.first) r.first r.hosts table slot ∙ ground arith

infix 50 ◌≤ℤ◌
-- `a ≤ b` on `long long` values.
abbrev pub ◌≤ℤ◌ : ℤ → ℤ → Bool
pos a ≤ℤ pos b = leb a b
pos a ≤ℤ negsuc b = false
negsuc a ≤ℤ pos b = true
negsuc a ≤ℤ negsuc b = leb b a

-- A range from `si` to `ei`, clamped to the table, holds the same slots of the table, and no others.
clamp_range_lem :
    (si ei : ℤ) (hosts : List Key) (slot : ℕ)
    → own_hosts (clamp_range si ei hosts) slot
      ≡ (if (si ≤ℤ pos slot && pos slot ≤ℤ ei) && ltb slot slot_number then some hosts else none)
unfolding clamp_range clamp_first
clamp_range_lem (pos a) (pos b) hosts slot = ground arith
clamp_range_lem (negsuc a) (pos b) hosts slot = ground arith
clamp_range_lem (pos a) (negsuc b) hosts slot = ground arith
clamp_range_lem (negsuc a) (negsuc b) hosts slot = ground arith

-- The hosts of an element that names the slot, which is one of the table.
abbrev pub node_hosts : Option Node → ℕ → Option (List Key)
node_hosts none slot = none
node_hosts (some n) slot =
    if (n.si ≤ℤ pos slot && pos slot ≤ℤ n.ei) && ltb slot slot_number then some n.hosts else none

own_hosts-range_of : (n : Option Node) (slot : ℕ) → own_hosts (range_of n) slot ≡ node_hosts n slot
unfolding range_of
own_hosts-range_of none slot = refl
own_hosts-range_of (some n) slot = clamp_range_lem n.si n.ei n.hosts slot

-- The hosts of the last of the elements that names the slot.
abbrev pub last_hosts : Option Peer → List (Option Reply) → ℕ → Option (List Key)
last_hosts peer [] slot = none
last_hosts peer (node ∷ rest) slot = elim (last_hosts peer rest slot) [
  | some hosts ↦ some hosts
  | none ↦ node_hosts (node_of peer node) slot
]

fill_node_lem :
    (n : Option Node) (table : Table) (slot : ℕ)
    → fill_range (range_of n) table slot ≡ hosts_or (node_hosts n slot) (table slot)
fill_node_lem n table slot =
    fill_range_lem (range_of n) table slot
    ∙ ap (λ o. hosts_or o (table slot)) (own_hosts-range_of n slot)

-- After the loops over the elements of a reply to CLUSTER SLOTS, a slot has the hosts of the last
-- element whose range, from its first to its last slot, holds it; where there is none, and for
-- every number that is no slot of the table, nothing is written.
pub fill_nodes_lem :
    (peer : Option Peer) (nodes : List (Option Reply)) (table : Table) (slot : ℕ)
    → fill_nodes peer nodes table slot ≡ hosts_or (last_hosts peer nodes slot) (table slot)
unfolding fill_nodes
fill_nodes_lem peer [] table slot = refl
fill_nodes_lem peer (node ∷ rest) table slot =
    fill_nodes_lem peer rest (fill_range (range_of (node_of peer node)) table) slot
    ∙ ground (arith, fill_node_lem (node_of peer node) table slot)
