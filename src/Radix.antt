-- ===== src/Radix.antt =====
-- The radix tree of src/radix.hpp and src/radix.cpp: a tree of nodes, the edges of a node keyed by
-- a path hash, eight in the node and more in an overflow table with open addressing. The heap is
-- the list of the tree's nodes in the order of their allocation; a pointer to a node is its index,
-- the null pointer is `none`, and the root is node 0.
pub mod Edges
pub mod Table
mod Overflow
pub mod Add
pub mod Node
pub mod Migrate
mod Parent
pub mod EdgeAdd
pub mod Visit
pub mod Child
pub mod Tree
pub mod Walk
mod Ascend
mod Reach
mod Examples
use kvtier.Prelude.{
  ℕ, zero, suc, ◌+◌, ◌-◌, ◌*◌, ◌/◌, ◌^◌, bit_and, Bool, true, false, ◌||◌, ◌&&◌, not, Option, none,
  some, List, [], ◌∷◌, ◌++◌, ◌==◌, ltb, if◌then◌else◌, length, get_or, set, replicate,
}
use kvtier.Common.{u16, u32}
use kvtier.Hash.{hash_mix64}
use kvtier.Probing.{probe}

abbrev pub kv_inline_slots : ℕ
kv_inline_slots = 8

abbrev pub kv_edge_f_deleted : ℕ
kv_edge_f_deleted = 2

pub record RadixEdge : Type 0 where
  pub child_hash : ℕ
  pub child : Option ℕ
  pub flags : ℕ

pub record RadixOvf : Type 0 where
  pub cap_slots : ℕ
  pub used : ℕ
  pub n_del : ℕ
  pub slots : List RadixEdge

-- the leaf is the number that stands for its address
pub record RadixNode : Type 0 where
  pub hit_count : ℕ
  pub depth : ℕ
  pub n_edges : ℕ
  pub ovf_flag : ℕ
  pub slots : List RadixEdge
  pub ovf : Option RadixOvf
  pub parent : Option ℕ
  pub leaf : Option ℕ

pub record RadixTree : Type 0 where
  pub nodes : List RadixNode
  pub n_leaves : ℕ

abbrev pub no_edge : RadixEdge
no_edge = record { child_hash = 0; child = none; flags = 0 }

-- `calloc` gives a node of zeroes
unfoldable pub node_new : ℕ → RadixNode
node_new depth = record {
  hit_count = 0;
  depth = depth;
  n_edges = 0;
  ovf_flag = 0;
  slots = replicate kv_inline_slots no_edge;
  ovf = none;
  parent = none;
  leaf = none;
}

abbrev pub node_at : List RadixNode → ℕ → RadixNode
node_at nodes i = get_or nodes i (node_new 0)

unfoldable pub radix_init : RadixTree
radix_init = record { nodes = node_new 0 ∷ []; n_leaves = 0 }

abbrev pub edge_deleted : RadixEdge → Bool
edge_deleted e = not (bit_and e.flags kv_edge_f_deleted == 0)

abbrev pub edge_free : RadixEdge → Bool
edge_free e = e.child_hash == 0

abbrev pub edge_is : ℕ → RadixEdge → Bool
edge_is h e = e.child_hash == h && not (edge_deleted e)

-- a slot that holds an edge, as every loop over the slots asks
abbrev pub edge_live : RadixEdge → Bool
edge_live e = not (edge_free e) && not (edge_deleted e)

-- the first slot of an array that passes a test
unfoldable pub first_slot : (RadixEdge → Bool) → List RadixEdge → Option ℕ
first_slot test [] = none
first_slot test (e ∷ es) =
    let rest = first_slot test es in
    if test e then some 0 else elim rest [ none ↦ none | some i ↦ some (suc i) ]

unfoldable pub edge_find : List RadixEdge → ℕ → Option ℕ
edge_find slots h = elim (first_slot (edge_is h) slots) [
  | none ↦ none
  | some i ↦ (get_or slots i no_edge).child
]

-- `hash_mix64(h) & mask`: the conversion to `uint32_t` follows the mask, which is one
abbrev pub ovf_start : ℕ → ℕ → ℕ
ovf_start mask h = bit_and (hash_mix64 h) mask

-- the slot that a loop over an overflow table of `ncap` slots ends at
unfoldable pub ovf_probe : (RadixEdge → Bool) → ℕ → ℕ → List RadixEdge → Option ℕ
ovf_probe stop ncap h slots = probe no_edge stop ncap (ovf_start (ncap - 1) h) (ncap - 1) slots

-- where the loop of `edge_find_ovf` ends
abbrev pub ovf_stops : ℕ → RadixEdge → Bool
ovf_stops h e = edge_free e || edge_is h e

unfoldable pub edge_find_ovf : RadixOvf → ℕ → Option ℕ
edge_find_ovf o h = elim (ovf_probe (ovf_stops h) o.cap_slots h o.slots) [
  | none ↦ none
  | some i ↦ let e = get_or o.slots i no_edge in if edge_free e then none else e.child
]

unfoldable pub edge_get : RadixNode → ℕ → Option ℕ
edge_get n h =
    if n.ovf_flag == 0
    then edge_find n.slots h
    else elim n.ovf [ none ↦ none | some o ↦ edge_find_ovf o h ]

-- an edge goes to the first free slot from its start on
unfoldable pub ovf_place : ℕ → RadixEdge → List RadixEdge → List RadixEdge
ovf_place ncap e ns = elim (ovf_probe edge_free ncap e.child_hash ns) [
  | none ↦ ns
  | some j ↦ set ns j e
]

-- the loop over the old slots that `ovf_grow` and `ovf_migrate` share, after some of its rounds
unfoldable pub ovf_fill : ℕ → List RadixEdge → ℕ → List RadixEdge → List RadixEdge
ovf_fill ncap fresh zero old = fresh
ovf_fill ncap fresh (suc i) old =
    let ns = ovf_fill ncap fresh i old in
    let e = get_or old i no_edge in if edge_live e then ovf_place ncap e ns else ns

unfoldable pub ovf_grow : RadixOvf → RadixOvf
ovf_grow o =
    let ncap = if o.cap_slots == 0 then 16 else u32 (o.cap_slots * 2) in
    record o {
      cap_slots = ncap;
      n_del = 0;
      slots = ovf_fill ncap (replicate ncap no_edge) o.cap_slots o.slots;
    }

unfoldable pub live_edges : List RadixEdge → ℕ
live_edges [] = 0
live_edges (e ∷ es) = if edge_live e then suc (live_edges es) else live_edges es

-- `used` counts the edges that the loop moves.
unfoldable pub ovf_migrate : RadixNode → RadixNode
ovf_migrate n =
    let o = ovf_grow (record { cap_slots = 0; used = 0; n_del = 0; slots = [] }) in
    record n {
      ovf_flag = 1;
      slots = replicate kv_inline_slots no_edge;
      ovf = some (record o {
        used = o.used + live_edges n.slots;
        slots = ovf_fill o.cap_slots o.slots kv_inline_slots n.slots;
      });
    }

-- the growth that `edge_add` starts with
unfoldable pub ovf_grown : RadixOvf → RadixOvf
ovf_grown o =
    if ltb (u32 (o.cap_slots * 7) / 10) (u32 (o.used + o.n_del + 1)) then ovf_grow o else o

-- where the loop of `edge_add` ends
abbrev pub edge_vacant : RadixEdge → Bool
edge_vacant e = edge_free e || edge_deleted e

abbrev pub new_edge : ℕ → ℕ → RadixEdge
new_edge h child = record { child_hash = h; child = some child; flags = 0 }

-- what `edge_add` writes at the slot where its loop ended
unfoldable pub ovf_write : RadixOvf → ℕ → ℕ → ℕ → RadixOvf
ovf_write o i h child =
    let free = edge_free (get_or o.slots i no_edge) in
    record o {
      used = if free then u32 (o.used + 1) else o.used;
      n_del = if free then o.n_del else u32 (o.n_del + 2 ^ 32 - 1);
      slots = set o.slots i (new_edge h child);
    }

unfoldable pub ovf_add : RadixOvf → ℕ → ℕ → RadixOvf
ovf_add o h child =
    let g = ovf_grown o in
    elim (ovf_probe edge_vacant g.cap_slots h g.slots) [ none ↦ g | some i ↦ ovf_write g i h child ]

abbrev pub count_edge : RadixNode → RadixNode
count_edge n = record n { n_edges = u16 (n.n_edges + 1) }

-- the part of `edge_add` on a node with an overflow table
unfoldable pub edge_add_ovf : RadixNode → ℕ → ℕ → RadixNode
edge_add_ovf n h child = elim n.ovf [
  | none ↦ n
  | some o ↦ count_edge (record n { ovf = some (ovf_add o h child) })
]

unfoldable pub edge_add : RadixNode → ℕ → ℕ → RadixNode
edge_add n h child =
    if n.ovf_flag == 0
    then elim (first_slot edge_free n.slots) [
      | some i ↦ count_edge (record n { slots = set n.slots i (new_edge h child) })
      | none ↦ edge_add_ovf (ovf_migrate n) h child
    ]
    else edge_add_ovf n h child

-- the new child of `cur`: `node_new(k + 1)`, its parent, and the edge to it
unfoldable pub add_child : RadixTree → ℕ → ℕ → ℕ → RadixTree
add_child t cur k h =
    let id = length t.nodes in
    let child : RadixNode = record (node_new (u32 (k + 1))) { parent = some cur } in
    record t { nodes = set t.nodes cur (edge_add (node_at t.nodes cur) h id) ++ (child ∷ []) }

-- the loop of `radix_walk` from its round `k` on
unfoldable pub walk_from : Bool → ℕ → RadixTree → ℕ → List ℕ → RadixTree × Option ℕ
walk_from create k t cur [] = (t, some cur)
walk_from create k t cur (h ∷ hashes) = elim (edge_get (node_at t.nodes cur) h) [
  | some child ↦ walk_from create (suc k) t child hashes
  | none ↦
      if create
      then walk_from create (suc k) (add_child t cur k h) (length t.nodes) hashes
      else (t, none)
]

unfoldable pub radix_walk : Bool → RadixTree → List ℕ → RadixTree × Option ℕ
radix_walk create t hashes = walk_from create 0 t 0 hashes
