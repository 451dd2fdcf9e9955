-- ===== src/Ckpt.antt =====
-- The checkpoint of src/journal.cpp: `ckpt_load` builds the tree again from the records of the
-- file. Allocation succeeds. The file is its header, the shapes behind it and the list of its
-- records, the header and each record with whether its CRC is right; a leaf is a number, as in the
-- tree, which stands for its fields.
pub mod Table
pub mod Edges
pub mod Load
mod Examples
use kvtier.Prelude.{
  ℕ, zero, suc, ◌+◌, ◌-◌, ◌*◌, ◌/◌, ◌^◌, Bool, true, false, ◌||◌, not, Option, none, some, List, [],
  ◌∷◌, ◌++◌, ◌==◌, ltb, leb, if◌then◌else◌, length, take, get_or, set, replicate, ℤ, neg,
}
use kvtier.Common.{u32, u64, kv_enoent, kv_eio, kv_ecrc, kv_einval, kv_max_layers_cap}
use kvtier.Cache.Shapes.{Shape, shape_pool_intern}
use kvtier.Radix.{
  RadixEdge, RadixOvf, RadixNode, RadixTree, no_edge, node_new, node_at, kv_inline_slots, edge_free,
  edge_vacant, first_slot, ovf_probe, ovf_place, ovf_fill, ovf_write, new_edge, count_edge,
}

-- the loop that moves the edges of a full node to its new table, after some of its rounds
unfoldable pub ckpt_fill : ℕ → List RadixEdge → ℕ → List RadixEdge → List RadixEdge
ckpt_fill ncap fresh zero old = fresh
ckpt_fill ncap fresh (suc k) old =
    let ns = ckpt_fill ncap fresh k old in
    let e = get_or old k no_edge in if edge_free e then ns else ovf_place ncap e ns

unfoldable pub taken_edges : List RadixEdge → ℕ
taken_edges [] = 0
taken_edges (e ∷ es) = if edge_free e then taken_edges es else suc (taken_edges es)

-- a full node gets a table of 16 slots, and the new edge goes there
unfoldable pub ckpt_migrate : RadixNode → ℕ → ℕ → RadixNode
ckpt_migrate n h child =
    let slots = ckpt_fill 16 (replicate 16 no_edge) kv_inline_slots n.slots in
    record n {
      ovf_flag = 1;
      slots = replicate kv_inline_slots no_edge;
      ovf = some (record {
        cap_slots = 16;
        used = u32 (taken_edges n.slots + 1);
        n_del = 0;
        slots = ovf_place 16 (new_edge h child) slots;
      });
    }

unfoldable pub ckpt_grown : RadixOvf → RadixOvf
ckpt_grown o =
    let new_cap = u32 (o.cap_slots * 2) in
    if ltb (u32 (o.cap_slots * 7) / 10) (u32 (o.used + o.n_del + 1))
    then record o {
      cap_slots = new_cap;
      n_del = 0;
      slots = ovf_fill new_cap (replicate new_cap no_edge) o.cap_slots o.slots;
    }
    else o

unfoldable pub ckpt_ovf_add : RadixOvf → ℕ → ℕ → RadixOvf
ckpt_ovf_add o h child =
    let g = ckpt_grown o in
    elim (ovf_probe edge_vacant g.cap_slots h g.slots) [ none ↦ g | some i ↦ ovf_write g i h child ]

-- the edge to a new node, put into the parent by code of the loop's own
unfoldable pub ckpt_edge_add : RadixNode → ℕ → ℕ → RadixNode
ckpt_edge_add n h child =
    if n.ovf_flag == 0
    then elim (first_slot edge_free n.slots) [
      | some i ↦ count_edge (record n { slots = set n.slots i (new_edge h child) })
      | none ↦ count_edge (ckpt_migrate n h child)
    ]
    else elim n.ovf [
      | none ↦ n
      | some o ↦ count_edge (record n { ovf = some (ckpt_ovf_add o h child) })
    ]

-- `ckpt_hdr` and `ckpt_node_rec`, each with whether its CRC is right; `leaf` stands for the leaf
-- that the record describes
pub record CkptHdr : Type 0 where
  pub magic : ℕ
  pub crc_ok : Bool
  pub n_devs : ℕ
  pub region_cnt : ℕ
  pub region_size_pages : ℕ
  pub ver_counter : ℕ
  pub n_recs : ℕ
  pub pad : ℕ

-- a shape: its number of lengths, and those that are there before the file ends
pub record CkptShape : Type 0 where
  pub n : ℕ
  pub lens : List ℕ

pub record CkptNodeRec : Type 0 where
  pub type : ℕ
  pub crc_ok : Bool
  pub depth : ℕ
  pub child_hash : ℕ
  pub leaf : ℕ

abbrev pub ckpt_rec_internal : ℕ
ckpt_rec_internal = 1

abbrev pub ckpt_rec_leaf : ℕ
ckpt_rec_leaf = 2

abbrev pub ckpt_rec_leaf_stripe : ℕ
ckpt_rec_leaf_stripe = 3

-- `stack` has 128 entries, null at first
pub record LoadState : Type 0 where
  pub tree : RadixTree
  pub stack : List (Option ℕ)
  pub sp : ℕ

-- a null pointer that is followed, or an entry outside the stack, is `undefined`
pub data Loaded : Type 0 where
  running : LoadState → Loaded
  failed : ℤ → Loaded
  undefined : Loaded

-- `while (sp > d) sp--`
unfoldable pub drop_to : ℕ → ℕ → ℕ
drop_to sp d = if ltb d sp then d else sp

-- the node of an INTERNAL record, under `parent`
unfoldable pub ckpt_add_child : RadixTree → ℕ → ℕ → ℕ → RadixTree
ckpt_add_child t parent d h =
    let id = length t.nodes in
    let child : RadixNode = record (node_new d) { parent = some parent } in
    record t {
      nodes = set t.nodes parent (ckpt_edge_add (node_at t.nodes parent) h id) ++ (child ∷ []);
    }

abbrev pub push_node : LoadState → ℕ → ℕ → RadixTree → LoadState
push_node s sp id t =
    if ltb sp 128
    then record { tree = t; stack = set s.stack sp (some id); sp = sp + 1 }
    else record s { tree = t; sp = sp }

unfoldable pub ckpt_internal : LoadState → CkptNodeRec → Loaded
ckpt_internal s r =
    let sp = drop_to s.sp r.depth in
    if leb (2 ^ 31) r.depth
    then undefined
    else if sp == 0
    then failed (neg kv_eio)
    else elim (get_or s.stack (r.depth - 1) none) [
      | none ↦ undefined
      | some parent ↦
          running (
            push_node s sp (length s.tree.nodes)
              (ckpt_add_child s.tree parent r.depth r.child_hash))
    ]

unfoldable pub ckpt_leaf : LoadState → CkptNodeRec → Loaded
ckpt_leaf s r =
    let sp = drop_to s.sp (r.depth + 1) in
    if leb (2 ^ 31 - 1) r.depth
    then undefined
    else if ltb sp (r.depth + 1)
    then failed (neg kv_eio)
    else elim (get_or s.stack r.depth none) [
      | none ↦ undefined
      | some node ↦ running (record s {
        sp = sp;
        tree = record {
          nodes = set s.tree.nodes node (record (node_at s.tree.nodes node) { leaf = some r.leaf });
          n_leaves = u64 (s.tree.n_leaves + 1);
        };
      })
    ]

unfoldable pub ckpt_rec : LoadState → CkptNodeRec → Loaded
ckpt_rec s r =
    if not r.crc_ok
    then failed (neg kv_ecrc)
    else if r.type == ckpt_rec_internal
    then ckpt_internal s r
    else if r.type == ckpt_rec_leaf || r.type == ckpt_rec_leaf_stripe
    then ckpt_leaf s r
    else failed (neg kv_einval)

-- the loop over `n` records; the file may end before
unfoldable pub ckpt_recs : ℕ → Loaded → List CkptNodeRec → Loaded
ckpt_recs zero l rs = l
ckpt_recs (suc n) (running s) [] = failed (neg kv_eio)
ckpt_recs (suc n) (running s) (r ∷ rs) = ckpt_recs n (ckpt_rec s r) rs
ckpt_recs (suc n) (failed rc) rs = failed rc
ckpt_recs (suc n) undefined rs = undefined

abbrev pub kv_cp_magic : ℕ
kv_cp_magic = 0x504B435B

pub data CkptFile : Type 0 where
  missing : CkptFile
  short_header : CkptFile
  whole : CkptHdr → List CkptShape → List CkptNodeRec → CkptFile

-- the loop over the `pad` shapes: the pool, and whether all of them were there
unfoldable pub load_shapes : ℕ → List CkptShape → List Shape → List Shape × Bool
load_shapes zero ss pool = (pool, true)
load_shapes (suc k) [] pool = (pool, false)
load_shapes (suc k) (s ∷ ss) pool =
    let rest = load_shapes k ss (shape_pool_intern pool (take s.n s.lens)).0 in
    if ltb kv_max_layers_cap s.n || ltb (length s.lens) s.n then (pool, false) else rest

-- what `ckpt_load` returns, the caller's pool, and what it stores in `*ver_counter`
pub record CkptResult : Type 0 where
  pub loaded : Loaded
  pub shapes : Option (List Shape)
  pub ver_counter : Option ℕ

abbrev first_state : RadixTree → Loaded
first_state t = running (record { tree = t; stack = set (replicate 128 none) 0 (some 0); sp = 1 })

-- the shapes and the records, after the checks of the header
unfoldable pub ckpt_body :
    CkptHdr → List CkptShape → List CkptNodeRec → Option (List Shape) → RadixTree → CkptResult
ckpt_body hdr ss recs shapes t =
    let ver : Option ℕ = some hdr.ver_counter in
    let tree : Loaded = ckpt_recs hdr.n_recs (first_state t) recs in
    if hdr.pad == 0
    then record { loaded = tree; shapes = shapes; ver_counter = ver }
    else elim shapes [
      | none ↦ record { loaded = failed (neg kv_einval); shapes = none; ver_counter = ver }
      | some pool ↦
          let (pool', all) = load_shapes hdr.pad ss pool in
          record {
            loaded = if all then tree else failed (neg kv_eio);
            shapes = some pool';
            ver_counter = ver;
          }
    ]

-- `ckpt_load` of a file into an empty tree; `shapes` is the pool, if there is one
unfoldable pub ckpt_load : CkptFile → Option (List Shape) → RadixTree → ℕ → ℕ → ℕ → CkptResult
ckpt_load missing shapes t n_devs region_cnt region_size_pages = record {
  loaded = failed (neg kv_enoent);
  shapes = shapes;
  ver_counter = none;
}
ckpt_load short_header shapes t n_devs region_cnt region_size_pages = record {
  loaded = failed (neg kv_eio);
  shapes = shapes;
  ver_counter = none;
}
ckpt_load (whole hdr ss recs) shapes t n_devs region_cnt region_size_pages =
    if not (hdr.magic == kv_cp_magic) || not hdr.crc_ok
    then record { loaded = failed (neg kv_ecrc); shapes = shapes; ver_counter = none }
    else if not (hdr.n_devs == n_devs)
        || not (hdr.region_cnt == region_cnt)
        || not (hdr.region_size_pages == region_size_pages)
    then record { loaded = failed (neg kv_einval); shapes = shapes; ver_counter = none }
    else ckpt_body hdr ss recs shapes t
