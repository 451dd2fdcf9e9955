-- ===== src/Ckpt/Examples.antt =====
-- src/journal.cpp: a checkpoint loaded into an empty tree.
use kvtier.Prelude.{
  ℕ, zero, suc, ◌≤◌, ◌<◌, ◌≡◌, refl, true, none, some, get_or, set, replicate, length, neg, arith,
}
use kvtier.Common.{kv_eio}
use kvtier.Radix.{radix_init, node_new, node_at, edge_get, edge_add, first_slot, edge_find}
use kvtier.Radix.Tree.{radix_init-IsTree}
use kvtier.Ckpt.{
  CkptNodeRec, LoadState, running, failed, undefined, ckpt_edge_add, ckpt_internal, ckpt_leaf,
}
use kvtier.Ckpt.Edges.{ckpt_edge_add-edge_add}
use kvtier.Ckpt.Load.{IsLoad, ckpt_internal-IsLoad, ckpt_too_deep}

abbrev first : LoadState
first = record { tree = radix_init; stack = set (replicate 128 none) 0 (some 0); sp = 1 }

init_nodes : length radix_init.nodes ≡ 1
unfolding radix_init
init_nodes = refl

first_entry :
    (k : ℕ)
    → k < 1
    → (id : ℕ) × (get_or first.stack k none ≡ some id) × (id < length radix_init.nodes)
first_entry zero l = (0, refl, omega (arith, init_nodes))
first_entry (suc k) l = absurd (omega arith)

first-IsLoad : IsLoad first
first-IsLoad = record {
  tree = radix_init-IsTree;
  len = refl;
  sp = omega arith;
  entry = first_entry;
}

abbrev below_root : CkptNodeRec
below_root = record { type = 1; crc_ok = true; depth = 1; child_hash = 5; leaf = 0 }

abbrev far_below : CkptNodeRec
far_below = record { type = 2; crc_ok = true; depth = 200; child_hash = 5; leaf = 3 }

no_child :
    (parent : ℕ)
    → get_or first.stack 0 none ≡ some parent
    → edge_get (node_at radix_init.nodes parent) 5 ≡ none
unfolding radix_init edge_get first_slot edge_find node_new
no_child zero e = refl
no_child (suc p) e = absurd (cc e)

ckpt_edge_add-edge_add_example :
    ckpt_edge_add (node_at radix_init.nodes 0) 5 1 ≡ edge_add (node_at radix_init.nodes 0) 5 1
ckpt_edge_add-edge_add_example =
    ckpt_edge_add-edge_add (length radix_init.nodes) (node_at radix_init.nodes 0) 5 1
      (radix_init-IsTree.node 0 (omega (arith, init_nodes)))

ckpt_internal-IsLoad_example :
    (parent : ℕ) × (s' : LoadState) × (get_or first.stack 0 none ≡ some parent)
    × (ckpt_internal first below_root ≡ running s')
    × (edge_get (node_at s'.tree.nodes parent) 5 ≡ some (length radix_init.nodes))
    × IsLoad s'
ckpt_internal-IsLoad_example =
    ckpt_internal-IsLoad first below_root first-IsLoad (omega (arith, init_nodes)) (omega arith)
      (omega arith) (λ e. omega (arith, e)) no_child

ckpt_too_deep_example :
    (128 ≤ 200 → ckpt_leaf first far_below ≡ failed (neg kv_eio))
    × (129 ≤ 200 → 1 ≤ 1 → ckpt_internal first far_below ≡ undefined)
ckpt_too_deep_example = ckpt_too_deep first far_below first-IsLoad (omega arith)
