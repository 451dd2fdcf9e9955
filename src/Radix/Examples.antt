-- ===== src/Radix/Examples.antt =====
-- src/radix.cpp on small trees: a node that overflows, and a tree of one path.
use kvtier.Prelude.{
  ℕ, zero, suc, ◌+◌, ◌^◌, ◌≤◌, ◌≡◌, refl, true, false, none, some, List, [], ◌∷◌, length,
  if◌then◌else◌, ◌==◌, ℤ, pos, arith,
}
use kvtier.Probing.{probe}
use kvtier.Hash.{hash_mix64}
use kvtier.Radix.{
  RadixNode, RadixTree, node_new, node_at, radix_init, first_slot, edge_find, ovf_probe,
  edge_find_ovf, edge_get, ovf_place, ovf_fill, ovf_grow, live_edges, ovf_migrate, ovf_grown,
  ovf_write, ovf_add, edge_add_ovf, edge_add, add_child, walk_from, radix_walk,
}
use kvtier.Radix.Visit.{
  radix_hit_ascend, radix_visit, visit_loop, live_children, node_children, push_children,
}
use kvtier.Radix.EdgeAdd.{edge_get-edge_add}
use kvtier.Radix.Tree.{IsTree, radix_init-IsTree}
use kvtier.Radix.Walk.{NonZero, radix_walk-radix_walk, radix_walk_old}
use kvtier.Radix.Ascend.{Above, hit_by, radix_hit_ascend_lem}

-- an edge of each hash, from `k` down to 1
abbrev filled : ℕ → RadixNode
filled zero = node_new 0
filled (suc k) = edge_add (filled k) (suc k) k

-- the ninth edge moves all of them to the overflow table, where each is found
ninth :
    (edge_get (filled 8) 8 ≡ some 7)
    × (edge_get (filled 9) 9 ≡ some 8)
    × (edge_get (filled 9) 1 ≡ some 0)
    × (edge_get (filled 9) 10 ≡ none)
unfolding edge_add edge_get first_slot edge_find node_new ovf_migrate ovf_grow ovf_fill ovf_place
    ovf_probe probe live_edges edge_add_ovf ovf_add ovf_grown ovf_write edge_find_ovf hash_mix64
ninth = (refl, refl, refl, refl)

abbrev path : List ℕ
path = 5 ∷ 7 ∷ []

path-NonZero : NonZero path
path-NonZero = (λ e. omega (arith, e), (λ e. omega (arith, e), tt))

abbrev tree : RadixTree
tree = (radix_walk true radix_init path).0

tree_nodes : (length radix_init.nodes ≡ 1) × (length tree.nodes ≡ 3)
unfolding radix_init radix_walk walk_from add_child edge_add edge_get first_slot edge_find node_new
tree_nodes = (refl, refl)

tree-IsTree : IsTree tree
tree-IsTree =
    let b : length radix_init.nodes + length path ≤ 2 ^ 24 = omega (arith, tree_nodes.0) in
    (radix_walk-radix_walk radix_init path radix_init-IsTree path-NonZero b).3

root_edge : edge_get (node_at radix_init.nodes 0) 9 ≡ none
unfolding radix_init edge_get first_slot edge_find node_new
root_edge = refl

edge_get-edge_add_example :
    edge_get (edge_add (node_at radix_init.nodes 0) 9 0) 9
    ≡ (if 9 == 9 then some zero else edge_get (node_at radix_init.nodes 0) 9)
edge_get-edge_add_example =
    edge_get-edge_add (length radix_init.nodes) (node_at radix_init.nodes 0) 9 0 9
      (omega (arith, tree_nodes.0)) (omega arith)
      (radix_init-IsTree.node 0 (omega (arith, tree_nodes.0))) (λ e. omega (arith, e))
      (λ e. omega (arith, e)) root_edge

init_len : length radix_init.nodes + length path ≤ 2 ^ 24
init_len = omega (arith, tree_nodes.0)

radix_walk-radix_walk_example :
    (id : ℕ) × ((radix_walk true radix_init path).1 ≡ some id)
    × (radix_walk false (radix_walk true radix_init path).0 path
        ≡ ((radix_walk true radix_init path).0, some id))
    × IsTree (radix_walk true radix_init path).0
    × (length (radix_walk true radix_init path).0.nodes ≤ length radix_init.nodes + length path)
radix_walk-radix_walk_example =
    radix_walk-radix_walk radix_init path radix_init-IsTree path-NonZero init_len

-- a path that leaves the first one after one edge
abbrev branch : List ℕ
branch = 5 ∷ 6 ∷ []

branch-NonZero : NonZero branch
branch-NonZero = (λ e. omega (arith, e), (λ e. omega (arith, e), tt))

path_found : (radix_walk false tree path).1 ≡ some 2
unfolding radix_init radix_walk walk_from add_child edge_add edge_get first_slot edge_find node_new
path_found = refl

radix_walk_old_example : (radix_walk false (radix_walk true tree branch).0 path).1 ≡ some 2
radix_walk_old_example =
    radix_walk_old tree branch path 2 tree-IsTree branch-NonZero path-NonZero
      (omega (arith, tree_nodes.1)) path_found

radix_hit_ascend_lem_example :
    (u : RadixTree) × (radix_hit_ascend tree (some 2) 3 ≡ some u)
    × ((j : ℕ) → Above tree.nodes 2 j → node_at u.nodes j ≡ hit_by 3 (node_at tree.nodes j))
    × ((j : ℕ) → (Above tree.nodes 2 j → ⊥) → node_at u.nodes j ≡ node_at tree.nodes j)
radix_hit_ascend_lem_example =
    radix_hit_ascend_lem tree 2 3 tree-IsTree (omega (arith, tree_nodes.1))

-- a visitor that counts the nodes
abbrev count_nodes : ℕ → ℕ → ℤ × ℕ
count_nodes i n = (pos 0, suc n)

visited_nodes : radix_visit count_nodes 3 tree 0 ≡ some (pos 0, 3)
unfolding radix_visit visit_loop node_children live_children push_children radix_init radix_walk
    walk_from add_child edge_add edge_get first_slot edge_find node_new
visited_nodes = refl
