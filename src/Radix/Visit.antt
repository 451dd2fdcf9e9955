-- ===== src/Radix/Visit.antt =====
-- The walks over a whole radix tree in src/radix.cpp: up the parents, and down the children.
use kvtier.Prelude.{
  ℕ, zero, suc, ◌+◌, ◌/◌, Option, none, some, List, [], ◌∷◌, ◌++◌, if◌then◌else◌, length, set, ℤ,
  pos, eq_ℤ,
}
use kvtier.Common.{u32}
use kvtier.Radix.{RadixEdge, RadixNode, RadixTree, node_at, edge_live}

-- `while (cur)` of `radix_hit_ascend`, in at most `fuel` rounds
unfoldable pub hit_ascend : ℕ → ℕ → List RadixNode → Option ℕ → Option (List RadixNode)
hit_ascend fuel inc nodes none = some nodes
hit_ascend zero inc nodes (some i) = none
hit_ascend (suc fuel) inc nodes (some i) =
    let n = node_at nodes i in
    hit_ascend fuel inc (set nodes i (record n { hit_count = u32 (n.hit_count + inc) })) n.parent

-- the rounds are at most as many as there are nodes
unfoldable pub radix_hit_ascend : RadixTree → Option ℕ → ℕ → Option RadixTree
radix_hit_ascend t node inc = elim (hit_ascend (length t.nodes) inc t.nodes node) [
  | none ↦ none
  | some nodes ↦ some (record t { nodes = nodes })
]

-- the children that the loops over an array of edges meet, in its order
unfoldable pub live_children : List RadixEdge → List (Option ℕ)
live_children [] = []
live_children (e ∷ es) = if edge_live e then e.child ∷ live_children es else live_children es

-- the two loops of `radix_hit_decay` and `radix_visit` over a node's edges
unfoldable pub node_children : RadixNode → List (Option ℕ)
node_children n = live_children n.slots ++ elim n.ovf [ none ↦ [] | some o ↦ live_children o.slots ]

decay_all :
    (Option ℕ → List RadixNode → List RadixNode) → List (Option ℕ) → List RadixNode → List RadixNode
decay_all decay [] nodes = nodes
decay_all decay (c ∷ cs) nodes = decay_all decay cs (decay c nodes)

-- `radix_hit_decay`, to at most `fuel` levels
unfoldable pub radix_hit_decay : ℕ → Option ℕ → List RadixNode → List RadixNode
unfolding decay_all
radix_hit_decay fuel none nodes = nodes
radix_hit_decay zero (some i) nodes = nodes
radix_hit_decay (suc fuel) (some i) nodes =
    let n = node_at nodes i in
    decay_all (radix_hit_decay fuel) (node_children n)
      (set nodes i (record n { hit_count = n.hit_count / 2 }))

-- `stk[top++] = e->child` for each child; the top of the stack is the head of the list
unfoldable pub push_children : List (Option ℕ) → List (Option ℕ) → List (Option ℕ)
push_children [] stk = stk
push_children (c ∷ cs) stk = push_children cs (c ∷ stk)

-- The loop of `radix_visit` in at most `fuel` rounds. `fn` has a state of its own and gives a
-- return code, `0` to go on. A child that is null is never on the stack.
unfoldable pub visit_loop {ℓ} :
    {S : Type ℓ} → (ℕ → S → ℤ × S) → ℕ → List RadixNode → List (Option ℕ) → S → Option (ℤ × S)
visit_loop fn fuel nodes [] s = some (pos 0, s)
visit_loop fn zero nodes (c ∷ stk) s = none
visit_loop fn (suc fuel) nodes (none ∷ stk) s = none
visit_loop fn (suc fuel) nodes (some i ∷ stk) s =
    let (rc, s') = fn i s in
    let rest = visit_loop fn fuel nodes (push_children (node_children (node_at nodes i)) stk) s' in
    if eq_ℤ rc (pos 0) then rest else some (rc, s')

-- `leaf_visit_cb`
unfoldable pub leaf_visit_cb {ℓ} : {S : Type ℓ} → (ℕ → S → ℤ × S) → List RadixNode → ℕ → S → ℤ × S
leaf_visit_cb fn nodes i s = elim (node_at nodes i).leaf [
  | none ↦ (pos 0, s)
  | some leaf ↦ fn leaf s
]

unfoldable pub radix_visit {ℓ} : {S : Type ℓ} → (ℕ → S → ℤ × S) → ℕ → RadixTree → S → Option (ℤ × S)
radix_visit fn fuel t s = visit_loop fn fuel t.nodes (some 0 ∷ []) s

unfoldable pub radix_visit_leaves {ℓ} :
    {S : Type ℓ} → (ℕ → S → ℤ × S) → ℕ → RadixTree → S → Option (ℤ × S)
radix_visit_leaves fn fuel t s = radix_visit (leaf_visit_cb fn t.nodes) fuel t s
