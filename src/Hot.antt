-- ===== src/Hot.antt =====
-- src/hot.cpp: whether a path of the radix tree is hot.
pub mod Path
mod Examples
use kvtier.Prelude.{
  ℕ, Bool, true, false, ◌||◌, Option, none, some, List, [], ◌∷◌, ltb, if◌then◌else◌, length,
}
use kvtier.Radix.{RadixNode, RadixTree, node_at, edge_find, edge_find_ovf}
use kvtier.Radix.Visit.{radix_hit_decay}

-- The child that the two loops of `hot_check_path` find: they are the loops of `edge_find` and
-- `edge_find_ovf`, the second one whenever the first finds nothing and there is a table.
unfoldable pub hot_child : RadixNode → ℕ → Option ℕ
hot_child n h = elim (edge_find n.slots h) [
  | some c ↦ some c
  | none ↦ elim n.ovf [ none ↦ none | some o ↦ edge_find_ovf o h ]
]

-- the loop of `hot_check_path`: the node it ends at, and the one before
unfoldable pub hot_walk : List RadixNode → ℕ → Option ℕ → List ℕ → Option (ℕ × Option ℕ)
hot_walk nodes cur parent [] = some (cur, parent)
hot_walk nodes cur parent (h ∷ hashes) = elim (hot_child (node_at nodes cur) h) [
  | none ↦ none
  | some child ↦ hot_walk nodes child (some cur) hashes
]

abbrev pub is_hot : List RadixNode → ℕ → Option ℕ → Bool
is_hot nodes threshold none = false
is_hot nodes threshold (some i) = ltb threshold (node_at nodes i).hit_count

-- the tests after the loop
abbrev pub hot_end : List RadixNode → ℕ → Option (ℕ × Option ℕ) → Bool
hot_end nodes threshold none = false
hot_end nodes threshold (some (cur, parent)) =
    is_hot nodes threshold (some cur) || is_hot nodes threshold parent

unfoldable pub hot_check_path : RadixTree → List ℕ → ℕ → Bool
hot_check_path t hashes threshold = hot_end t.nodes threshold (hot_walk t.nodes 0 none hashes)

-- `hot_decay`, down to at most as many levels as there are nodes
unfoldable pub hot_decay : RadixTree → RadixTree
hot_decay t = record t { nodes = radix_hit_decay (length t.nodes) (some 0) t.nodes }
