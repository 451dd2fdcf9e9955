-- ===== src/Hot/Examples.antt =====
-- src/hot.cpp on a tree of one path.
use kvtier.Prelude.{ℕ, ◌+◌, ◌≤◌, ◌≡◌, ◌↔◌, true, false, List, [], ◌∷◌, length, ◌^◌, arith}
use kvtier.Hot.{hot_check_path}
use kvtier.Hot.Path.{IsHotPath, parent_of, hot_check_path_lem}
use kvtier.Radix.{RadixTree, radix_init, radix_walk}
use kvtier.Radix.Tree.{IsTree, radix_init-IsTree}
use kvtier.Radix.Walk.{NonZero, radix_walk-radix_walk}

abbrev path : List ℕ
path = 5 ∷ 7 ∷ []

path-NonZero : NonZero path
path-NonZero = (λ e. omega (arith, e), (λ e. omega (arith, e), tt))

abbrev tree : RadixTree
tree = (radix_walk true radix_init path).0

init_len : length radix_init.nodes + length path ≤ 2 ^ 24
unfolding radix_init
init_len = omega arith

tree-IsTree : IsTree tree
tree-IsTree = (radix_walk-radix_walk radix_init path radix_init-IsTree path-NonZero init_len).3

hot_check_path_lem_example :
    (hot_check_path tree path 4 ≡ true)
    ↔ IsHotPath tree 4 (radix_walk false tree path).1 (parent_of tree path)
hot_check_path_lem_example = hot_check_path_lem tree path 4 tree-IsTree path-NonZero
