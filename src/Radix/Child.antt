-- ===== src/Radix/Child.antt =====
-- A new child in the radix tree of src/radix.cpp.
use kvtier.Prelude.{
  ℕ, suc, ◌+◌, ◌^◌, ◌<◌, ◌≤◌, ◌≡◌, ◌≢◌, refl, ◌∙◌, ap, sym, subst, none, some, [], ◌∷◌, ◌++◌,
  length, set, ◌⊎◌, inl, inr, arith, length-set, length-append, ℕ_discrete, get_or-set_self,
  get_or-set_ne, get_or-append_left, get_or-append_last,
}
use kvtier.Common.{u32}
use kvtier.Radix.{RadixNode, RadixTree, node_new, node_at, edge_get, edge_add, add_child}
use kvtier.Radix.Node.{HasEdge, IsNode, edge_get-some, edge_get_holds}
use kvtier.Radix.Tree.{IsTree, IsGrowth, IsNode-more, IsEmpty, no_edges, IsEmpty-IsNode}
use kvtier.Radix.Parent.{edge_add-parent}
use kvtier.Radix.EdgeAdd.{edge_add_holds, edge_add-IsNode}

abbrev pub child_of : ℕ → ℕ → RadixNode
child_of cur k = record (node_new (u32 (k + 1))) { parent = some cur }

child_of-IsEmpty : (cur k : ℕ) → IsEmpty (child_of cur k)
unfolding node_new
child_of-IsEmpty cur k = record { flag = refl; ovf = refl; slots = refl }

module _ (t : RadixTree) (cur k h : ℕ) where
  child_nodes :
      (add_child t cur k h).nodes
      ≡ set t.nodes cur (edge_add (node_at t.nodes cur) h (length t.nodes)) ++ (child_of cur k ∷ [])
  unfolding add_child
  child_nodes = refl

  pub child_len : length (add_child t cur k h).nodes ≡ suc (length t.nodes)
  unfolding add_child
  child_len =
      let a = edge_add (node_at t.nodes cur) h (length t.nodes) in
      omega
        (arith, length-append (set t.nodes cur a) (child_of cur k ∷ []), length-set t.nodes cur a)

  child_node :
      (i : ℕ)
      → i < length t.nodes
      → node_at (add_child t cur k h).nodes i
        ≡ node_at (set t.nodes cur (edge_add (node_at t.nodes cur) h (length t.nodes))) i
  unfolding add_child
  child_node i l =
      let a = edge_add (node_at t.nodes cur) h (length t.nodes) in
      get_or-append_left (set t.nodes cur a) (child_of cur k ∷ []) i (node_new 0)
        (omega (arith, l, length-set t.nodes cur a))

  child_cur :
      cur < length t.nodes
      → node_at (add_child t cur k h).nodes cur ≡ edge_add (node_at t.nodes cur) h (length t.nodes)
  child_cur l =
      child_node cur l
      ∙ get_or-set_self t.nodes cur (edge_add (node_at t.nodes cur) h (length t.nodes)) (node_new 0)
          l

  child_other :
      (i : ℕ)
      → i < length t.nodes
      → cur ≢ i
      → node_at (add_child t cur k h).nodes i ≡ node_at t.nodes i
  child_other i l ne =
      child_node i l
      ∙ get_or-set_ne t.nodes cur i (edge_add (node_at t.nodes cur) h (length t.nodes)) (node_new 0)
          ne

  child_new : node_at (add_child t cur k h).nodes (length t.nodes) ≡ child_of cur k
  unfolding add_child
  child_new =
      let a = edge_add (node_at t.nodes cur) h (length t.nodes) in
      ap (λ (m : ℕ). node_at (set t.nodes cur a ++ (child_of cur k ∷ [])) m)
        (sym (length-set t.nodes cur a))
      ∙ get_or-append_last (set t.nodes cur a) (child_of cur k) (node_new 0)

-- a node of the tree with a new child is the node that got it, another old node, or the child
child_cases : (cur i m : ℕ) → i < suc m → ((cur ≡ i) ⊎ ((cur ≢ i) × (i < m))) ⊎ (i ≡ m)
child_cases cur i m l = elim (ℕ_discrete i m) [
  | yes e ↦ inr e
  | no e ↦ elim (ℕ_discrete cur i) [
    | yes a ↦ inl (inl a)
    | no a ↦ inl (inr (a, ground (arith, l, e)))
  ]
]

-- a new child keeps the tree well formed
pub add_child-IsTree :
    (t : RadixTree) (cur k h : ℕ)
    → length t.nodes ≤ 2 ^ 24
    → IsTree t
    → cur < length t.nodes
    → h ≢ 0
    → edge_get (node_at t.nodes cur) h ≡ none
    → IsTree (add_child t cur k h)
add_child-IsTree t cur k h ml w l ne e =
    let m = length t.nodes in
    let n = node_at t.nodes cur in
    let len = child_len t cur k h in
    let added = edge_add_holds m n h m ml (w.node cur l) ne e in
    let P : RadixNode → ℕ → Type 0 = λ x i.
      (IsNode (suc m) x
        × ((g j : ℕ) → g ≢ 0 → HasEdge x g (some j) → i < j)
        × ((x.parent ≡ none) ⊎ ((p : ℕ) × (x.parent ≡ some p) × (p < i)))) in
    let all : (i : ℕ) → i < suc m → P (node_at (add_child t cur k h).nodes i) i = λ i il.
      elim (child_cases cur i m il) [
        | inl (inl a) ↦
            subst (λ (x : ℕ). P (node_at (add_child t cur k h).nodes x) x) a
              (rw (child_cur t cur k h l) (
                edge_add-IsNode m n h m ml (omega arith) (w.node cur l) ne e,
                λ g j gn p. elim (added.from g (some j) gn p) [
                  | inl q ↦ w.down cur g j l gn q
                  | inr (_, q) ↦ (let q' : m ≡ j = cc q in omega (arith, q', l))
                ],
                rw (edge_add-parent n h m) (w.up cur l),
              ))
        | inl (inr (a, lt)) ↦
            rw (child_other t cur k h i lt a)
              (IsNode-more (w.node i lt), λ g j gn p. w.down i g j lt gn p, w.up i lt)
        | inr a ↦
            subst (λ (x : ℕ). P (node_at (add_child t cur k h).nodes x) x) (sym a)
              (rw (child_new t cur k h) (
                IsEmpty-IsNode (suc m) (child_of cur k) (child_of-IsEmpty cur k),
                λ g j gn p.
                    absurd (no_edges (child_of cur k) g (some j) (child_of-IsEmpty cur k) gn p),
                inr (cur, refl, l),
              ))
      ] in
    record {
      root = omega (arith, len);
      node = λ i il. rw len (all i (omega (arith, il, len))).0;
      down = λ i g j il gn p. (all i (omega (arith, il, len))).1 g j gn p;
      up = λ i il. (all i (omega (arith, il, len))).2;
    }

-- the new edge
pub add_child_edge :
    (t : RadixTree) (cur k h : ℕ)
    → length t.nodes ≤ 2 ^ 24
    → IsTree t
    → cur < length t.nodes
    → h ≢ 0
    → edge_get (node_at t.nodes cur) h ≡ none
    → edge_get (node_at (add_child t cur k h).nodes cur) h ≡ some (length t.nodes)
add_child_edge t cur k h ml w l ne e =
    let m = length t.nodes in
    let n = node_at t.nodes cur in
    let added = edge_add_holds m n h m ml (w.node cur l) ne e in
    rw (child_cur t cur k h l) (
      edge_get_holds (suc m) (edge_add n h m) h (some m)
        (edge_add-IsNode m n h m ml (omega arith) (w.node cur l) ne e) ne added.new)

pub add_child-IsGrowth :
    (t : RadixTree) (cur k h : ℕ)
    → length t.nodes ≤ 2 ^ 24
    → IsTree t
    → cur < length t.nodes
    → h ≢ 0
    → edge_get (node_at t.nodes cur) h ≡ none
    → IsGrowth t (add_child t cur k h)
add_child-IsGrowth t cur k h ml w l ne e =
    let m = length t.nodes in
    let n = node_at t.nodes cur in
    let w' = edge_add-IsNode m n h m ml (omega arith) (w.node cur l) ne e in
    let added = edge_add_holds m n h m ml (w.node cur l) ne e in
    record {
      len = omega (arith, child_len t cur k h);
      edge = λ i g c il gn f. elim (ℕ_discrete cur i) [
        | yes a ↦
            let f' : edge_get n g ≡ some c = rw a f in
            subst (λ (x : ℕ). edge_get (node_at (add_child t cur k h).nodes x) g ≡ some c) a
              (rw (child_cur t cur k h l) (
                edge_get_holds (suc m) (edge_add n h m) g (some c) w' gn
                  (added.old g (some c) gn (edge_get-some m n g c (w.node cur l) f'))))
        | no a ↦ rw (child_other t cur k h i il a) f
      ];
    }
