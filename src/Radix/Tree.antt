-- ===== src/Radix/Tree.antt =====
-- The radix tree of src/radix.cpp that the program keeps, and its growth.
use kvtier.Prelude.{
  ℕ, zero, suc, ◌<◌, ◌≤◌, ◌≡◌, ◌≢◌, refl, ◌∙◌, ap, sym, Option, none, some, length, replicate, ◌⊎◌,
  inl, inr, arith, length-replicate, get_or-replicate,
}
use kvtier.Radix.{
  RadixEdge, RadixOvf, RadixNode, RadixTree, no_edge, node_new, node_at, kv_inline_slots, edge_get,
  radix_init,
}
use kvtier.Radix.Table.{edge_at, Holds}
use kvtier.Radix.Add.{IsOvf}
use kvtier.Radix.Node.{HasEdge, IsNode}

-- A tree the program keeps: the nodes are well formed, an edge leads to a later node, and a parent
-- is an earlier one.
pub record IsTree (t : RadixTree) : Type 0 where
  pub root : 0 < length t.nodes
  pub node : (i : ℕ) → i < length t.nodes → IsNode (length t.nodes) (node_at t.nodes i)
  pub down :
      (i h j : ℕ) → i < length t.nodes → h ≢ 0 → HasEdge (node_at t.nodes i) h (some j) → i < j
  pub up :
      (i : ℕ)
      → i < length t.nodes
      → ((node_at t.nodes i).parent ≡ none)
        ⊎ ((p : ℕ) × ((node_at t.nodes i).parent ≡ some p) × (p < i))

-- the edges of `t` are edges of `t'`
pub record IsGrowth (t t' : RadixTree) : Type 0 where
  pub len : length t.nodes ≤ length t'.nodes
  pub edge :
      (i h c : ℕ)
      → i < length t.nodes
      → h ≢ 0
      → edge_get (node_at t.nodes i) h ≡ some c
      → edge_get (node_at t'.nodes i) h ≡ some c

pub IsGrowth-refl : (t : RadixTree) → IsGrowth t t
IsGrowth-refl t = record { len = omega arith; edge = λ i h c l n e. e }

pub IsGrowth-trans : {t u v : RadixTree} → IsGrowth t u → IsGrowth u v → IsGrowth t v
IsGrowth-trans a b = record {
  len = omega (arith, a.len, b.len);
  edge = λ i h c l n e. b.edge i h c (omega (arith, l, a.len)) n (a.edge i h c l n e);
}

IsOvf-more : {m : ℕ} {o : RadixOvf} → IsOvf m o → IsOvf (suc m) o
IsOvf-more w = record {
  bits = w.bits;
  bits_ge = w.bits_ge;
  cap_eq = w.cap_eq;
  hashed = w.hashed;
  used_le = w.used_le;
  load = w.load;
  no_del = w.no_del;
  size = w.size;
  few = omega (arith, w.few);
}

pub IsNode-more : {m : ℕ} {n : RadixNode} → IsNode m n → IsNode (suc m) n
IsNode-more w = record {
  form = elim w.form [
    | inl v ↦ inl v
    | inr (o, v) ↦
        inr (o, record { flag = v.flag; slots = v.slots; ovf = v.ovf; table = IsOvf-more v.table })
  ];
  children = λ h c ne p. let (i, e, l) = w.children h c ne p in (i, e, omega (arith, l));
}

-- a node without edges
pub record IsEmpty (n : RadixNode) : Type 0 where
  pub flag : n.ovf_flag ≡ 0
  pub ovf : n.ovf ≡ none
  pub slots : n.slots ≡ replicate kv_inline_slots no_edge

empty_hash : (n : RadixNode) → IsEmpty n → (j : ℕ) → edge_at n.slots j ≡ no_edge
empty_hash n w j = rw w.slots (get_or-replicate kv_inline_slots j no_edge)

pub no_edges : (n : RadixNode) (h : ℕ) (c : Option ℕ) → IsEmpty n → h ≢ 0 → HasEdge n h c → ⊥
no_edges n h c w ne p =
    let (j, e, _) : Holds n.slots h c = rw w.flag at p in
    ne (sym e ∙ ap (λ (x : RadixEdge). x.child_hash) (empty_hash n w j))

pub IsEmpty-IsNode : (m : ℕ) (n : RadixNode) → IsEmpty n → IsNode m n
IsEmpty-IsNode m n w = record {
  form = inl (record {
    flag = w.flag;
    ovf = w.ovf;
    len = ap length w.slots ∙ length-replicate kv_inline_slots no_edge;
    table = record {
      alive = λ i. rw (empty_hash n w i) refl;
      unique = λ i j e ne. absurd (ne (ap (λ (x : RadixEdge). x.child_hash) (empty_hash n w j)));
    };
  });
  children = λ h c ne p. absurd (no_edges n h c w ne p);
}

init_node : (i : ℕ) → node_at radix_init.nodes i ≡ node_new 0
unfolding radix_init
init_node zero = refl
init_node (suc i) = refl

root-IsEmpty : IsEmpty (node_new 0)
unfolding node_new
root-IsEmpty = record { flag = refl; ovf = refl; slots = refl }

root-parent : (node_new 0).parent ≡ none
unfolding node_new
root-parent = refl

init_len : 0 < length radix_init.nodes
unfolding radix_init
init_len = omega arith

-- the tree that `radix_init` makes
pub radix_init-IsTree : IsTree radix_init
radix_init-IsTree = record {
  root = init_len;
  node =
      λ i l. rw (init_node i) (IsEmpty-IsNode (length radix_init.nodes) (node_new 0) root-IsEmpty);
  down = λ i h j l ne p.
      absurd (no_edges (node_new 0) h (some j) root-IsEmpty ne (rw (init_node i) at p));
  up = λ i l. rw (init_node i) (inl root-parent);
}
