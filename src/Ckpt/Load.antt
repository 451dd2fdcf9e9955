-- ===== src/Ckpt/Load.antt =====
-- The records of a checkpoint as `ckpt_load` of src/journal.cpp reads them.
use kvtier.Prelude.{
  ℕ, suc, ◌+◌, ◌-◌, ◌^◌, ◌<◌, ◌≤◌, ◌≡◌, ◌≢◌, refl, ◌∙◌, subst, true, false, Option, none, some,
  List, length, length-set, get_or, set, get_or-set_self, get_or-set_ne, arith, ℕ_discrete, ◌==◌,
  ltb, leb, lt→ltb, ltb→lt, zero, inl, inr, Bool-cases, neg, ◌∷◌, [],
}
use native.Mathlib.Nat.{mod-eq_of_lt}
use kvtier.Common.{u32, kv_eio}
use kvtier.Radix.{RadixTree, node_at, edge_get, add_child}
use kvtier.Radix.Tree.{IsTree}
use kvtier.Radix.Child.{child_len, add_child-IsTree, add_child_edge}
use kvtier.Ckpt.{
  CkptNodeRec, LoadState, running, failed, undefined, drop_to, ckpt_add_child, push_node,
  ckpt_internal, ckpt_leaf,
}
use kvtier.Ckpt.Edges.{ckpt_edge_add-edge_add}

-- The tree is well formed, and the first `sp` entries of the stack are nodes of it.
pub record IsLoad (s : LoadState) : Type 0 where
  pub tree : IsTree s.tree
  pub len : length s.stack ≡ 128
  pub sp : s.sp ≤ 128
  pub entry :
      (k : ℕ) → k < s.sp → (id : ℕ) × (get_or s.stack k none ≡ some id) × (id < length s.tree.nodes)

add_child_same :
    (t : RadixTree) (parent d h : ℕ)
    → IsTree t
    → parent < length t.nodes
    → 1 ≤ d
    → d < 2 ^ 32
    → ckpt_add_child t parent d h ≡ add_child t parent (d - 1) h
unfolding ckpt_add_child add_child
add_child_same t parent d h w l one small =
    let e : u32 (d - 1 + 1) ≡ d = mod-eq_of_lt (omega (arith, small, one)) ∙ omega (arith, one) in
    let f =
      ckpt_edge_add-edge_add (length t.nodes) (node_at t.nodes parent) h (length t.nodes)
        (w.node parent l) in
    rw (e, f) refl

drop_to_le : (sp d : ℕ) → d ≤ sp → drop_to sp d ≡ d
unfolding drop_to
drop_to_le sp d l = ground (arith, l)

drop_to-le : (sp d : ℕ) → drop_to sp d ≤ sp
unfolding drop_to
drop_to-le sp d = ground arith

drop_to_ge : (sp d : ℕ) → sp ≤ d → drop_to sp d ≡ sp
unfolding drop_to
drop_to_ge sp d l = ground (arith, l)

-- An INTERNAL record, whose depth is at most the stack's
pub ckpt_internal-add_child :
    (s : LoadState) (r : CkptNodeRec)
    → IsLoad s
    → 1 ≤ r.depth
    → r.depth ≤ s.sp
    → (parent : ℕ) × (get_or s.stack (r.depth - 1) none ≡ some parent)
      × (parent < length s.tree.nodes)
      × (ckpt_internal s r
          ≡ running (
              push_node s r.depth
                (length s.tree.nodes)
                (add_child s.tree parent (r.depth - 1) r.child_hash)))
unfolding ckpt_internal
ckpt_internal-add_child s r w one le =
    let (parent, e, l) = w.entry (r.depth - 1) (omega (arith, one, le)) in
    let small : leb (2 ^ 31) r.depth ≡ false = ground (arith, le, w.sp) in
    let sp = drop_to_le s.sp r.depth le in
    let pos : (r.depth == 0) ≡ false = ground (arith, one) in
    let same =
      add_child_same s.tree parent r.depth r.child_hash w.tree l one (omega (arith, le, w.sp)) in
    (parent, e, l, rw (small, sp, pos, e, sp, same) refl)

-- a node put on the stack at its depth
push-IsLoad :
    (s : LoadState) (parent d h : ℕ)
    → IsLoad s
    → length s.tree.nodes ≤ 2 ^ 24
    → d ≤ s.sp
    → parent < length s.tree.nodes
    → h ≢ 0
    → edge_get (node_at s.tree.nodes parent) h ≡ none
    → IsLoad (push_node s d (length s.tree.nodes) (add_child s.tree parent (d - 1) h))
push-IsLoad s parent d h w ml le l nz e =
    let t : RadixTree = add_child s.tree parent (d - 1) h in
    let tree = add_child-IsTree s.tree parent (d - 1) h ml w.tree l nz e in
    let more = child_len s.tree parent (d - 1) h in
    let id : ℕ = length s.tree.nodes in
    elim (Bool-cases (ltb d 128)) [
      | inr f ↦ rw f (record {
        tree = tree;
        len = w.len;
        sp = omega (arith, le, w.sp);
        entry = λ k u.
            (let (i, a, b) = w.entry k (omega (arith, u, le)) in (i, a, omega (arith, b, more)));
      })
      | inl f ↦
          let room : d < 128 = ltb→lt d 128 f in
          rw f (record {
            tree = tree;
            len = length-set s.stack d (some id) ∙ w.len;
            sp = omega (arith, room);
            entry = λ k u. elim (ℕ_discrete d k) [
              | yes at ↦
                  subst
                    (λ (x : ℕ).
                      (i : ℕ) × (get_or (set s.stack d (some id)) x none ≡ some i)
                      × (i < length t.nodes))
                    at
                    (
                      id,
                      get_or-set_self s.stack d (some id) none (omega (arith, room, w.len)),
                      omega (arith, more),
                    )
              | no ne ↦
                  let (i, a, b) = w.entry k (omega (arith, u, le, ne)) in
                  (i, get_or-set_ne s.stack d k (some id) none ne ∙ a, omega (arith, b, more))
            ];
          })
    ]

push_tree :
    (s : LoadState) (d id parent h : ℕ) (t : RadixTree)
    → edge_get (node_at t.nodes parent) h ≡ some id
    → edge_get (node_at (push_node s d id t).tree.nodes parent) h ≡ some id
push_tree s d id parent h t e = elim (Bool-cases (ltb d 128)) [ inl f ↦ rw f e | inr f ↦ rw f e ]

get_or_out : (xs : List (Option ℕ)) (i : ℕ) → length xs ≤ i → get_or xs i none ≡ none
get_or_out [] i l = refl
get_or_out (x ∷ xs) zero l = absurd (omega arith)
get_or_out (x ∷ xs) (suc i) l = get_or_out xs i (omega arith)

-- An INTERNAL record of a depth from 1 to the stack's, with a hash other than 0 that the node
-- above it has no edge of yet, keeps the tree well formed and every entry of the stack a node of
-- it, and the node above then leads to the new node; the tree has at most 2^24 nodes.
pub ckpt_internal-IsLoad :
    (s : LoadState) (r : CkptNodeRec)
    → IsLoad s
    → length s.tree.nodes ≤ 2 ^ 24
    → 1 ≤ r.depth
    → r.depth ≤ s.sp
    → r.child_hash ≢ 0
    → ((parent : ℕ)
        → get_or s.stack (r.depth - 1) none ≡ some parent
        → edge_get (node_at s.tree.nodes parent) r.child_hash ≡ none)
    → (parent : ℕ) × (s' : LoadState) × (get_or s.stack (r.depth - 1) none ≡ some parent)
      × (ckpt_internal s r ≡ running s')
      × (edge_get (node_at s'.tree.nodes parent) r.child_hash ≡ some (length s.tree.nodes))
      × IsLoad s'
ckpt_internal-IsLoad s r w ml one le nz absent =
    let (parent, e, l, run) = ckpt_internal-add_child s r w one le in
    let none_yet = absent parent e in
    let t : RadixTree = add_child s.tree parent (r.depth - 1) r.child_hash in
    let edge = add_child_edge s.tree parent (r.depth - 1) r.child_hash ml w.tree l nz none_yet in
    (
      parent,
      push_node s r.depth (length s.tree.nodes) t,
      e,
      run,
      push_tree s r.depth (length s.tree.nodes) parent r.child_hash t edge,
      push-IsLoad s parent r.depth r.child_hash w ml le l nz none_yet,
    )

-- While the tree is well formed and the stack's entries are nodes of it, a leaf record of a
-- depth from 128 on, below 2^31 - 1, ends ckpt_load with -KV_EIO, and an INTERNAL record of a
-- depth from 129 on reads outside the stack, if the stack is not empty.
pub ckpt_too_deep :
    (s : LoadState) (r : CkptNodeRec)
    → IsLoad s
    → r.depth < 2 ^ 31 - 1
    → (128 ≤ r.depth → ckpt_leaf s r ≡ failed (neg kv_eio))
      × (129 ≤ r.depth → 1 ≤ s.sp → ckpt_internal s r ≡ undefined)
unfolding ckpt_leaf ckpt_internal
ckpt_too_deep s r w small =
    let s31 : leb (2 ^ 31) r.depth ≡ false = ground (arith, small) in
    let s31' : leb (2 ^ 31 - 1) r.depth ≡ false = ground (arith, small) in
    (
      λ deep.
          let sp = drop_to_ge s.sp (r.depth + 1) (omega (arith, deep, w.sp)) in
          let low : ltb s.sp (r.depth + 1) ≡ true =
            lt→ltb s.sp (r.depth + 1) (omega (arith, deep, w.sp)) in
          rw (s31', sp, low) refl,
      λ deep one.
          let sp = drop_to_ge s.sp r.depth (omega (arith, deep, w.sp)) in
          let some_sp : (s.sp == 0) ≡ false = ground (arith, one) in
          let out = get_or_out s.stack (r.depth - 1) (omega (arith, deep, w.len)) in
          rw (s31, sp, some_sp, out) refl,
    )
