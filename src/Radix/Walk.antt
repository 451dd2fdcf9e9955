-- ===== src/Radix/Walk.antt =====
-- `radix_walk` of src/radix.cpp, with and without `create`.
use kvtier.Prelude.{
  ℕ, suc, ◌+◌, ◌^◌, ◌<◌, ◌≤◌, ◌≡◌, ◌≢◌, refl, ◌∙◌, ap, sym, subst, true, false, Option, none, some,
  Bool, List, [], ◌∷◌, length, inl, inr, arith, Option-cases, if◌then◌else◌,
}
use kvtier.Radix.{RadixTree, node_at, edge_get, add_child, walk_from, radix_walk}
use kvtier.Radix.Node.{edge_get-some}
use kvtier.Radix.Tree.{IsTree, IsGrowth, IsGrowth-refl, IsGrowth-trans}
use kvtier.Radix.Child.{child_len, add_child-IsTree, add_child-IsGrowth, add_child_edge}

-- a path of hashes, none of them 0
abbrev pub NonZero : List ℕ → Type 0
NonZero [] = Unit
NonZero (h ∷ hs) = (h ≢ 0) × NonZero hs

-- one round
pub walk_step :
    (create : Bool) (k : ℕ) (t : RadixTree) (cur h : ℕ) (hs : List ℕ) (o : Option ℕ)
    → edge_get (node_at t.nodes cur) h ≡ o
    → walk_from create k t cur (h ∷ hs) ≡ elim o [
      | some child ↦ walk_from create (suc k) t child hs
      | none ↦
          if create
          then walk_from create (suc k) (add_child t cur k h) (length t.nodes) hs
          else (t, none)
    ]
unfolding walk_from
walk_step create k t cur h hs o e =
    ap
      (λ (x : Option ℕ). elim x as (λ _. RadixTree × Option ℕ) [
        | some child ↦ walk_from create (suc k) t child hs
        | none ↦
            if create
            then walk_from create (suc k) (add_child t cur k h) (length t.nodes) hs
            else (t, none)
      ])
      e

-- what the loop of `radix_walk` with `create` leaves
record IsWalked (k : ℕ) (t : RadixTree) (cur : ℕ) (hs : List ℕ) (r : RadixTree × Option ℕ)
    : Type 0 where
  id : ℕ
  found : r.1 ≡ some id
  tree : IsTree r.0
  growth : IsGrowth t r.0
  id_lt : id < length r.0.nodes
  len : length r.0.nodes ≤ length t.nodes + length hs
  again : walk_from false k r.0 cur hs ≡ (r.0, some id)

IsWalked-on :
    (k : ℕ) (t u : RadixTree) (cur h c : ℕ) (hs : List ℕ) (r : RadixTree × Option ℕ)
    → IsGrowth t u
    → length u.nodes ≤ suc (length t.nodes)
    → h ≢ 0
    → cur < length u.nodes
    → edge_get (node_at u.nodes cur) h ≡ some c
    → IsWalked (suc k) u c hs r
    → IsWalked k t cur (h ∷ hs) r
IsWalked-on k t u cur h c hs r g l ne cl e w = record {
  id = w.id;
  found = w.found;
  tree = w.tree;
  growth = IsGrowth-trans g w.growth;
  id_lt = w.id_lt;
  len = omega (arith, w.len, l);
  again = walk_step false k r.0 cur h hs (some c) (w.growth.edge cur h c cl ne e) ∙ w.again;
}

walk_from_lem :
    (k : ℕ) (t : RadixTree) (cur : ℕ) (hs : List ℕ)
    → IsTree t
    → cur < length t.nodes
    → NonZero hs
    → length t.nodes + length hs ≤ 2 ^ 24
    → IsWalked k t cur hs (walk_from true k t cur hs)
unfolding walk_from
walk_from_lem k t cur [] w l nz b = record {
  id = cur;
  found = refl;
  tree = w;
  growth = IsGrowth-refl t;
  id_lt = l;
  len = omega arith;
  again = refl;
}
walk_from_lem k t cur (h ∷ hs) w l (ne, nz) b =
    let n = node_at t.nodes cur in
    elim (Option-cases (edge_get n h)) [
      | inr (c, e) ↦
          let node = w.node cur l in
          let (i, ci, lt) =
            node.children h (some c) ne (edge_get-some (length t.nodes) n h c node e) in
          let same : i ≡ c = cc ci in
          subst (IsWalked k t cur (h ∷ hs)) (sym (walk_step true k t cur h hs (some c) e)) (
            IsWalked-on k t t cur h c hs (walk_from true (suc k) t c hs) (IsGrowth-refl t)
              (omega arith) ne l e
              (walk_from_lem (suc k) t c hs w (omega (arith, lt, same)) nz (omega (arith, b))))
      | inl e ↦
          let m = length t.nodes in
          let ml : m ≤ 2 ^ 24 = omega (arith, b) in
          let u = add_child t cur k h in
          let len : length u.nodes ≡ suc m = child_len t cur k h in
          subst (IsWalked k t cur (h ∷ hs)) (sym (walk_step true k t cur h hs none e)) (
            IsWalked-on k t u cur h m hs (walk_from true (suc k) u m hs)
              (add_child-IsGrowth t cur k h ml w l ne e) (omega (arith, len)) ne
              (omega (arith, len, l)) (add_child_edge t cur k h ml w l ne e)
              (walk_from_lem (suc k) u m hs (add_child-IsTree t cur k h ml w l ne e)
                (omega (arith, len)) nz (omega (arith, b, len))))
    ]

walk_from-IsGrowth :
    (k : ℕ) (t u : RadixTree) (cur : ℕ) (hs : List ℕ) (id : ℕ)
    → IsTree t
    → IsGrowth t u
    → cur < length t.nodes
    → NonZero hs
    → (walk_from false k t cur hs).1 ≡ some id
    → walk_from false k u cur hs ≡ (u, some id)
unfolding walk_from
walk_from-IsGrowth k t u cur [] id w g l nz e = ap (λ (x : Option ℕ). (u, x)) e
walk_from-IsGrowth k t u cur (h ∷ hs) id w g l (ne, nz) e =
    let n = node_at t.nodes cur in
    elim (Option-cases (edge_get n h)) [
      | inl f ↦ absurd (
          let e' : none ≡ some id =
            ap (λ (r : RadixTree × Option ℕ). r.1) (sym (walk_step false k t cur h hs none f))
            ∙ e in
          cc e')
      | inr (c, f) ↦
          let node = w.node cur l in
          let (i, ci, lt) =
            node.children h (some c) ne (edge_get-some (length t.nodes) n h c node f) in
          let same : i ≡ c = cc ci in
          let e' : (walk_from false (suc k) t c hs).1 ≡ some id =
            ap (λ (r : RadixTree × Option ℕ). r.1) (sym (walk_step false k t cur h hs (some c) f))
            ∙ e in
          walk_step false k u cur h hs (some c) (g.edge cur h c l ne f)
          ∙ walk_from-IsGrowth (suc k) t u c hs id w g (omega (arith, lt, same)) nz e'
    ]

-- On a well-formed tree and a path without the hash 0, which stay below 2^24 nodes together,
-- radix_walk with create gives a node, the tree stays well formed and has at most a node more
-- for each hash, and a walk without create then finds the same node and changes nothing.
pub radix_walk-radix_walk :
    (t : RadixTree) (hashes : List ℕ)
    → IsTree t
    → NonZero hashes
    → length t.nodes + length hashes ≤ 2 ^ 24
    → (id : ℕ) × ((radix_walk true t hashes).1 ≡ some id)
      × (radix_walk false (radix_walk true t hashes).0 hashes
          ≡ ((radix_walk true t hashes).0, some id))
      × IsTree (radix_walk true t hashes).0
      × (length (radix_walk true t hashes).0.nodes ≤ length t.nodes + length hashes)
unfolding radix_walk
radix_walk-radix_walk t hashes w nz b =
    let r = walk_from_lem 0 t 0 hashes w w.root nz b in (r.id, r.found, r.again, r.tree, r.len)

-- A path that is found in a well-formed tree leads to the same node after any other path is
-- created there, if neither has the hash 0 and the tree stays below 2^24 nodes.
pub radix_walk_old :
    (t : RadixTree) (hashes path : List ℕ) (id : ℕ)
    → IsTree t
    → NonZero hashes
    → NonZero path
    → length t.nodes + length hashes ≤ 2 ^ 24
    → (radix_walk false t path).1 ≡ some id
    → (radix_walk false (radix_walk true t hashes).0 path).1 ≡ some id
unfolding radix_walk
radix_walk_old t hashes path id w nz pz b e =
    let r = walk_from_lem 0 t 0 hashes w w.root nz b in
    ap (λ (x : RadixTree × Option ℕ). x.1)
      (walk_from-IsGrowth 0 t (walk_from true 0 t 0 hashes).0 0 path id w r.growth w.root pz e)
