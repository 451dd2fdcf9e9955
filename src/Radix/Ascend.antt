-- ===== src/Radix/Ascend.antt =====
-- `radix_hit_ascend` of src/radix.cpp.
use kvtier.Prelude.{
  ℕ, zero, suc, ◌+◌, ◌<◌, ◌≤◌, ◌≡◌, ◌≢◌, refl, ◌∙◌, ap, sym, subst, Option, none, some, List,
  length, set, ◌⊎◌, inl, inr, arith, length-set, ℕ_discrete, get_or-set_self, get_or-set_ne,
}
use kvtier.Common.{u32}
use kvtier.Radix.{RadixNode, RadixTree, node_new, node_at}
use kvtier.Radix.Visit.{hit_ascend, radix_hit_ascend}
use kvtier.Radix.Tree.{IsTree}

-- the node `j` is the node `i` or above it
pub data Above (nodes : List RadixNode) : ℕ → ℕ → Type 0 where
  here : {i j : ℕ} → i ≡ j → Above nodes i j
  up : {i j : ℕ} (p : ℕ) → (node_at nodes i).parent ≡ some p → Above nodes p j → Above nodes i j

-- a parent comes before its node
Rooted : List RadixNode → Type 0
Rooted nodes =
    (i : ℕ)
    → i < length nodes
    → ((node_at nodes i).parent ≡ none) ⊎ ((p : ℕ) × ((node_at nodes i).parent ≡ some p) × (p < i))

abbrev pub hit_by : ℕ → RadixNode → RadixNode
hit_by inc n = record n { hit_count = u32 (n.hit_count + inc) }

module _ (nodes : List RadixNode) (i inc : ℕ) (l : i < length nodes) where
  after : List RadixNode
  after = set nodes i (hit_by inc (node_at nodes i))

  after_self : node_at after i ≡ hit_by inc (node_at nodes i)
  unfolding after
  after_self = get_or-set_self nodes i (hit_by inc (node_at nodes i)) (node_new 0) l

  after_other : (j : ℕ) → i ≢ j → node_at after j ≡ node_at nodes j
  unfolding after
  after_other j ne = get_or-set_ne nodes i j (hit_by inc (node_at nodes i)) (node_new 0) ne

  after_len : length after ≡ length nodes
  unfolding after
  after_len = length-set nodes i (hit_by inc (node_at nodes i))

  after_parent : (j : ℕ) → (node_at after j).parent ≡ (node_at nodes j).parent
  after_parent j = elim (ℕ_discrete i j) [
    | yes e ↦
        subst (λ (x : ℕ). (node_at after x).parent ≡ (node_at nodes x).parent) e
          (ap (λ (x : RadixNode). x.parent) after_self)
    | no e ↦ ap (λ (x : RadixNode). x.parent) (after_other j e)
  ]

  after-Rooted : Rooted nodes → Rooted after
  unfolding Rooted
  after-Rooted w j jl = rw (after_parent j) (w j (omega (arith, jl, after_len)))

Above-same :
    (a b : List RadixNode) {i j : ℕ}
    → ((k : ℕ) → (node_at a k).parent ≡ (node_at b k).parent)
    → Above a i j
    → Above b i j
Above-same a b s (here e) = here e
Above-same a b {i = i} s (up p e q) = up p (sym (s i) ∙ e) (Above-same a b s q)

Above-le :
    (nodes : List RadixNode) {i j : ℕ} → Rooted nodes → i < length nodes → Above nodes i j → j ≤ i
unfolding Rooted
Above-le nodes w l (here e) = omega (arith, e)
Above-le nodes {i = i} w l (up p e q) = elim (w i l) [
  | inl none_eq ↦ absurd (cc (none_eq, e))
  | inr (p', e', lt) ↦
      let same : p' ≡ p = (let s : some p' ≡ some p = sym e' ∙ e in cc s) in
      omega (arith, same, lt, Above-le nodes w (omega (arith, l, same, lt)) q)
]

-- what the loop leaves
record IsAscended (nodes : List RadixNode) (i inc : ℕ) (r : List RadixNode) : Type 0 where
  len : length r ≡ length nodes
  above : (j : ℕ) → Above nodes i j → node_at r j ≡ hit_by inc (node_at nodes j)
  other : (j : ℕ) → (Above nodes i j → ⊥) → node_at r j ≡ node_at nodes j

ascend_root :
    (nodes : List RadixNode) (i inc : ℕ) (l : i < length nodes)
    → (node_at nodes i).parent ≡ none
    → IsAscended nodes i inc (after nodes i inc l)
ascend_root nodes i inc l e = record {
  len = after_len nodes i inc l;
  above = λ j a. elim a [
    | here q ↦
        subst (λ (x : ℕ). node_at (after nodes i inc l) x ≡ hit_by inc (node_at nodes x)) q
          (after_self nodes i inc l)
    | up p q _ ↦ absurd (cc (e, q))
  ];
  other = λ j n. after_other nodes i inc l j (λ q. n (here q));
}

ascend_up :
    (nodes : List RadixNode) (i p inc : ℕ) (l : i < length nodes) (r : List RadixNode)
    → Rooted nodes
    → (node_at nodes i).parent ≡ some p
    → p < i
    → IsAscended (after nodes i inc l) p inc r
    → IsAscended nodes i inc r
ascend_up nodes i p inc l r rooted e lt w =
    let mid = after nodes i inc l in
    let off : (j : ℕ) → Above nodes p j → i ≢ j =
      λ j a q. omega (arith, q, lt, Above-le nodes rooted (omega (arith, l, lt)) a) in
    let from : (j : ℕ) → Above mid p j → Above nodes p j =
      λ j a. Above-same mid nodes (after_parent nodes i inc l) a in
    let to : (j : ℕ) → Above nodes p j → Above mid p j =
      λ j a. Above-same nodes mid (λ k. sym (after_parent nodes i inc l k)) a in
    record {
      len = w.len ∙ after_len nodes i inc l;
      above = λ j a. elim a [
        | here q ↦
            subst (λ (x : ℕ). node_at r x ≡ hit_by inc (node_at nodes x)) q
              (w.other i (λ b. off i (from i b) refl) ∙ after_self nodes i inc l)
        | up p' q b ↦
            let same : p' ≡ p = (let s : some p' ≡ some p = sym q ∙ e in cc s) in
            let b' : Above nodes p j = subst (λ (x : ℕ). Above nodes x j) same b in
            w.above j (to j b') ∙ ap (hit_by inc) (after_other nodes i inc l j (off j b'))
      ];
      other = λ j n.
          w.other j (λ b. n (up p e (from j b))) ∙ after_other nodes i inc l j (λ q. n (here q));
    }

hit_ascend_lem :
    (fuel inc : ℕ) (nodes : List RadixNode) (i : ℕ)
    → Rooted nodes
    → i < length nodes
    → i < fuel
    → (r : List RadixNode) × (hit_ascend fuel inc nodes (some i) ≡ some r)
      × IsAscended nodes i inc r
unfolding hit_ascend after Rooted
hit_ascend_lem zero inc nodes i w l f = absurd (omega (arith, f))
hit_ascend_lem (suc fuel) inc nodes i w l f = elim (w i l) [
  | inl e ↦ (
    after nodes i inc l,
    ap (λ (x : Option ℕ). hit_ascend fuel inc (after nodes i inc l) x) e,
    ascend_root nodes i inc l e,
  )
  | inr (p, e, lt) ↦
      let mid = after nodes i inc l in
      let (r, q, a) =
        hit_ascend_lem fuel inc mid p (after-Rooted nodes i inc l w)
          (omega (arith, lt, l, after_len nodes i inc l)) (omega (arith, lt, f)) in
      (
        r,
        ap (λ (x : Option ℕ). hit_ascend fuel inc mid x) e ∙ q,
        ascend_up nodes i p inc l r w e lt a,
      )
]

-- On a well-formed tree, radix_hit_ascend reaches the root within as many rounds as there are
-- nodes; it adds inc, modulo 2^32, to the hit count of the node and of each node above it, once,
-- and changes nothing else.
pub radix_hit_ascend_lem :
    (t : RadixTree) (i inc : ℕ)
    → IsTree t
    → i < length t.nodes
    → (u : RadixTree) × (radix_hit_ascend t (some i) inc ≡ some u)
      × ((j : ℕ) → Above t.nodes i j → node_at u.nodes j ≡ hit_by inc (node_at t.nodes j))
      × ((j : ℕ) → (Above t.nodes i j → ⊥) → node_at u.nodes j ≡ node_at t.nodes j)
unfolding radix_hit_ascend Rooted
radix_hit_ascend_lem t i inc w l =
    let (r, e, a) = hit_ascend_lem (length t.nodes) inc t.nodes i w.up l l in
    (record t { nodes = r }, rw (e, radix_hit_ascend) refl, a.above, a.other)
