-- ===== src/Hot/Path.antt =====
-- `hot_check_path` of src/hot.cpp against `radix_walk` of src/radix.cpp.
use kvtier.Prelude.{
  ℕ, suc, ◌<◌, ◌≡◌, ◌≢◌, refl, ◌∙◌, ap, sym, false, Option, none, some, List, [], ◌∷◌,
  if◌then◌else◌, length, inl, inr, ◌↔◌, ◌⊎◌, true, Bool, Bool-cases, ltb, ltb→lt, lt→ltb, ◌||◌,
  Option-cases, replicate, arith, ◌==◌, get_or-replicate,
}
use kvtier.Hot.{hot_child, hot_walk, hot_end, hot_check_path}
use kvtier.Radix.{
  RadixEdge, RadixOvf, RadixNode, RadixTree, no_edge, node_at, kv_inline_slots, edge_is, first_slot,
  edge_find, edge_find_ovf, edge_get, walk_from, radix_walk,
}
use kvtier.Radix.Edges.{first_slot-some, edge_is-hash}
use kvtier.Radix.Table.{edge_at}
use kvtier.Radix.Node.{IsNode, edge_get-some}
use kvtier.Radix.Tree.{IsTree}
use kvtier.Radix.Walk.{NonZero, walk_step}

or_true : (b : Bool) → (b || true) ≡ true
or_true true = refl
or_true false = refl

-- an array without edges has none to find
find_none : (h : ℕ) → h ≢ 0 → edge_find (replicate kv_inline_slots no_edge) h ≡ none
unfolding edge_find
find_none h ne = elim (Option-cases (first_slot (edge_is h) (replicate kv_inline_slots no_edge))) [
  | inl f ↦ rw (f, edge_find) refl
  | inr (i, f) ↦
      let e =
        edge_is-hash h (edge_at (replicate kv_inline_slots no_edge) i)
          (first_slot-some (edge_is h) (replicate kv_inline_slots no_edge) f).1 in
      absurd (
        ne (
          sym e
          ∙ ap (λ (x : RadixEdge). x.child_hash) (get_or-replicate kv_inline_slots i no_edge)))
]

only_first : (x : Option ℕ) → elim x as (λ _. Option ℕ) [ some c ↦ some c | none ↦ none ] ≡ x
only_first none = refl
only_first (some c) = refl

inline_get : (n : RadixNode) (h : ℕ) → n.ovf_flag ≡ 0 → edge_get n h ≡ edge_find n.slots h
unfolding edge_get
inline_get n h e =
    ap
      (λ (f : ℕ).
        if f == 0
        then edge_find n.slots h
        else (elim n.ovf as (λ _. Option ℕ) [ none ↦ none | some o ↦ edge_find_ovf o h ]))
      e

table_get :
    (n : RadixNode) (h : ℕ) (o : RadixOvf)
    → n.ovf_flag ≡ 1
    → n.ovf ≡ some o
    → edge_get n h ≡ edge_find_ovf o h
unfolding edge_get
table_get n h o e f =
    ap
      (λ (g : ℕ).
        if g == 0
        then edge_find n.slots h
        else (elim n.ovf as (λ _. Option ℕ) [ none ↦ none | some y ↦ edge_find_ovf y h ]))
      e
    ∙ ap
        (λ (x : Option RadixOvf). elim x as (λ _. Option ℕ) [
          | none ↦ none
          | some y ↦ edge_find_ovf y h
        ])
        f

table_child :
    (n : RadixNode) (h : ℕ) (o : RadixOvf)
    → edge_find n.slots h ≡ none
    → n.ovf ≡ some o
    → hot_child n h ≡ edge_find_ovf o h
unfolding hot_child
table_child n h o e f =
    ap
      (λ (x : Option ℕ). elim x as (λ _. Option ℕ) [
        | some c ↦ some c
        | none ↦ elim n.ovf [ none ↦ none | some y ↦ edge_find_ovf y h ]
      ])
      e
    ∙ ap
        (λ (x : Option RadixOvf). elim x as (λ _. Option ℕ) [
          | none ↦ none
          | some y ↦ edge_find_ovf y h
        ])
        f

-- the lookup that `hot_check_path` writes out is `edge_get`
pub hot_child_lem :
    (m : ℕ) (n : RadixNode) (h : ℕ) → IsNode m n → h ≢ 0 → hot_child n h ≡ edge_get n h
unfolding hot_child edge_get
hot_child_lem m n h w ne = elim w.form [
  | inr (o, v) ↦
      let first : edge_find n.slots h ≡ none =
        ap (λ (x : List RadixEdge). edge_find x h) v.slots ∙ find_none h ne in
      table_child n h o first v.ovf ∙ sym (table_get n h o v.flag v.ovf)
  | inl v ↦
      ap
        (λ (x : Option RadixOvf). elim (edge_find n.slots h) as (λ _. Option ℕ) [
          | some c ↦ some c
          | none ↦ elim x [ none ↦ none | some o ↦ edge_find_ovf o h ]
        ])
        v.ovf
      ∙ only_first (edge_find n.slots h)
      ∙ sym (inline_get n h v.flag)
]

-- a path without its last hash
abbrev pub front : List ℕ → List ℕ
front [] = []
front (h ∷ []) = []
front (h ∷ k ∷ hs) = h ∷ front (k ∷ hs)

-- the node before the end of a path
abbrev pub before : RadixTree → ℕ → Option ℕ → List ℕ → Option ℕ
before t cur parent [] = parent
before t cur parent (h ∷ hs) = (walk_from false 0 t cur (front (h ∷ hs))).1

abbrev pub found_path : Option ℕ → Option ℕ → Option (ℕ × Option ℕ)
found_path none parent = none
found_path (some i) parent = some (i, parent)

found_at :
    (k : ℕ) (t : RadixTree) (cur h c : ℕ) (hs : List ℕ)
    → edge_get (node_at t.nodes cur) h ≡ some c
    → (walk_from false k t cur (h ∷ hs)).1 ≡ (walk_from false (suc k) t c hs).1
found_at k t cur h c hs e =
    ap (λ (r : RadixTree × Option ℕ). r.1) (walk_step false k t cur h hs (some c) e)

found_none :
    (k : ℕ) (t : RadixTree) (cur h : ℕ) (hs : List ℕ)
    → edge_get (node_at t.nodes cur) h ≡ none
    → (walk_from false k t cur (h ∷ hs)).1 ≡ none
found_none k t cur h hs e =
    ap (λ (r : RadixTree × Option ℕ). r.1) (walk_step false k t cur h hs none e)

-- without `create` the number of the round does not matter
any_round :
    (k j : ℕ) (t : RadixTree) (cur : ℕ) (hs : List ℕ)
    → (walk_from false k t cur hs).1 ≡ (walk_from false j t cur hs).1
unfolding walk_from
any_round k j t cur [] = refl
any_round k j t cur (h ∷ hs) = elim (Option-cases (edge_get (node_at t.nodes cur) h)) [
  | inl e ↦ found_none k t cur h hs e ∙ sym (found_none j t cur h hs e)
  | inr (c, e) ↦
      found_at k t cur h c hs e ∙ any_round (suc k) (suc j) t c hs ∙ sym (found_at j t cur h c hs e)
]

hot_step :
    (t : RadixTree) (cur h : ℕ) (parent : Option ℕ) (hs : List ℕ) (o : Option ℕ)
    → hot_child (node_at t.nodes cur) h ≡ o
    → hot_walk t.nodes cur parent (h ∷ hs)
      ≡ elim o [ none ↦ none | some child ↦ hot_walk t.nodes child (some cur) hs ]
unfolding hot_walk
hot_step t cur h parent hs o e =
    ap
      (λ (x : Option ℕ). elim x as (λ _. Option (ℕ × Option ℕ)) [
        | none ↦ none
        | some child ↦ hot_walk t.nodes child (some cur) hs
      ])
      e

before_next :
    (t : RadixTree) (cur h c : ℕ) (parent : Option ℕ) (hs : List ℕ)
    → edge_get (node_at t.nodes cur) h ≡ some c
    → before t c (some cur) hs ≡ before t cur parent (h ∷ hs)
unfolding walk_from
before_next t cur h c parent [] e = refl
before_next t cur h c parent (k ∷ hs) e =
    any_round 0 1 t c (front (k ∷ hs)) ∙ sym (found_at 0 t cur h c (front (k ∷ hs)) e)

hot_walk_lem :
    (t : RadixTree) (cur : ℕ) (parent : Option ℕ) (hs : List ℕ)
    → IsTree t
    → cur < length t.nodes
    → NonZero hs
    → hot_walk t.nodes cur parent hs
      ≡ found_path (walk_from false 0 t cur hs).1 (before t cur parent hs)
unfolding hot_walk walk_from
hot_walk_lem t cur parent [] w l nz = refl
hot_walk_lem t cur parent (h ∷ hs) w l (ne, nz) =
    let n = node_at t.nodes cur in
    let node = w.node cur l in
    let same = hot_child_lem (length t.nodes) n h node ne in
    elim (Option-cases (edge_get n h)) [
      | inl e ↦
          hot_step t cur h parent hs none (same ∙ e)
          ∙ ap (λ (x : Option ℕ). found_path x (before t cur parent (h ∷ hs)))
              (sym (found_none 0 t cur h hs e))
      | inr (c, e) ↦
          let (i, ci, lt) =
            node.children h (some c) ne (edge_get-some (length t.nodes) n h c node e) in
          let at : i ≡ c = cc ci in
          hot_step t cur h parent hs (some c) (same ∙ e)
          ∙ hot_walk_lem t c (some cur) hs w (omega (arith, at, lt)) nz
          ∙ ap (found_path (walk_from false 0 t c hs).1) (before_next t cur h c parent hs e)
          ∙ ap (λ (x : Option ℕ). found_path x (before t cur parent (h ∷ hs)))
              (any_round 0 1 t c hs ∙ sym (found_at 0 t cur h c hs e))
    ]

-- where the path without its last hash leads to
abbrev pub parent_of : RadixTree → List ℕ → Option ℕ
parent_of t [] = none
parent_of t (h ∷ hs) = (radix_walk false t (front (h ∷ hs))).1

hot_check_path-walk :
    (t : RadixTree) (hashes : List ℕ) (threshold : ℕ)
    → IsTree t
    → NonZero hashes
    → hot_check_path t hashes threshold
      ≡ hot_end t.nodes threshold (found_path (radix_walk false t hashes).1 (parent_of t hashes))
unfolding hot_check_path radix_walk
hot_check_path-walk t [] threshold w nz =
    ap (hot_end t.nodes threshold) (hot_walk_lem t 0 none [] w w.root nz)
hot_check_path-walk t (h ∷ hs) threshold w nz =
    ap (hot_end t.nodes threshold) (hot_walk_lem t 0 none (h ∷ hs) w w.root nz)

-- the hit count of a node that is there is above the threshold
abbrev pub IsAbove : RadixTree → ℕ → Option ℕ → Type 0
IsAbove t threshold o = (i : ℕ) × (o ≡ some i) × (threshold < (node_at t.nodes i).hit_count)

-- the path leads to a node, and its count or that of its parent is above the threshold
abbrev pub IsHotPath : RadixTree → ℕ → Option ℕ → Option ℕ → Type 0
IsHotPath t threshold found parent =
    (i : ℕ) × (found ≡ some i)
    × ((threshold < (node_at t.nodes i).hit_count) ⊎ IsAbove t threshold parent)

hot_end-IsHotPath :
    (t : RadixTree) (threshold : ℕ) (found parent : Option ℕ)
    → (hot_end t.nodes threshold (found_path found parent) ≡ true)
      ↔ IsHotPath t threshold found parent
hot_end-IsHotPath t threshold none parent = (λ e. absurd (cc e), λ (i, e, above). absurd (cc e))
hot_end-IsHotPath t threshold (some i) none = (
  λ e. (i, refl, inl (ground (arith, e))),
  λ (j, e, above).
      (let at : i ≡ j = cc e in
        elim above [ inl l ↦ rw at (ground (arith, l)) | inr (k, f, l) ↦ absurd (cc f) ]),
)
hot_end-IsHotPath t threshold (some i) (some p) = (
  λ e. elim (Bool-cases (ltb threshold (node_at t.nodes i).hit_count)) [
    | inl c ↦ (i, refl, inl (ltb→lt _ _ c))
    | inr c ↦ (i, refl, inr (p, refl, ltb→lt _ _ (rw c at e)))
  ],
  λ (j, e, above).
      (let at : i ≡ j = cc e in
        elim above [
          | inl l ↦ (let c = lt→ltb threshold (node_at t.nodes j).hit_count l in rw (at, c) refl)
          | inr (k, f, l) ↦
              let at' : p ≡ k = cc f in
              let c = lt→ltb threshold (node_at t.nodes k).hit_count l in
              rw (at', c) (or_true (ltb threshold (node_at t.nodes i).hit_count))
        ]),
)

-- On a well-formed tree and a path without the hash 0, hot_check_path answers true exactly when
-- radix_walk without create finds a node for the path, and the hit count of that node, or of the
-- node that radix_walk finds for the path without its last hash, is greater than the threshold;
-- the empty path has no second node.
pub hot_check_path_lem :
    (t : RadixTree) (hashes : List ℕ) (threshold : ℕ)
    → IsTree t
    → NonZero hashes
    → (hot_check_path t hashes threshold ≡ true)
      ↔ IsHotPath t threshold (radix_walk false t hashes).1 (parent_of t hashes)
hot_check_path_lem t hashes threshold w nz =
    rw (hot_check_path-walk t hashes threshold w nz)
      (hot_end-IsHotPath t threshold (radix_walk false t hashes).1 (parent_of t hashes))
