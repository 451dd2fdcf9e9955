-- ===== src/Radix/Node.antt =====
-- `edge_get`, `edge_add` and `ovf_migrate` of src/radix.cpp, over both forms of a node.
use kvtier.Prelude.{
  ℕ, suc, ◌-◌, ◌<◌, ◌≡◌, ◌≢◌, refl, ◌∙◌, ap, sym, subst, false, Option, none, some, List, [],
  length, set, replicate, ◌⊎◌, inl, inr, Bool-cases, Option-cases, ◌==◌, if◌then◌else◌, ℕ_discrete,
  get_or-set_self, get_or-set_ne,
}
use kvtier.Probing.{probe-stop}
use kvtier.Radix.{
  RadixEdge, RadixOvf, RadixNode, no_edge, edge_is, edge_deleted, ovf_stops, ovf_start, ovf_probe,
  new_edge, kv_inline_slots, first_slot, edge_find, edge_find_ovf, edge_get,
}
use kvtier.Radix.Edges.{
  first_slot-some, first_slot-none, edge_is-hash, edge_is_self, ovf_stops-cases,
}
use kvtier.Radix.Table.{edge_at, Holds}
use kvtier.Radix.Overflow.{IsTable, edge_find_ovf_holds, edge_find_ovf-some}
use kvtier.Radix.Add.{IsOvf}

-- the slots that a node keeps its edges in
abbrev pub node_slots : RadixNode → List RadixEdge
node_slots n = if n.ovf_flag == 0 then n.slots else elim n.ovf [ none ↦ [] | some o ↦ o.slots ]

-- a node has an edge of the hash `h` to `c`
abbrev pub HasEdge : RadixNode → ℕ → Option ℕ → Type 0
HasEdge n h c = Holds (node_slots n) h c

pub record IsInline (n : RadixNode) : Type 0 where
  pub flag : n.ovf_flag ≡ 0
  pub ovf : n.ovf ≡ none
  pub len : length n.slots ≡ kv_inline_slots
  pub table : IsTable n.slots

pub record IsOverflow (m : ℕ) (n : RadixNode) (o : RadixOvf) : Type 0 where
  pub flag : n.ovf_flag ≡ 1
  pub slots : n.slots ≡ replicate kv_inline_slots no_edge
  pub ovf : n.ovf ≡ some o
  pub table : IsOvf m o

-- a node the program keeps, in a tree of `m` nodes
pub record IsNode (m : ℕ) (n : RadixNode) : Type 0 where
  pub form : IsInline n ⊎ ((o : RadixOvf) × IsOverflow m n o)
  pub children : (h : ℕ) (c : Option ℕ) → h ≢ 0 → HasEdge n h c → (i : ℕ) × (c ≡ some i) × (i < m)

find_some : (slots : List RadixEdge) (h c : ℕ) → edge_find slots h ≡ some c → Holds slots h (some c)
unfolding edge_find
find_some slots h c e = elim (Option-cases (first_slot (edge_is h) slots)) [
  | inl f ↦ absurd (let e' : none ≡ some c = rw (f, edge_find) at e in cc e')
  | inr (i, f) ↦
      let e' : (edge_at slots i).child ≡ some c = rw (f, edge_find) at e in
      (i, edge_is-hash h (edge_at slots i) (first_slot-some (edge_is h) slots f).1, e')
]

find_holds :
    (slots : List RadixEdge) (h : ℕ) (c : Option ℕ)
    → IsTable slots
    → h ≢ 0
    → Holds slots h c
    → edge_find slots h ≡ c
unfolding edge_find
find_holds slots h c w ne (j, eh, ec) = elim (Option-cases (first_slot (edge_is h) slots)) [
  | inl f ↦
      let no =
        first_slot-none (edge_is h) slots f
          (elim (Bool-cases (edge_is h no_edge)) [
            | inl t ↦ absurd (ne (sym (edge_is-hash h no_edge t)))
            | inr t ↦ t
          ])
          j in
      let yes' = edge_is_self h (edge_at slots j) eh (w.alive j) in absurd (cc (yes', no))
  | inr (i, f) ↦
      let hi = edge_is-hash h (edge_at slots i) (first_slot-some (edge_is h) slots f).1 in
      let same : i ≡ j = w.unique i j (hi ∙ sym eh) (λ z. ne (sym eh ∙ z)) in
      rw (f, edge_find) (ap (λ (k : ℕ). (edge_at slots k).child) same ∙ ec)
]

ovf_some : (m : ℕ) (o : RadixOvf) (h c : ℕ) → edge_find_ovf o h ≡ some c → Holds o.slots h (some c)
unfolding ovf_probe
ovf_some m o h c e =
    let (i, f, g, ec) = edge_find_ovf-some o h c e in
    let s =
      probe-stop no_edge (ovf_stops h) o.cap_slots (ovf_start (o.cap_slots - 1) h) (o.cap_slots - 1)
        o.slots f in
    elim (ovf_stops-cases h (edge_at o.slots i) s) [
      | inl t ↦ absurd (cc (t, g))
      | inr eh ↦ (i, eh, ec)
    ]

pub edge_get-some :
    (m : ℕ) (n : RadixNode) (h c : ℕ) → IsNode m n → edge_get n h ≡ some c → HasEdge n h (some c)
unfolding edge_get
edge_get-some m n h c w e = elim w.form [
  | inl v ↦
      let e' : edge_find n.slots h ≡ some c = rw (v.flag, edge_get) at e in
      rw v.flag (find_some n.slots h c e')
  | inr (o, v) ↦
      let e' : edge_find_ovf o h ≡ some c = rw (v.flag, v.ovf, edge_get) at e in
      rw (v.flag, v.ovf) (ovf_some m o h c e')
]

pub edge_get_holds :
    (m : ℕ) (n : RadixNode) (h : ℕ) (c : Option ℕ)
    → IsNode m n
    → h ≢ 0
    → HasEdge n h c
    → edge_get n h ≡ c
unfolding edge_get
edge_get_holds m n h c w ne p = elim w.form [
  | inl v ↦
      let p' : Holds n.slots h c = rw v.flag at p in
      rw (v.flag, edge_get) (find_holds n.slots h c v.table ne p')
  | inr (o, v) ↦
      let p' : Holds o.slots h c = rw (v.flag, v.ovf) at p in
      rw (v.flag, v.ovf, edge_get)
        (edge_find_ovf_holds v.table.bits o h c v.table.hashed v.table.cap_eq ne p')
]

pub edge_get-none :
    (m : ℕ) (n : RadixNode) (h : ℕ)
    → IsNode m n
    → h ≢ 0
    → edge_get n h ≡ none
    → (c : Option ℕ) → HasEdge n h c
    → ⊥
edge_get-none m n h w ne e c p =
    let (i, ci, _) = w.children h c ne p in let f = edge_get_holds m n h c w ne p in cc (f, e, ci)

-- what `edge_add` leaves
pub record IsEdgeAdded (m : ℕ) (n : RadixNode) (h child : ℕ) (a : RadixNode) : Type 0 where
  pub form : IsInline a ⊎ ((o : RadixOvf) × IsOverflow (suc m) a o)
  pub from :
      (k : ℕ) (c : Option ℕ) → k ≢ 0 → HasEdge a k c → HasEdge n k c ⊎ ((h ≡ k) × (some child ≡ c))
  pub old : (k : ℕ) (c : Option ℕ) → k ≢ 0 → HasEdge n k c → HasEdge a k c
  pub new : HasEdge a h (some child)

-- an edge of a new hash is put in
pub table_set :
    (slots : List RadixEdge) (h child i : ℕ)
    → IsTable slots
    → i < length slots
    → ((j : ℕ) → (edge_at slots j).child_hash ≢ h)
    → IsTable (set slots i (new_edge h child))
table_set slots h child i w l absent =
    let new = new_edge h child in
    let own : edge_at (set slots i new) i ≡ new = get_or-set_self slots i new no_edge l in
    let other : (j : ℕ) → i ≢ j → edge_at (set slots i new) j ≡ edge_at slots j =
      λ j e. get_or-set_ne slots i j new no_edge e in
    record {
      alive = λ j. elim (ℕ_discrete i j) [
        | yes e ↦
            subst (λ (k : ℕ). edge_deleted (edge_at (set slots i new) k) ≡ false) e (rw own refl)
        | no e ↦ rw (other j e) (w.alive j)
      ];
      unique = λ j k e n. elim (ℕ_discrete i j) [
        | yes a ↦ elim (ℕ_discrete i k) [
          | yes b ↦ sym a ∙ b
          | no b ↦
              let hj : (edge_at (set slots i new) j).child_hash ≡ h =
                subst (λ (x : ℕ). (edge_at (set slots i new) x).child_hash ≡ h) a (rw own refl) in
              absurd
                (absent k (ap (λ (x : RadixEdge). x.child_hash) (sym (other k b)) ∙ sym e ∙ hj))
        ]
        | no a ↦ elim (ℕ_discrete i k) [
          | yes b ↦
              let hk : (edge_at (set slots i new) k).child_hash ≡ h =
                subst (λ (x : ℕ). (edge_at (set slots i new) x).child_hash ≡ h) b (rw own refl) in
              absurd (absent j (ap (λ (x : RadixEdge). x.child_hash) (sym (other j a)) ∙ e ∙ hk))
          | no b ↦
              let ej = ap (λ (x : RadixEdge). x.child_hash) (other j a) in
              let ek = ap (λ (x : RadixEdge). x.child_hash) (other k b) in
              w.unique j k (sym ej ∙ e ∙ ek) (λ z. n (ek ∙ z))
        ]
      ];
    }
