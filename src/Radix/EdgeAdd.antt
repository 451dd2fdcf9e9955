-- ===== src/Radix/EdgeAdd.antt =====
-- `edge_add` and `ovf_migrate` of src/radix.cpp, over both forms of a node.
use kvtier.Prelude.{
  ℕ, suc, ◌^◌, ◌≤◌, ◌≡◌, ◌≢◌, refl, ◌∙◌, ap, sym, subst, Option, none, some, set, length-set, inl,
  inr, arith, Bool-cases, Option-cases, ◌==◌, ==_iff, if◌then◌else◌,
}
use kvtier.Radix.{
  RadixOvf, RadixNode, edge_free, new_edge, first_slot, edge_get, ovf_migrate, ovf_add,
  edge_add_ovf, edge_add, count_edge,
}
use kvtier.Radix.Edges.{first_slot-some}
use kvtier.Radix.Table.{edge_at, Holds, Holds-set, Holds_set_old, Holds_set_new}
use kvtier.Radix.Add.{ovf_add_lem}
use kvtier.Radix.Node.{
  HasEdge, IsInline, IsOverflow, IsNode, IsEdgeAdded, edge_get-some, edge_get_holds, edge_get-none,
  table_set,
}
use kvtier.Radix.Migrate.{moved, migrated, migrate-moved, migrate_lem}

pub add_ovf_step :
    (n : RadixNode) (h child : ℕ) (o : RadixOvf)
    → n.ovf ≡ some o
    → edge_add_ovf n h child ≡ count_edge (record n { ovf = some (ovf_add o h child) })
unfolding edge_add_ovf
add_ovf_step n h child o e =
    ap
      (λ (x : Option RadixOvf). elim x [
        | none ↦ n
        | some y ↦ count_edge (record n { ovf = some (ovf_add y h child) })
      ])
      e

add_ovf_lem :
    (m : ℕ) (n : RadixNode) (h child : ℕ) (o : RadixOvf)
    → m ≤ 2 ^ 24
    → IsOverflow m n o
    → h ≢ 0
    → ((c : Option ℕ) → HasEdge n h c → ⊥)
    → IsEdgeAdded m n h child (edge_add_ovf n h child)
add_ovf_lem m n h child o ml w ne absent =
    let gone : (c : Option ℕ) → Holds o.slots h c → ⊥ = λ c p. absent c (rw (w.flag, w.ovf) p) in
    let a = ovf_add_lem m o h child ml w.table ne gone in
    subst (λ (x : RadixNode). IsEdgeAdded m n h child x) (sym (add_ovf_step n h child o w.ovf))
      (record {
        form = inr (
          ovf_add o h child,
          record { flag = w.flag; slots = w.slots; ovf = refl; table = a.ovf },
        );
        from = λ k c nz p.
            (let p' : Holds (ovf_add o h child).slots k c = rw w.flag at p in
              elim (a.from k c nz p') [ inl q ↦ inl (rw (w.flag, w.ovf) q) | inr q ↦ inr q ]);
        old = λ k c nz p.
            (let p' : Holds o.slots k c = rw (w.flag, w.ovf) at p in rw w.flag (a.old k c nz p'));
        new = rw w.flag a.new;
      })

add_inline_step :
    (n : RadixNode) (h child : ℕ) (o : Option ℕ)
    → n.ovf_flag ≡ 0
    → first_slot edge_free n.slots ≡ o
    → edge_add n h child ≡ elim o [
      | some i ↦ count_edge (record n { slots = set n.slots i (new_edge h child) })
      | none ↦ edge_add_ovf (migrated n) h child
    ]
unfolding edge_add
add_inline_step n h child o e f =
    ap
      (λ (g : ℕ).
        if g == 0
        then (elim (first_slot edge_free n.slots) [
          | some i ↦ count_edge (record n { slots = set n.slots i (new_edge h child) })
          | none ↦ edge_add_ovf (ovf_migrate n) h child
        ])
        else edge_add_ovf n h child)
      e
    ∙ ap
        (λ (x : Option ℕ). elim x [
          | some i ↦ count_edge (record n { slots = set n.slots i (new_edge h child) })
          | none ↦ edge_add_ovf (ovf_migrate n) h child
        ])
        f
    ∙ ap
        (λ (y : RadixNode). elim o [
          | some i ↦ count_edge (record n { slots = set n.slots i (new_edge h child) })
          | none ↦ edge_add_ovf y h child
        ])
        (migrate-moved n)

pub add_overflow_step :
    (n : RadixNode) (h child : ℕ) → n.ovf_flag ≡ 1 → edge_add n h child ≡ edge_add_ovf n h child
unfolding edge_add
add_overflow_step n h child e =
    ap
      (λ (g : ℕ).
        if g == 0
        then (elim (first_slot edge_free n.slots) [
          | some i ↦ count_edge (record n { slots = set n.slots i (new_edge h child) })
          | none ↦ edge_add_ovf (ovf_migrate n) h child
        ])
        else edge_add_ovf n h child)
      e

inline_lem :
    (m : ℕ) (n : RadixNode) (h child i : ℕ)
    → IsInline n
    → h ≢ 0
    → ((c : Option ℕ) → HasEdge n h c → ⊥)
    → first_slot edge_free n.slots ≡ some i
    → IsEdgeAdded m n h child (count_edge (record n { slots = set n.slots i (new_edge h child) }))
inline_lem m n h child i w ne absent f =
    let new = new_edge h child in
    let (l, free) = first_slot-some edge_free n.slots f in
    let gone : (j : ℕ) → (edge_at n.slots j).child_hash ≢ h =
      λ j e. absent (edge_at n.slots j).child (rw w.flag (j, e, refl)) in
    record {
      form = inl (record {
        flag = w.flag;
        ovf = w.ovf;
        len = length-set n.slots i new ∙ w.len;
        table = table_set n.slots h child i w.table l gone;
      });
      from = λ k c nz p.
          (let p' : Holds (set n.slots i new) k c = rw w.flag at p in
            elim (Holds-set n.slots new i k c p') [ inl q ↦ inl (rw w.flag q) | inr q ↦ inr q ]);
      old = λ k c nz p.
          (let p' : Holds n.slots k c = rw w.flag at p in
            rw w.flag (Holds_set_old n.slots new i k c free nz p'));
      new = rw w.flag (Holds_set_new n.slots new i l);
    }

pub edge_add_holds :
    (m : ℕ) (n : RadixNode) (h child : ℕ)
    → m ≤ 2 ^ 24
    → IsNode m n
    → h ≢ 0
    → edge_get n h ≡ none
    → IsEdgeAdded m n h child (edge_add n h child)
edge_add_holds m n h child ml w ne e =
    let absent = edge_get-none m n h w ne e in
    elim w.form [
      | inr (o, v) ↦
          subst (λ (x : RadixNode). IsEdgeAdded m n h child x)
            (sym (add_overflow_step n h child v.flag)) (add_ovf_lem m n h child o ml v ne absent)
      | inl v ↦ elim (Option-cases (first_slot edge_free n.slots)) [
        | inr (i, f) ↦
            subst (λ (x : RadixNode). IsEdgeAdded m n h child x)
              (sym (add_inline_step n h child (some i) v.flag f))
              (inline_lem m n h child i v ne absent f)
        | inl f ↦
            let (ov, same) = migrate_lem m n v in
            let a =
              add_ovf_lem m (migrated n) h child (moved n) ml ov ne
                (λ c p. absent c ((same h c ne).0 p)) in
            subst (λ (x : RadixNode). IsEdgeAdded m n h child x)
              (sym (add_inline_step n h child none v.flag f))
              (record {
                form = a.form;
                from = λ k c nz p. elim (a.from k c nz p) [
                  | inl q ↦ inl ((same k c nz).0 q)
                  | inr q ↦ inr q
                ];
                old = λ k c nz p. a.old k c nz ((same k c nz).1 p);
                new = a.new;
              })
      ]
    ]

-- `edge_add` keeps a node well formed
pub edge_add-IsNode :
    (m : ℕ) (n : RadixNode) (h child : ℕ)
    → m ≤ 2 ^ 24
    → child ≤ m
    → IsNode m n
    → h ≢ 0
    → edge_get n h ≡ none
    → IsNode (suc m) (edge_add n h child)
edge_add-IsNode m n h child ml cl w ne e =
    let a = edge_add_holds m n h child ml w ne e in
    record {
      form = a.form;
      children = λ k c nz p. elim (a.from k c nz p) [
        | inl q ↦ let (i, ei, l) = w.children k c nz q in (i, ei, omega (arith, l))
        | inr (_, q) ↦ (child, sym q, omega (arith, cl))
      ];
    }

-- The edges of a node are a map: after edge_add of an absent hash, edge_get of that hash is the
-- new child, and of every other hash what it was before, across the move to the overflow table
-- and its growth, on a well-formed node of a tree of at most 2^24 nodes, for hashes other than 0
-- and a child that is one of the nodes or the next one.
pub edge_get-edge_add :
    (m : ℕ) (n : RadixNode) (h child k : ℕ)
    → m ≤ 2 ^ 24
    → child ≤ m
    → IsNode m n
    → h ≢ 0
    → k ≢ 0
    → edge_get n h ≡ none
    → edge_get (edge_add n h child) k ≡ (if h == k then some child else edge_get n k)
edge_get-edge_add m n h child k ml cl w ne nk e =
    let a = edge_add_holds m n h child ml w ne e in
    let w' = edge_add-IsNode m n h child ml cl w ne e in
    elim (Bool-cases (h == k)) [
      | inl t ↦
          let at : h ≡ k = (==_iff h k).0 t in
          let new : HasEdge (edge_add n h child) k (some child) =
            subst (λ (x : ℕ). HasEdge (edge_add n h child) x (some child)) at a.new in
          rw t (edge_get_holds (suc m) (edge_add n h child) k (some child) w' nk new)
      | inr f ↦
          let off : h ≢ k = λ at. cc (f, (==_iff h k).1 at) in
          rw f (elim (Option-cases (edge_get n k)) [
            | inr (c, g) ↦
                edge_get_holds (suc m) (edge_add n h child) k (some c) w' nk
                  (a.old k (some c) nk (edge_get-some m n k c w g))
                ∙ sym g
            | inl g ↦ elim (Option-cases (edge_get (edge_add n h child) k)) [
              | inl g' ↦ g' ∙ sym g
              | inr (c, g') ↦
                  elim (a.from k (some c) nk
                    (edge_get-some (suc m) (edge_add n h child) k c w' g')) [
                      | inl q ↦ absurd (edge_get-none m n k w nk g (some c) q)
                      | inr (q, _) ↦ absurd (off q)
                    ]
            ]
          ])
    ]
