-- ===== src/Ckpt/Edges.antt =====
-- The edges that `ckpt_load` of src/journal.cpp puts in, against `edge_add` of src/radix.cpp.
use kvtier.Prelude.{
  ℕ, ◌+◌, ◌^◌, ◌<◌, ◌≡◌, refl, ◌∙◌, ap, sym, true, Option, none, some, Option-cases, List, inl, inr,
  ◌==◌, set, replicate, arith, if◌then◌else◌,
}
use native.Mathlib.Nat.{one-le-pow}
use kvtier.Common.{u32}
use kvtier.Radix.{
  RadixEdge, RadixOvf, RadixNode, no_edge, kv_inline_slots, edge_free, edge_vacant, first_slot,
  ovf_probe, ovf_place, ovf_grown, ovf_write, ovf_add, live_edges, new_edge, count_edge, edge_add,
  edge_add_ovf,
}
use kvtier.Radix.Edges.{used_slots}
use kvtier.Radix.Table.{edge_at}
use kvtier.Radix.Node.{IsInline, IsNode}
use kvtier.Radix.Add.{IsOvf}
use kvtier.Radix.Migrate.{moved, migrated, migrate-moved, moved-IsOvf}
use kvtier.Ckpt.{ckpt_fill, taken_edges, ckpt_migrate, ckpt_ovf_add, ckpt_edge_add}
use kvtier.Radix.EdgeAdd.{add_ovf_step, add_overflow_step}
use kvtier.Ckpt.Table.{taken_same, grown_same, vacant_same, moved_slots, moved_few, moved_grown}

place_at :
    (ncap h child i : ℕ) (ns : List RadixEdge)
    → ovf_probe edge_free ncap h ns ≡ some i
    → ovf_place ncap (new_edge h child) ns ≡ set ns i (new_edge h child)
unfolding ovf_place
place_at ncap h child i ns q = rw (q, ovf_place) refl

write_free :
    (o : RadixOvf) (h child i : ℕ)
    → edge_free (edge_at o.slots i) ≡ true
    → o.n_del ≡ 0
    → ovf_write o i h child ≡ record {
      cap_slots = o.cap_slots;
      used = u32 (o.used + 1);
      n_del = 0;
      slots = set o.slots i (new_edge h child);
    }
unfolding ovf_write
write_free o h child i f d = rw (f, d) refl

abbrev add_to : ℕ → ℕ → RadixOvf → RadixOvf
add_to h child g = elim (ovf_probe edge_vacant g.cap_slots h g.slots) [
  | none ↦ g
  | some i ↦ ovf_write g i h child
]

add_at :
    (o : RadixOvf) (h child i : ℕ)
    → ovf_grown o ≡ o
    → ovf_probe edge_vacant o.cap_slots h o.slots ≡ some i
    → ovf_add o h child ≡ ovf_write o i h child
unfolding ovf_add
add_at o h child i e q =
    let s : add_to h child o ≡ ovf_write o i h child = rw (q, add_to) refl in
    ap (add_to h child) e ∙ s

moved_fields :
    (n : RadixNode)
    → ((moved n).cap_slots ≡ 16) × ((moved n).used ≡ live_edges n.slots) × ((moved n).n_del ≡ 0)
unfolding moved
moved_fields n = (refl, omega arith, refl)

-- the table that the loop makes is the one of `ovf_migrate` and `ovf_add`
table_same :
    (m : ℕ) (n : RadixNode) (h child : ℕ)
    → IsInline n
    → ◌≡◌ {A = RadixOvf}
        (record {
          cap_slots = 16;
          used = u32 (taken_edges n.slots + 1);
          n_del = 0;
          slots =
              ovf_place 16
                (new_edge h child)
                (ckpt_fill 16 (replicate 16 no_edge) kv_inline_slots n.slots);
        })
        (ovf_add (moved n) h child)
table_same m n h child w =
    let v : IsOvf m (moved n) = moved-IsOvf m n w in
    let (cap, used, del) = moved_fields n in
    let bits : 2 ^ v.bits ≡ 16 = sym v.cap_eq ∙ cap in
    let few : used_slots (moved n).slots < 2 ^ v.bits =
      omega (arith, v.used_le, used, moved_few n w, bits) in
    let (i, qf, qv, f) = vacant_same v.bits (moved n).slots h v.hashed few in
    let qf' : ovf_probe edge_free 16 h (moved n).slots ≡ some i = rw bits at qf in
    let qv' : ovf_probe edge_vacant (moved n).cap_slots h (moved n).slots ≡ some i =
      rw (sym v.cap_eq) at qv in
    let a : ovf_add (moved n) h child ≡ ovf_write (moved n) i h child =
      add_at (moved n) h child i (moved_grown n w) qv' in
    rw
      (
        a,
        write_free (moved n) h child i f del,
        moved_slots n w.table.alive,
        place_at 16 h child i (moved n).slots qf',
        taken_same n.slots w.table.alive,
        cap,
        used,
      )
      refl

-- the table of a node that was full, with the new edge
migrate_same :
    (m : ℕ) (n : RadixNode) (h child : ℕ)
    → IsInline n
    → count_edge (ckpt_migrate n h child) ≡ edge_add_ovf (migrated n) h child
unfolding ckpt_migrate edge_add_ovf migrated
migrate_same m n h child w =
    ap
      (λ (o : RadixOvf).
        count_edge
          (record n { ovf_flag = 1; slots = replicate kv_inline_slots no_edge; ovf = some o }))
      (table_same m n h child w)

ovf_add_same :
    (o : RadixOvf) (h child : ℕ) → 0 < o.cap_slots → ckpt_ovf_add o h child ≡ ovf_add o h child
unfolding ckpt_ovf_add ovf_add
ovf_add_same o h child p = ap (add_to h child) (grown_same o p)

overflow_step :
    (n : RadixNode) (h child : ℕ) (o : RadixOvf)
    → n.ovf_flag ≡ 1
    → n.ovf ≡ some o
    → ckpt_edge_add n h child ≡ count_edge (record n { ovf = some (ckpt_ovf_add o h child) })
unfolding ckpt_edge_add
overflow_step n h child o e f =
    ap
      (λ (g : ℕ).
        if g == 0
        then (elim (first_slot edge_free n.slots) [
          | some i ↦ count_edge (record n { slots = set n.slots i (new_edge h child) })
          | none ↦ count_edge (ckpt_migrate n h child)
        ])
        else (elim n.ovf [
          | none ↦ n
          | some x ↦ count_edge (record n { ovf = some (ckpt_ovf_add x h child) })
        ]))
      e
    ∙ ap
        (λ (x : Option RadixOvf). elim x [
          | none ↦ n
          | some y ↦ count_edge (record n { ovf = some (ckpt_ovf_add y h child) })
        ])
        f

inline_same :
    (m : ℕ) (n : RadixNode) (h child : ℕ)
    → IsInline n
    → ckpt_edge_add n h child ≡ edge_add n h child
unfolding ckpt_edge_add edge_add
inline_same m n h child v = elim (Option-cases (first_slot edge_free n.slots)) [
  | inr (i, f) ↦ rw (v.flag, f) refl
  | inl f ↦ rw (v.flag, f, migrate-moved n) (migrate_same m n h child v)
]

-- On a well-formed node, the code of ckpt_load that puts in an edge, with its own move to an
-- overflow table and its own growth, gives the node that edge_add gives.
pub ckpt_edge_add-edge_add :
    (m : ℕ) (n : RadixNode) (h child : ℕ)
    → IsNode m n
    → ckpt_edge_add n h child ≡ edge_add n h child
ckpt_edge_add-edge_add m n h child w = elim w.form [
  | inl v ↦ inline_same m n h child v
  | inr (o, v) ↦
      let p : 0 < o.cap_slots =
        omega (arith, v.table.cap_eq, one-le-pow v.table.bits 2 (omega arith)) in
      overflow_step n h child o v.flag v.ovf
      ∙ ap (λ (x : RadixOvf). count_edge (record n { ovf = some x })) (ovf_add_same o h child p)
      ∙ sym (add_ovf_step n h child o v.ovf)
      ∙ sym (add_overflow_step n h child v.flag)
]
