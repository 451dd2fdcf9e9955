-- ===== src/Radix/Parent.antt =====
-- `edge_add` of src/radix.cpp leaves the node's parent alone.
use kvtier.Prelude.{ℕ, ◌≡◌, refl, Option, none, some, set, inl, inr, Bool-cases, ◌==◌}
use kvtier.Radix.{
  RadixOvf, RadixNode, edge_free, new_edge, first_slot, ovf_migrate, ovf_add, edge_add_ovf,
  edge_add, count_edge,
}

add_ovf_parent :
    (n : RadixNode) (h child : ℕ) (x : Option RadixOvf)
    → (elim x as (λ _. RadixNode) [
      | none ↦ n
      | some o ↦ count_edge (record n { ovf = some (ovf_add o h child) })
    ]).parent
      ≡ n.parent
add_ovf_parent n h child none = refl
add_ovf_parent n h child (some o) = refl

edge_add_ovf-parent : (n : RadixNode) (h child : ℕ) → (edge_add_ovf n h child).parent ≡ n.parent
unfolding edge_add_ovf
edge_add_ovf-parent n h child = add_ovf_parent n h child n.ovf

add_slot_parent :
    (n : RadixNode) (h child : ℕ) (x : Option ℕ)
    → (elim x as (λ _. RadixNode) [
      | some i ↦ count_edge (record n { slots = set n.slots i (new_edge h child) })
      | none ↦ edge_add_ovf (ovf_migrate n) h child
    ]).parent
      ≡ n.parent
unfolding ovf_migrate
add_slot_parent n h child (some i) = refl
add_slot_parent n h child none = edge_add_ovf-parent (ovf_migrate n) h child

-- the parent of a node stays
pub edge_add-parent : (n : RadixNode) (h child : ℕ) → (edge_add n h child).parent ≡ n.parent
unfolding edge_add
edge_add-parent n h child = elim (Bool-cases (n.ovf_flag == 0)) [
  | inl t ↦ rw t (add_slot_parent n h child (first_slot edge_free n.slots))
  | inr t ↦ rw t (edge_add_ovf-parent n h child)
]
