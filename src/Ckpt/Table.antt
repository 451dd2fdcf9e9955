-- ===== src/Ckpt/Table.antt =====
-- The table that `ckpt_load` of src/journal.cpp gives a full node, against `ovf_migrate`.
use kvtier.Prelude.{
  ℕ, zero, suc, ◌+◌, ◌-◌, ◌^◌, ◌<◌, ◌≤◌, ◌≡◌, refl, ◌∙◌, ap, sym, true, false, some, List, [], ◌∷◌,
  inl, inr, Bool-cases, ◌==◌, ltb, replicate, arith,
}
use kvtier.Common.{u32}
use kvtier.Probing.{probe-fewer}
use kvtier.Radix.{
  RadixEdge, RadixOvf, RadixNode, no_edge, kv_inline_slots, edge_free, edge_deleted, edge_vacant,
  ovf_probe, ovf_place, ovf_fill, ovf_grow, ovf_grown, live_edges, ovf_start,
}
use kvtier.Radix.Edges.{used_slots, used_slots-free, used_slots-live, used_slots-le}
use kvtier.Radix.Table.{edge_at, IsHashed, ovf_probe_lem}
use kvtier.Radix.Node.{IsInline}
use kvtier.Radix.Migrate.{moved}
use kvtier.Ckpt.{ckpt_fill, taken_edges, ckpt_grown}

abbrev Alive : List RadixEdge → Type 0
Alive old = (i : ℕ) → edge_deleted (edge_at old i) ≡ false

fill_same :
    (ncap : ℕ) (fresh : List RadixEdge) (k : ℕ) (old : List RadixEdge)
    → Alive old
    → ckpt_fill ncap fresh k old ≡ ovf_fill ncap fresh k old
unfolding ckpt_fill ovf_fill
fill_same ncap fresh zero old a = refl
fill_same ncap fresh (suc k) old a = elim (Bool-cases (edge_free (edge_at old k))) [
  | inl f ↦ rw f (fill_same ncap fresh k old a)
  | inr f ↦ rw (f, a k) (ap (ovf_place ncap (edge_at old k)) (fill_same ncap fresh k old a))
]

fill_none : (ncap : ℕ) (fresh : List RadixEdge) → ovf_fill ncap fresh 0 [] ≡ fresh
unfolding ovf_fill
fill_none ncap fresh = refl

pub taken_same : (es : List RadixEdge) → Alive es → taken_edges es ≡ live_edges es
unfolding taken_edges live_edges
taken_same [] a = refl
taken_same (e ∷ es) a = elim (Bool-cases (edge_free e)) [
  | inl f ↦ rw f (taken_same es (λ i. a (suc i)))
  | inr f ↦ rw (f, a 0) (ap suc (taken_same es (λ i. a (suc i))))
]

pub grown_same : (o : RadixOvf) → 0 < o.cap_slots → ckpt_grown o ≡ ovf_grown o
unfolding ckpt_grown ovf_grown ovf_grow
grown_same o p = let e : (o.cap_slots == 0) ≡ false = ground (arith, p) in rw e refl

-- in a table without deleted edges the loops for a free and for a vacant slot end together
pub vacant_same :
    (b : ℕ) (slots : List RadixEdge) (h : ℕ)
    → IsHashed b slots
    → used_slots slots < 2 ^ b
    → (i : ℕ) × (ovf_probe edge_free (2 ^ b) h slots ≡ some i)
      × (ovf_probe edge_vacant (2 ^ b) h slots ≡ some i)
      × (edge_free (edge_at slots i) ≡ true)
unfolding ovf_probe
vacant_same b slots h w u =
    let (k, kl, kf) = used_slots-free slots (omega (arith, u, w.len)) in
    let wider : (e : RadixEdge) → edge_free e ≡ true → edge_vacant e ≡ true = λ e f. rw f refl in
    let (i, q, l, s) =
      ovf_probe_lem b slots edge_vacant h w k (omega (arith, kl, w.len))
        (wider (edge_at slots k) kf) in
    let f : edge_free (edge_at slots i) ≡ true = elim (Bool-cases (edge_free (edge_at slots i))) [
      | inl t ↦ t
      | inr t ↦ (let s' : false ≡ true = rw (t, w.alive i) at s in absurd (cc s'))
    ] in
    (
      i,
      probe-fewer no_edge edge_vacant edge_free (2 ^ b) (ovf_start (2 ^ b - 1) h) (2 ^ b - 1) slots
          (λ k. wider (edge_at slots k)) q f,
      q,
      f,
    )

-- the loop that moves the edges gives the table of `ovf_migrate`
pub moved_slots :
    (n : RadixNode)
    → Alive n.slots
    → ckpt_fill 16 (replicate 16 no_edge) kv_inline_slots n.slots ≡ (moved n).slots
unfolding moved
moved_slots n a =
    fill_same 16 (replicate 16 no_edge) kv_inline_slots n.slots a
    ∙ ap (λ (x : List RadixEdge). ovf_fill 16 x kv_inline_slots n.slots)
        (sym (fill_none 16 (replicate 16 no_edge)))

pub moved_few : (n : RadixNode) → IsInline n → live_edges n.slots ≤ 8
moved_few n w = omega (arith, used_slots-live n.slots w.table.alive, used_slots-le n.slots, w.len)

pub moved_grown : (n : RadixNode) → IsInline n → ovf_grown (moved n) ≡ moved n
unfolding ovf_grown moved
moved_grown n w =
    let e : ltb 11 (u32 (0 + live_edges n.slots + 0 + 1)) ≡ false = ground (arith, moved_few n w) in
    rw e refl
