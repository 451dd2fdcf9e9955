-- ===== src/Radix/Overflow.antt =====
-- The overflow table of a node in src/radix.cpp: `edge_find_ovf`, `ovf_grow` and `ovf_migrate`.
use kvtier.Prelude.{
  ℕ_discrete, ◌∷◌, ℕ, zero, suc, ◌^◌, ◌<◌, ◌≤◌, ◌≡◌, ◌≢◌, refl, ◌∙◌, ap, sym, subst, true, false,
  Option, none, some, List, [], length, set, take, replicate, inl, inr, arith, Bool-cases,
  Option-cases, ◌↔◌,
}
use kvtier.Radix.{
  RadixEdge, RadixOvf, no_edge, edge_free, edge_live, edge_deleted, ovf_stops, ovf_probe, ovf_place,
  ovf_fill, edge_find_ovf,
}
use kvtier.Radix.Edges.{
  edge_free-hash, edge_free_hash, edge_free-false, used_slots, used_slots-set, used_slots-take_le,
  used_slots-take-suc, used_slots-take_more, used_slots-replicate,
}
use kvtier.Radix.Table.{
  edge_at, Holds, IsHashed, IsHashed-replicate, IsHashed-unique, IsHashed-set, vacant_slot,
  Holds-set, Holds_set_old, Holds_set_new,
}

-- the edges of an array: none deleted, and their hashes differ
pub record IsTable (slots : List RadixEdge) : Type 0 where
  pub alive : (i : ℕ) → edge_deleted (edge_at slots i) ≡ false
  pub unique :
      (i j : ℕ)
      → (edge_at slots i).child_hash ≡ (edge_at slots j).child_hash
      → (edge_at slots j).child_hash ≢ 0
      → i ≡ j

pub IsHashed-table : {b : ℕ} {slots : List RadixEdge} → IsHashed b slots → IsTable slots
IsHashed-table w = record { alive = w.alive; unique = IsHashed-unique w }

-- the table `ns` has the edges of the first `n` slots of `old`, and no others
pub record IsCopy (b n : ℕ) (old ns : List RadixEdge) : Type 0 where
  pub hashed : IsHashed b ns
  pub used : used_slots ns ≤ used_slots (take n old)
  pub held :
      (h : ℕ) (c : Option ℕ)
      → h ≢ 0
      → Holds ns h c
      → (j : ℕ) × (j < n) × ((edge_at old j).child_hash ≡ h) × ((edge_at old j).child ≡ c)
  pub kept :
      (j : ℕ)
      → j < n
      → (edge_at old j).child_hash ≢ 0
      → Holds ns (edge_at old j).child_hash (edge_at old j).child

no_edge_hash : (b j : ℕ) → (edge_at (replicate b no_edge) j).child_hash ≡ 0
no_edge_hash zero j = refl
no_edge_hash (suc b) zero = refl
no_edge_hash (suc b) (suc j) = no_edge_hash b j

IsCopy-replicate :
    (b : ℕ) (old : List RadixEdge) → b ≤ 31 → IsCopy b 0 old (replicate (2 ^ b) no_edge)
IsCopy-replicate b old l = record {
  hashed = IsHashed-replicate b l;
  used = rw (used_slots-replicate (2 ^ b)) (omega arith);
  held = λ h c n (j, eh, ec). absurd (n (sym eh ∙ no_edge_hash (2 ^ b) j));
  kept = λ j l' n. absurd (omega (arith, l'));
}

-- one more slot, when it is free
IsCopy-skip :
    {b n : ℕ} {old ns : List RadixEdge}
    → IsCopy b n old ns
    → (edge_at old n).child_hash ≡ 0
    → IsCopy b (suc n) old ns
IsCopy-skip {b = b} {n = n} {old = old} {ns = ns} w z = record {
  hashed = w.hashed;
  used = omega (arith, w.used, used_slots-take_more n old);
  held = λ h c ne p. let (j, l, eh, ec) = w.held h c ne p in (j, omega (arith, l), eh, ec);
  kept = λ j l ne. elim (ℕ_discrete j n) [
    | yes e ↦ absurd (ne (ap (λ (k : ℕ). (edge_at old k).child_hash) e ∙ z))
    | no e ↦ w.kept j (ground (arith, l, e)) ne
  ];
}

-- one more slot, when it has an edge
IsCopy-place :
    {b n : ℕ} {old ns : List RadixEdge}
    → IsCopy b n old ns
    → IsTable old
    → n < 2 ^ b
    → (edge_at old n).child_hash ≢ 0
    → IsCopy b (suc n) old (ovf_place (2 ^ b) (edge_at old n) ns)
unfolding ovf_place
IsCopy-place {b = b} {n = n} {old = old} {ns = ns} w table l nz =
    let new = edge_at old n in
    let absent : (j : ℕ) → (edge_at ns j).child_hash ≢ new.child_hash = λ j e.
      let (k, kl, kh, _) = w.held new.child_hash (edge_at ns j).child nz (j, e, refl) in
      let same = table.unique k n kh nz in omega (arith, same, kl) in
    let (i, f, s, il, free) =
      vacant_slot b ns new.child_hash w.hashed (omega (arith, w.used, used_slots-take_le n old, l))
        absent in
    rw (f, ovf_place)
      (record {
        hashed = IsHashed-set b ns new i w.hashed s il free (table.alive n);
        used = omega (
          arith,
          used_slots-set ns i new,
          w.used,
          used_slots-take-suc n old (edge_free-false new nz),
        );
        held = λ h c ne p. elim (Holds-set ns new i h c p) [
          | inl q ↦ let (j, jl, eh, ec) = w.held h c ne q in (j, omega (arith, jl), eh, ec)
          | inr (eh, ec) ↦ (n, omega arith, eh, ec)
        ];
        kept = λ j jl ne. elim (ℕ_discrete j n) [
          | yes e ↦
              subst
                (λ (k : ℕ). Holds (set ns i new) (edge_at old k).child_hash (edge_at old k).child)
                (sym e) (Holds_set_new ns new i (omega (arith, il, w.hashed.len)))
          | no e ↦
              Holds_set_old ns new i (edge_at old j).child_hash (edge_at old j).child free ne
                (w.kept j (ground (arith, jl, e)) ne)
        ];
      })

live_free : (e : RadixEdge) → edge_deleted e ≡ false → edge_live e ≡ true → e.child_hash ≢ 0
live_free e d t z = let t' : false ≡ true = rw (edge_free_hash e z) at t in cc t'

dead_free : (e : RadixEdge) → edge_deleted e ≡ false → edge_live e ≡ false → e.child_hash ≡ 0
dead_free e d t = elim (Bool-cases (edge_free e)) [
  | inl f ↦ edge_free-hash e f
  | inr f ↦ absurd (let t' : true ≡ false = rw (f, d) at t in cc t')
]

-- the loop of `ovf_grow` and `ovf_migrate`
pub ovf_fill_lem :
    (b n : ℕ) (old : List RadixEdge)
    → b ≤ 31
    → n ≤ 2 ^ b
    → IsTable old
    → IsCopy b n old (ovf_fill (2 ^ b) (replicate (2 ^ b) no_edge) n old)
unfolding ovf_fill
ovf_fill_lem b zero old bl l table = IsCopy-replicate b old bl
ovf_fill_lem b (suc n) old bl l table =
    let rest = ovf_fill_lem b n old bl (omega (arith, l)) table in
    elim (Bool-cases (edge_live (edge_at old n))) [
      | inl t ↦
          rw t (
            IsCopy-place rest table (omega (arith, l))
              (live_free (edge_at old n) (table.alive n) t))
      | inr t ↦ rw t (IsCopy-skip rest (dead_free (edge_at old n) (table.alive n) t))
    ]

-- a slot outside the array has no edge
pub edge_at-lt :
    (slots : List RadixEdge) (j : ℕ) → (edge_at slots j).child_hash ≢ 0 → j < length slots
edge_at-lt [] j n = absurd (n refl)
edge_at-lt (e ∷ es) zero n = omega arith
edge_at-lt (e ∷ es) (suc j) n = omega (arith, edge_at-lt es j n)

-- a copy of all slots has what they hold
pub IsCopy-Holds :
    {b n : ℕ} {old ns : List RadixEdge}
    → IsCopy b n old ns
    → length old ≤ n
    → (h : ℕ) (c : Option ℕ) → h ≢ 0
    → Holds ns h c ↔ Holds old h c
IsCopy-Holds {old = old} {ns = ns} w l h c ne = (
  λ p. (let (j, _, eh, ec) = w.held h c ne p in (j, eh, ec)),
  λ (j, eh, ec).
      let nz : (edge_at old j).child_hash ≢ 0 = λ z. ne (sym eh ∙ z) in
      let q = w.kept j (omega (arith, edge_at-lt old j nz, l)) nz in rw (eh, ec) at q,
)

-- `edge_find_ovf` finds the edge that the table holds
pub edge_find_ovf_holds :
    (b : ℕ) (o : RadixOvf) (h : ℕ) (c : Option ℕ)
    → IsHashed b o.slots
    → o.cap_slots ≡ 2 ^ b
    → h ≢ 0
    → Holds o.slots h c
    → edge_find_ovf o h ≡ c
unfolding edge_find_ovf
edge_find_ovf_holds b o h c w cap_eq ne (j, eh, ec) =
    let nz : (edge_at o.slots j).child_hash ≢ 0 = λ z. ne (sym eh ∙ z) in
    let f = w.found j nz in
    let f' : ovf_probe (ovf_stops h) o.cap_slots h o.slots ≡ some j = rw (cap_eq, ← eh) f in
    rw (f', edge_find_ovf, edge_free-false (edge_at o.slots j) nz) ec

pub edge_find_ovf-some :
    (o : RadixOvf) (h : ℕ) (c : ℕ)
    → edge_find_ovf o h ≡ some c
    → (i : ℕ) × (ovf_probe (ovf_stops h) o.cap_slots h o.slots ≡ some i)
      × (edge_free (edge_at o.slots i) ≡ false)
      × ((edge_at o.slots i).child ≡ some c)
unfolding edge_find_ovf
edge_find_ovf-some o h c e = elim (Option-cases (ovf_probe (ovf_stops h) o.cap_slots h o.slots)) [
  | inl f ↦ absurd (let e' : none ≡ some c = rw (f, edge_find_ovf) at e in cc e')
  | inr (i, f) ↦ elim (Bool-cases (edge_free (edge_at o.slots i))) [
    | inl g ↦ absurd (let e' : none ≡ some c = rw (f, edge_find_ovf, g) at e in cc e')
    | inr g ↦ (
      i,
      f,
      g,
      (let e' : (edge_at o.slots i).child ≡ some c = rw (f, edge_find_ovf, g) at e in e'),
    )
  ]
]
