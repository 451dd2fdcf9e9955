-- ===== src/Radix/Add.antt =====
-- `edge_add` of src/radix.cpp on a node with an overflow table.
use kvtier.Prelude.{
  ℕ, suc, ◌+◌, ◌-◌, ◌*◌, ◌/◌, ◌^◌, ◌<◌, ◌≤◌, ◌≡◌, ◌≢◌, refl, ◌∙◌, true, false, Option, some, List,
  length, take, replicate, ◌⊎◌, inl, inr, arith, Bool-cases, ◌==◌, ltb, ltb→lt, ◌↔◌, take_all,
}
use native.Mathlib.Nat.{one-le-pow, pow-le-pow_right, mod-eq_of_lt}
use kvtier.Common.{u32}
use kvtier.Radix.{
  ovf_start, RadixEdge, RadixOvf, no_edge, edge_free, edge_deleted, edge_vacant, ovf_stops,
  ovf_probe, ovf_fill, ovf_grow, ovf_grown, ovf_write, ovf_add, new_edge,
}
use kvtier.Probing.{probe-fewer}
use kvtier.Radix.Edges.{used_slots, used_slots-set, ovf_stops_free}
use kvtier.Radix.Table.{
  edge_at, Holds, IsHashed, IsHashed-set, vacant_slot, Holds-set, Holds_set_old, Holds_set_new,
}
use kvtier.Radix.Overflow.{IsHashed-table, IsCopy, ovf_fill_lem, IsCopy-Holds}

-- The overflow table the program keeps: a power of two slots, at most seven tenths of them used, no
-- deleted edge, each edge found by its loop. `m` bounds the edges, and the size is in proportion.
pub record IsOvf (m : ℕ) (o : RadixOvf) : Type 0 where
  pub bits : ℕ
  pub bits_ge : 4 ≤ bits
  pub cap_eq : o.cap_slots ≡ 2 ^ bits
  pub hashed : IsHashed bits o.slots
  pub used_le : used_slots o.slots ≤ o.used
  pub load : o.used * 10 ≤ o.cap_slots * 7
  pub no_del : o.n_del ≡ 0
  pub size : o.cap_slots * 7 ≤ 20 * o.used + 112
  pub few : o.used ≤ m + 8

pub bits-lt : (b c : ℕ) → 2 ^ b < 2 ^ c → b < c
bits-lt b c l = elim (Bool-cases (ltb b c)) [
  | inl t ↦ ltb→lt b c t
  | inr f ↦
      let ge : c ≤ b = ground (arith, f) in
      absurd (omega (arith, l, pow-le-pow_right {n = 2} (omega arith) ge))
]

-- the table after `ovf_grow`, ready for one more edge
record IsGrown (m : ℕ) (o g : RadixOvf) : Type 0 where
  bits : ℕ
  bits_ge : 4 ≤ bits
  cap_eq : g.cap_slots ≡ 2 ^ bits
  hashed : IsHashed bits g.slots
  used_le : used_slots g.slots ≤ g.used
  room : (g.used + 1) * 10 ≤ g.cap_slots * 7
  no_del : g.n_del ≡ 0
  size : g.cap_slots * 7 ≤ 20 * (g.used + 1) + 112
  used : g.used ≡ o.used
  same : (h : ℕ) (c : Option ℕ) → h ≢ 0 → Holds g.slots h c ↔ Holds o.slots h c

grow_used :
    (b : ℕ) (old ns : List RadixEdge)
    → length old ≡ 2 ^ b
    → IsCopy (suc b) (2 ^ b) old ns
    → used_slots ns ≤ used_slots old
grow_used b old ns l w =
    let e : take (2 ^ b) old ≡ old = take_all (2 ^ b) old l in
    let u : used_slots ns ≤ used_slots (take (2 ^ b) old) = w.used in rw e at u

ovf_grow_lem :
    (m : ℕ) (o : RadixOvf)
    → m ≤ 2 ^ 24
    → IsOvf m o
    → o.cap_slots * 7 < (o.used + 1) * 10
    → IsGrown m o (ovf_grow o)
unfolding ovf_grow
ovf_grow_lem m o ml w full =
    let b = w.bits in
    let small : 2 ^ b < 2 ^ 27 = omega (arith, w.cap_eq, w.size, w.few, ml) in
    let bl : b < 27 = bits-lt b 27 small in
    let nz : (o.cap_slots == 0) ≡ false = ground (arith, w.cap_eq, one-le-pow b 2 (omega arith)) in
    let dbl : u32 (o.cap_slots * 2) ≡ 2 ^ suc b =
      mod-eq_of_lt (omega (arith, w.cap_eq, small)) ∙ omega (arith, w.cap_eq) in
    let copy =
      ovf_fill_lem (suc b) (2 ^ b) o.slots (omega (arith, bl)) (omega arith)
        (IsHashed-table w.hashed) in
    rw (nz, dbl, w.cap_eq)
      (record {
        bits = suc b;
        bits_ge = omega (arith, w.bits_ge);
        cap_eq = refl;
        hashed = copy.hashed;
        used_le =
            let u =
              grow_used b o.slots
                (ovf_fill (2 ^ suc b) (replicate (2 ^ suc b) no_edge) (2 ^ b) o.slots) w.hashed.len
                copy in
            omega (arith, w.used_le, u);
        room = omega (arith, w.load, w.cap_eq, pow-le-pow_right {n = 2} (omega arith) w.bits_ge);
        no_del = refl;
        size = omega (arith, full, w.cap_eq);
        used = refl;
        same = λ h c ne. IsCopy-Holds copy (omega (arith, w.hashed.len)) h c ne;
      })

ovf_grown_lem : (m : ℕ) (o : RadixOvf) → m ≤ 2 ^ 24 → IsOvf m o → IsGrown m o (ovf_grown o)
unfolding ovf_grown
ovf_grown_lem m o ml w =
    let c : u32 (o.cap_slots * 7) ≡ o.cap_slots * 7 =
      mod-eq_of_lt (omega (arith, w.size, w.few, ml)) in
    let u : u32 (o.used + o.n_del + 1) ≡ o.used + 1 =
      mod-eq_of_lt (omega (arith, w.no_del, w.few, ml)) ∙ omega (arith, w.no_del) in
    elim (Bool-cases (ltb (u32 (o.cap_slots * 7) / 10) (u32 (o.used + o.n_del + 1)))) [
      | inl t ↦
          let lt = ltb→lt (u32 (o.cap_slots * 7) / 10) (u32 (o.used + o.n_del + 1)) t in
          rw t (ovf_grow_lem m o ml w (omega (arith, lt, c, u)))
      | inr f ↦
          let ge : u32 (o.used + o.n_del + 1) ≤ u32 (o.cap_slots * 7) / 10 = ground (arith, f) in
          rw f (record {
            bits = w.bits;
            bits_ge = w.bits_ge;
            cap_eq = w.cap_eq;
            hashed = w.hashed;
            used_le = w.used_le;
            room = omega (arith, ge, c, u);
            no_del = w.no_del;
            size = omega (arith, w.size);
            used = refl;
            same = λ h c' ne. (λ p. p, λ p. p);
          })
    ]

-- what `ovf_add` leaves
pub record IsAdded (m : ℕ) (o : RadixOvf) (h child : ℕ) (a : RadixOvf) : Type 0 where
  pub ovf : IsOvf (suc m) a
  pub from :
      (k : ℕ) (c : Option ℕ)
      → k ≢ 0
      → Holds a.slots k c
      → Holds o.slots k c ⊎ ((h ≡ k) × (some child ≡ c))
  pub old : (k : ℕ) (c : Option ℕ) → k ≢ 0 → Holds o.slots k c → Holds a.slots k c
  pub new : Holds a.slots h (some child)

vacant_free : (e : RadixEdge) → edge_deleted e ≡ false → edge_vacant e ≡ true → edge_free e ≡ true
vacant_free e d t = elim (Bool-cases (edge_free e)) [
  | inl f ↦ f
  | inr f ↦ absurd (let t' : false ≡ true = rw (f, d) at t in cc t')
]

-- the loop of `edge_add`
add_slot :
    (b : ℕ) (slots : List RadixEdge) (h : ℕ)
    → IsHashed b slots
    → used_slots slots < 2 ^ b
    → ((j : ℕ) → (edge_at slots j).child_hash ≢ h)
    → (i : ℕ) × (ovf_probe edge_vacant (2 ^ b) h slots ≡ some i)
      × (ovf_probe (ovf_stops h) (2 ^ b) h slots ≡ some i)
      × (i < 2 ^ b)
      × (edge_free (edge_at slots i) ≡ true)
unfolding ovf_probe
add_slot b slots h w u absent =
    let (i, _, s, l, f) = vacant_slot b slots h w u absent in
    (
      i,
      probe-fewer no_edge (ovf_stops h) edge_vacant (2 ^ b) (ovf_start (2 ^ b - 1) h) (2 ^ b - 1)
          slots
          (λ k v. ovf_stops_free h (edge_at slots k) (vacant_free (edge_at slots k) (w.alive k) v))
          s (rw f refl),
      s,
      l,
      f,
    )

write_lem :
    (m : ℕ) (o g : RadixOvf) (h child i : ℕ)
    → m ≤ 2 ^ 24
    → IsOvf m o
    → (w : IsGrown m o g) → h ≢ 0
    → ovf_probe (ovf_stops h) (2 ^ w.bits) h g.slots ≡ some i
    → i < 2 ^ w.bits
    → edge_free (edge_at g.slots i) ≡ true
    → IsAdded m o h child (ovf_write g i h child)
unfolding ovf_write
write_lem m o g h child i ml v w ne s l f =
    let new = new_edge h child in
    let u : u32 (g.used + 1) ≡ g.used + 1 = mod-eq_of_lt (omega (arith, w.used, v.few, ml)) in
    rw (f, u)
      (record {
        ovf = record {
          bits = w.bits;
          bits_ge = w.bits_ge;
          cap_eq = w.cap_eq;
          hashed = IsHashed-set w.bits g.slots new i w.hashed s l f refl;
          used_le = omega (arith, used_slots-set g.slots i new, w.used_le);
          load = w.room;
          no_del = w.no_del;
          size = w.size;
          few = omega (arith, w.used, v.few);
        };
        from = λ k c nz p. elim (Holds-set g.slots new i k c p) [
          | inl q ↦ inl ((w.same k c nz).0 q)
          | inr q ↦ inr q
        ];
        old = λ k c nz p. Holds_set_old g.slots new i k c f nz ((w.same k c nz).1 p);
        new = Holds_set_new g.slots new i (omega (arith, l, w.hashed.len));
      })

pub ovf_add_lem :
    (m : ℕ) (o : RadixOvf) (h child : ℕ)
    → m ≤ 2 ^ 24
    → IsOvf m o
    → h ≢ 0
    → ((c : Option ℕ) → Holds o.slots h c → ⊥)
    → IsAdded m o h child (ovf_add o h child)
unfolding ovf_add
ovf_add_lem m o h child ml v ne absent =
    let g = ovf_grown o in
    let w = ovf_grown_lem m o ml v in
    let gone : (j : ℕ) → (edge_at g.slots j).child_hash ≢ h = λ j e.
      absent (edge_at g.slots j).child ((w.same h (edge_at g.slots j).child ne).0 (j, e, refl)) in
    let (i, q, s, l, f) =
      add_slot w.bits g.slots h w.hashed (omega (arith, w.used_le, w.room, w.cap_eq)) gone in
    let q' : ovf_probe edge_vacant g.cap_slots h g.slots ≡ some i = rw w.cap_eq q in
    rw (q', ovf_add) (write_lem m o g h child i ml v w ne s l f)
