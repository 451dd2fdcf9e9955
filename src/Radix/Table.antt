-- ===== src/Radix/Table.antt =====
-- The overflow table of a node in src/radix.cpp: what its slots hold, and one edge put in.
use kvtier.Prelude.{
  ℕ, ◌-◌, ◌^◌, ◌<◌, ◌≤◌, ◌≡◌, ◌≢◌, refl, ◌∙◌, ap, sym, subst, true, false, Option, some, Bool, List,
  length, get_or, set, replicate, get_or-set_self, get_or-set_ne, get_or-set_cases,
  get_or-replicate, length-set, length-replicate, ◌⊎◌, inl, inr, arith, ℕ_discrete,
}
use native.Mathlib.Nat.{mod-lt, one-le-pow}
use kvtier.Bits.{bit_and_mask}
use kvtier.Hash.{hash_mix64}
use kvtier.Probing.{
  probe-stop, probe-set, probe-set_ne, probe-fewer, probe_reaches, probe-lt, distance,
}
use kvtier.Radix.{RadixEdge, no_edge, edge_free, edge_deleted, ovf_stops, ovf_start, ovf_probe}
use kvtier.Radix.Edges.{
  edge_free-hash, edge_is_self, ovf_stops_free, ovf_stops_self, ovf_stops-cases, used_slots,
  used_slots-free,
}

abbrev pub edge_at : List RadixEdge → ℕ → RadixEdge
edge_at slots i = get_or slots i no_edge

-- the slots hold an edge of the hash `h` to `c`
abbrev pub Holds : List RadixEdge → ℕ → Option ℕ → Type 0
Holds slots h c = (i : ℕ) × ((edge_at slots i).child_hash ≡ h) × ((edge_at slots i).child ≡ c)

-- an overflow table of `2 ^ b` slots in which the loop from each edge's start ends at the edge
pub record IsHashed (b : ℕ) (slots : List RadixEdge) : Type 0 where
  pub bits_le : b ≤ 31
  pub len : length slots ≡ 2 ^ b
  pub alive : (i : ℕ) → edge_deleted (edge_at slots i) ≡ false
  pub found :
      (i : ℕ)
      → (edge_at slots i).child_hash ≢ 0
      → ovf_probe
          (ovf_stops (edge_at slots i).child_hash)
          (2 ^ b)
          (edge_at slots i).child_hash
          slots
        ≡ some i

pub IsHashed-replicate : (b : ℕ) → b ≤ 31 → IsHashed b (replicate (2 ^ b) no_edge)
IsHashed-replicate b h = record {
  bits_le = h;
  len = length-replicate (2 ^ b) no_edge;
  alive = λ i. rw (get_or-replicate (2 ^ b) i no_edge) refl;
  found =
      λ i n. absurd (n (ap (λ (e : RadixEdge). e.child_hash) (get_or-replicate (2 ^ b) i no_edge)));
}

ovf_start-lt : (b h : ℕ) → ovf_start (2 ^ b - 1) h < 2 ^ b
ovf_start-lt b h = omega (
  arith,
  bit_and_mask b (hash_mix64 h),
  mod-lt (hash_mix64 h) {m = 2 ^ b} (one-le-pow b 2 (omega arith)),
)

-- while there is a slot to stop at, the loop ends at one
pub ovf_probe_lem :
    (b : ℕ) (slots : List RadixEdge) (stop : RadixEdge → Bool) (h : ℕ)
    → IsHashed b slots
    → (i : ℕ) → i < 2 ^ b
    → stop (edge_at slots i) ≡ true
    → (r : ℕ) × (ovf_probe stop (2 ^ b) h slots ≡ some r)
      × (r < 2 ^ b)
      × (stop (edge_at slots r) ≡ true)
unfolding ovf_probe
ovf_probe_lem b slots stop h w i l t =
    let s = ovf_start (2 ^ b - 1) h in
    let lt = ovf_start-lt b h in
    let (n, near, steps) = distance s i (2 ^ b) lt l in
    let (r, q) = probe_reaches no_edge stop b n (2 ^ b) s i slots w.bits_le lt near steps l t in
    (
      r,
      q,
      probe-lt no_edge stop b (2 ^ b) s slots lt q,
      probe-stop no_edge stop (2 ^ b) s (2 ^ b - 1) slots q,
    )

-- the hashes of the edges differ
pub IsHashed-unique :
    {b : ℕ} {slots : List RadixEdge} (w : IsHashed b slots) (i j : ℕ)
    → (edge_at slots i).child_hash ≡ (edge_at slots j).child_hash
    → (edge_at slots j).child_hash ≢ 0
    → i ≡ j
IsHashed-unique {b = b} {slots = slots} w i j e n =
    let fj = w.found j n in
    let fi = w.found i (λ z. n (sym e ∙ z)) in
    let s : some i ≡ some j =
      sym fi ∙ ap (λ (h : ℕ). ovf_probe (ovf_stops h) (2 ^ b) h slots) e ∙ fj in
    cc s

-- a slot that is not free stays where it was found when a free one is written
found_ne :
    (b : ℕ) (slots : List RadixEdge) (new : RadixEdge) (i j : ℕ)
    → IsHashed b slots
    → edge_free (edge_at slots i) ≡ true
    → i ≢ j
    → (edge_at slots j).child_hash ≢ 0
    → ovf_probe
        (ovf_stops (edge_at slots j).child_hash)
        (2 ^ b)
        (edge_at slots j).child_hash
        (set slots i new)
      ≡ some j
unfolding ovf_probe
found_ne b slots new i j w t ne n =
    let h = (edge_at slots j).child_hash in
    probe-set_ne no_edge (ovf_stops h) (2 ^ b) (ovf_start (2 ^ b - 1) h) (2 ^ b - 1) slots new i
      (w.found j n) (ovf_stops_free h (edge_at slots i) t) ne

-- the loop that seeks a free slot and the loop that seeks an absent hash end at the same slot, and
-- the second one ends there still when the slot has the hash
found_new :
    (b : ℕ) (slots : List RadixEdge) (new : RadixEdge) (i : ℕ)
    → IsHashed b slots
    → ovf_probe (ovf_stops new.child_hash) (2 ^ b) new.child_hash slots ≡ some i
    → i < 2 ^ b
    → edge_deleted new ≡ false
    → ovf_probe (ovf_stops new.child_hash) (2 ^ b) new.child_hash (set slots i new) ≡ some i
unfolding ovf_probe
found_new b slots new i w q l d =
    let h = new.child_hash in
    probe-set no_edge (ovf_stops h) (2 ^ b) (ovf_start (2 ^ b - 1) h) (2 ^ b - 1) slots new q
      (omega (arith, l, w.len)) (ovf_stops_self h new (edge_is_self h new refl d))

-- an edge of a new hash is put in
pub IsHashed-set :
    (b : ℕ) (slots : List RadixEdge) (new : RadixEdge) (i : ℕ)
    → IsHashed b slots
    → ovf_probe (ovf_stops new.child_hash) (2 ^ b) new.child_hash slots ≡ some i
    → i < 2 ^ b
    → edge_free (edge_at slots i) ≡ true
    → edge_deleted new ≡ false
    → IsHashed b (set slots i new)
IsHashed-set b slots new i w q l t d =
    let own : edge_at (set slots i new) i ≡ new =
      get_or-set_self slots i new no_edge (omega (arith, l, w.len)) in
    record {
      bits_le = w.bits_le;
      len = length-set slots i new ∙ w.len;
      alive = λ j. elim (ℕ_discrete i j) [
        | yes e ↦ subst (λ (k : ℕ). edge_deleted (edge_at (set slots i new) k) ≡ false) e (rw own d)
        | no e ↦ rw (get_or-set_ne slots i j new no_edge e) (w.alive j)
      ];
      found = λ j n. elim (ℕ_discrete i j) [
        | yes e ↦
            let at : edge_at (set slots i new) j ≡ new =
              ap (λ (k : ℕ). edge_at (set slots i new) k) (sym e) ∙ own in
            rw at (found_new b slots new i w q l d ∙ ap some e)
        | no e ↦
            let at : edge_at (set slots i new) j ≡ edge_at slots j =
              get_or-set_ne slots i j new no_edge e in
            rw at (found_ne b slots new i j w t e (λ z. n (rw at z)))
      ];
    }

-- the loop that seeks a free slot, in a table without the hash
pub vacant_slot :
    (b : ℕ) (slots : List RadixEdge) (h : ℕ)
    → IsHashed b slots
    → used_slots slots < 2 ^ b
    → ((j : ℕ) → (edge_at slots j).child_hash ≢ h)
    → (i : ℕ) × (ovf_probe edge_free (2 ^ b) h slots ≡ some i)
      × (ovf_probe (ovf_stops h) (2 ^ b) h slots ≡ some i)
      × (i < 2 ^ b)
      × (edge_free (edge_at slots i) ≡ true)
unfolding ovf_probe
vacant_slot b slots h w u absent =
    let (k, kl, kf) = used_slots-free slots (omega (arith, u, w.len)) in
    let (i, q, l, s) =
      ovf_probe_lem b slots (ovf_stops h) h w k (omega (arith, kl, w.len))
        (ovf_stops_free h (edge_at slots k) kf) in
    let f : edge_free (edge_at slots i) ≡ true = elim (ovf_stops-cases h (edge_at slots i) s) [
      | inl a ↦ a
      | inr a ↦ absurd (absent i a)
    ] in
    (
      i,
      probe-fewer no_edge (ovf_stops h) edge_free (2 ^ b) (ovf_start (2 ^ b - 1) h) (2 ^ b - 1)
          slots (λ k. ovf_stops_free h (edge_at slots k)) q f,
      q,
      l,
      f,
    )

-- what the slots hold after a write was there before or was written
pub Holds-set :
    (slots : List RadixEdge) (new : RadixEdge) (i h : ℕ) (c : Option ℕ)
    → Holds (set slots i new) h c
    → Holds slots h c ⊎ ((new.child_hash ≡ h) × (new.child ≡ c))
Holds-set slots new i h c (j, eh, ec) = elim (get_or-set_cases slots i j new no_edge) [
  | inl at ↦ inr (rw at at eh, rw at at ec)
  | inr at ↦ inl (j, rw at at eh, rw at at ec)
]

pub Holds_set_old :
    (slots : List RadixEdge) (new : RadixEdge) (i h : ℕ) (c : Option ℕ)
    → edge_free (edge_at slots i) ≡ true
    → h ≢ 0
    → Holds slots h c
    → Holds (set slots i new) h c
Holds_set_old slots new i h c t n (j, eh, ec) =
    let ne : i ≢ j = λ e. n (
      sym eh
      ∙ ap (λ (k : ℕ). (edge_at slots k).child_hash) (sym e)
      ∙ edge_free-hash (edge_at slots i) t) in
    let at : edge_at (set slots i new) j ≡ edge_at slots j =
      get_or-set_ne slots i j new no_edge ne in
    (j, rw at eh, rw at ec)

pub Holds_set_new :
    (slots : List RadixEdge) (new : RadixEdge) (i : ℕ)
    → i < length slots
    → Holds (set slots i new) new.child_hash new.child
Holds_set_new slots new i l =
    let at : edge_at (set slots i new) i ≡ new = get_or-set_self slots i new no_edge l in
    (i, rw at refl, rw at refl)
