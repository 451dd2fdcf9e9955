-- ===== src/Cache/Side/Lookup.antt =====
-- `side_get` after `side_put` in src/cache.cpp.
use kvtier.Prelude.{
  ℕ, ◌+◌, ◌-◌, ◌*◌, ◌^◌, ◌≤◌, ◌<◌, ◌≡◌, refl, ◌∙◌, ap, sym, bit_xor, true, false, some, List, ◌==◌,
  ==_iff, length, get_or, set, get_or-set_self, length-set, Bool-cases, inl, inr, arith,
}
use native.Mathlib.Nat.{mod-lt, one-le-pow}
use kvtier.Common.{u32, u64}
use kvtier.Bits.{bit_and_mask}
use kvtier.Hash.{hash_mix64}
use kvtier.Cache.Side.{
  SideSlot, SideTbl, empty_slot, side_start, stops_at, side_find, side_store, side_put, side_get,
  side_grown,
}
use kvtier.Probing.{probe, distance, probe-stop, probe-set, probe_reaches, probe-lt}

-- the table the program keeps: a power of two slots
pub record IsSide (t : SideTbl) : Type 0 where
  pub bits : ℕ
  pub bits_le : bits ≤ 31
  pub cap_slots : t.cap_slots ≡ 2 ^ bits
  pub slots : length t.slots ≡ 2 ^ bits

side_start-lt : (b p g : ℕ) → side_start (2 ^ b - 1) p g < 2 ^ b
unfolding side_start
side_start-lt b p g =
    let x = u32 (hash_mix64 (bit_xor p (u64 (g * 2 ^ 32)))) in
    omega (arith, bit_and_mask b x, mod-lt x {m = 2 ^ b} (one-le-pow b 2 (omega arith)))

find-probe :
    (t : SideTbl) (p g : ℕ) (w : IsSide t)
    → side_find t p g
      ≡ probe empty_slot
          (stops_at p g)
          (2 ^ w.bits)
          (side_start (2 ^ w.bits - 1) p g)
          (2 ^ w.bits - 1)
          t.slots
unfolding side_find
find-probe t p g w = rw w.cap_slots refl

-- While a slot of the side table is unused, the loop of side_put and side_get ends, within as
-- many rounds as there are slots, at a slot in range that is unused or has the key.
pub side_find_lem :
    (t : SideTbl) (prefix_id group_idx i : ℕ)
    → IsSide t
    → i < t.cap_slots
    → (get_or t.slots i empty_slot).used ≡ false
    → (r : ℕ) × (side_find t prefix_id group_idx ≡ some r)
      × (r < t.cap_slots)
      × (stops_at prefix_id group_idx (get_or t.slots r empty_slot) ≡ true)
side_find_lem t p g i w l u =
    let stop = stops_at p g in
    let b = w.bits in
    let start = side_start (2 ^ b - 1) p g in
    let lt = side_start-lt b p g in
    let l' : i < 2 ^ b = omega (arith, l, w.cap_slots) in
    let (d, near, steps) = distance start i (2 ^ b) lt l' in
    let free : stop (get_or t.slots i empty_slot) ≡ true = rw u refl in
    let (r, q) =
      probe_reaches empty_slot stop b d (2 ^ b) start i t.slots w.bits_le lt near steps l' free in
    (
      r,
      find-probe t p g w ∙ q,
      omega (arith, w.cap_slots, probe-lt empty_slot stop b (2 ^ b) start t.slots lt q),
      probe-stop empty_slot stop (2 ^ b) start (2 ^ b - 1) t.slots q,
    )

-- a key is found at the slot that its loop ended at, once that slot is used for it
get-set :
    (t t₂ : SideTbl) (p g r : ℕ) (new : SideSlot) (w : IsSide t)
    → side_find t p g ≡ some r
    → r < t.cap_slots
    → t₂.cap_slots ≡ t.cap_slots
    → t₂.slots ≡ set t.slots r new
    → stops_at p g new ≡ true
    → new.used ≡ true
    → side_get t₂ p g ≡ some new.node
unfolding side_get
get-set t t₂ p g r new w f l c s k u =
    let b = w.bits in
    let start = side_start (2 ^ b - 1) p g in
    let r-lt : r < length t.slots = omega (arith, l, w.cap_slots, w.slots) in
    let w₂ : IsSide t₂ = record {
      bits = b;
      bits_le = w.bits_le;
      cap_slots = c ∙ w.cap_slots;
      slots = ap length s ∙ length-set t.slots r new ∙ w.slots;
    } in
    let f₂ : side_find t₂ p g ≡ some r =
      find-probe t₂ p g w₂
      ∙ ap (probe empty_slot (stops_at p g) (2 ^ b) start (2 ^ b - 1)) s
      ∙ probe-set empty_slot (stops_at p g) (2 ^ b) start (2 ^ b - 1) t.slots new
          (sym (find-probe t p g w) ∙ f) r-lt k in
    let at : get_or t₂.slots r empty_slot ≡ new =
      ap (λ (xs : List SideSlot). get_or xs r empty_slot) s
      ∙ get_or-set_self t.slots r new empty_slot r-lt in
    let z : (t₂.cap_slots == 0) ≡ false = ground (arith, l, c) in rw (z, f₂, at, u) refl

get-store :
    (t : SideTbl) (p g n r : ℕ)
    → IsSide t
    → side_find t p g ≡ some r
    → r < t.cap_slots
    → stops_at p g (get_or t.slots r empty_slot) ≡ true
    → side_get (side_store t p g n r) p g ≡ some n
unfolding side_store
get-store t p g n r w f l stops = elim (Bool-cases (get_or t.slots r empty_slot).used) [
  | inl u ↦
      let old = get_or t.slots r empty_slot in
      let new : SideSlot = record {
        prefix_id = old.prefix_id;
        group_idx = old.group_idx;
        node = n;
        used = true;
      } in
      let k : stops_at p g new ≡ true = rw u at stops in
      rw (u, side_store)
        (get-set t (record t { slots = set t.slots r new }) p g r new w f l refl refl k refl)
  | inr u ↦
      let new : SideSlot = record { prefix_id = p; group_idx = g; node = n; used = true } in
      let k₁ : (p == p) ≡ true = (==_iff p p).1 refl in
      let k₂ : (g == g) ≡ true = (==_iff g g).1 refl in
      rw (u, side_store)
        (get-set t (record t { slots = set t.slots r new; count = u32 (t.count + 1) }) p g r new w f
          l refl refl (rw (k₁, k₂) refl) refl)
]

put_found :
    (t : SideTbl) (p g n r : ℕ)
    → side_find (side_grown t) p g ≡ some r
    → side_put t p g n ≡ side_store (side_grown t) p g n r
unfolding side_put
put_found t p g n r f = rw (f, side_put) refl

-- After side_put a key is found with its node, whether it was there before, if the table, once
-- it has grown where it must, has a power of two slots up to 2^31, not all of them in use.
pub side_get-side_put :
    (t : SideTbl) (prefix_id group_idx node i : ℕ)
    → IsSide (side_grown t)
    → i < (side_grown t).cap_slots
    → (get_or (side_grown t).slots i empty_slot).used ≡ false
    → side_get (side_put t prefix_id group_idx node) prefix_id group_idx ≡ some node
side_get-side_put t p g n i w l u =
    let (r, f, lt, stops) = side_find_lem (side_grown t) p g i w l u in
    rw (put_found t p g n r f) (get-store (side_grown t) p g n r w f lt stops)
