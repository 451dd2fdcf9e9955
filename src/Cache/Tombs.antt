-- ===== src/Cache/Tombs.antt =====
-- `tomb_insert` and `tomb_lookup` of src/cache.cpp as they are without KV_USE_CUCKOO_TOMB: a table
-- of prefix ids with four probes. The clock is an argument.
use kvtier.Prelude.{
  ℕ, zero, suc, ◌+◌, ◌-◌, ◌/◌, ◌^◌, ◌≤◌, ◌<◌, ◌≡◌, ◌≢◌, refl, bit_and, Bool, true, false, ◌||◌,
  Option, none, some, List, ◌==◌, ==_iff, if◌then◌else◌, length, get_or, set, get_or-set_self,
  get_or-set_ne, Bool-cases, inl, inr, arith, subst,
}
use native.Mathlib.Nat.{mod-lt, one-le-pow}
use kvtier.Common.{u32}
use kvtier.Bits.{bit_and_mask}
use kvtier.Hash.{hash_mix64}

-- `tomb_keys` and `tomb_mask`
pub record Tombs : Type 0 where
  pub keys : List ℕ
  pub mask : ℕ

unfoldable pub tomb_start : ℕ → ℕ → ℕ
tomb_start mask prefix_id = u32 (bit_and (hash_mix64 prefix_id) mask)

-- the slot at distance `k`
unfoldable pub tomb_slot : ℕ → ℕ → ℕ → ℕ
tomb_slot mask prefix_id k = bit_and (u32 (tomb_start mask prefix_id + u32 k)) mask

-- the loop of `tomb_insert`: the first slot from distance `k` on that is empty or has the key
unfoldable pub tomb_find : ℕ → ℕ → Tombs → ℕ → Option ℕ
tomb_find zero k t prefix_id = none
tomb_find (suc n) k t prefix_id =
    let i = tomb_slot t.mask prefix_id k in
    let rest = tomb_find n (k + 1) t prefix_id in
    if get_or t.keys i 0 == 0 || get_or t.keys i 0 == prefix_id then some i else rest

abbrev pub tomb_set : Tombs → ℕ → ℕ → Tombs
tomb_set t i prefix_id = record t { keys = set t.keys i prefix_id }

-- `none` is a cache without the table
unfoldable pub tomb_insert : ℕ → Option Tombs → ℕ → Option Tombs
tomb_insert now_ns none prefix_id = none
tomb_insert now_ns (some t) prefix_id =
    if prefix_id == 0 then some t else elim (tomb_find 4 0 t prefix_id) [
      | some i ↦ some (tomb_set t i prefix_id)
      | none ↦ some (tomb_set t (tomb_slot t.mask prefix_id (now_ns / 2 ^ 20)) prefix_id)
    ]

-- the loop of `tomb_lookup`
unfoldable pub tomb_seen : ℕ → ℕ → Tombs → ℕ → Bool
tomb_seen zero k t prefix_id = false
tomb_seen (suc n) k t prefix_id =
    let rest = tomb_seen n (k + 1) t prefix_id in
    if get_or t.keys (tomb_slot t.mask prefix_id k) 0 == prefix_id then true else rest

unfoldable pub tomb_lookup : Option Tombs → ℕ → Bool
tomb_lookup none prefix_id = false
tomb_lookup (some t) prefix_id = if prefix_id == 0 then false else tomb_seen 4 0 t prefix_id

-- the table has a power of two slots
pub record IsTable (t : Tombs) : Type 0 where
  pub bits : ℕ
  pub mask : t.mask ≡ 2 ^ bits - 1
  pub slots : length t.keys ≡ 2 ^ bits

masked-lt : (b x : ℕ) → bit_and x (2 ^ b - 1) < 2 ^ b
masked-lt b x = omega (arith, bit_and_mask b x, mod-lt x {m = 2 ^ b} (one-le-pow b 2 (omega arith)))

tomb_slot-lt :
    (t : Tombs) (prefix_id k : ℕ) → IsTable t → tomb_slot t.mask prefix_id k < length t.keys
unfolding tomb_slot
tomb_slot-lt t prefix_id k w = rw (w.mask, w.slots) (masked-lt w.bits _)

-- a slot that the loop of `tomb_insert` finds is one that `tomb_lookup` probes
seen-found :
    (n k : ℕ) (t : Tombs) (prefix_id i : ℕ)
    → IsTable t
    → tomb_find n k t prefix_id ≡ some i
    → tomb_seen n k (tomb_set t i prefix_id) prefix_id ≡ true
unfolding tomb_find tomb_seen
seen-found zero k t prefix_id i w e = absurd (cc e)
seen-found (suc n) k t prefix_id i w e =
    let sl = tomb_slot t.mask prefix_id k in
    elim (Bool-cases (get_or t.keys sl 0 == 0 || get_or t.keys sl 0 == prefix_id)) [
      | inl c ↦
          let e' : some sl ≡ some i = rw c at e in
          let at : sl ≡ i = cc e' in
          let g : (get_or (set t.keys i prefix_id) sl 0 == prefix_id) ≡ true =
            (==_iff _ prefix_id).1 (
              rw at (
                get_or-set_self t.keys i prefix_id 0
                  (subst (λ (m : ℕ). m < length t.keys) at (tomb_slot-lt t prefix_id k w)))) in
          rw g refl
      | inr c ↦
          let e' : tomb_find n (k + 1) t prefix_id ≡ some i = rw c at e in
          let ih = seen-found n (k + 1) t prefix_id i w e' in
          elim (Bool-cases (get_or (set t.keys i prefix_id) sl 0 == prefix_id)) [
            | inl g ↦ rw g refl
            | inr g ↦ rw g ih
          ]
    ]

seen-lost :
    (n k : ℕ) (t : Tombs) (prefix_id f : ℕ)
    → tomb_find n k t prefix_id ≡ none
    → ((d : ℕ) → k ≤ d → d < k + n → f ≢ tomb_slot t.mask prefix_id d)
    → tomb_seen n k (tomb_set t f prefix_id) prefix_id ≡ false
unfolding tomb_find tomb_seen
seen-lost zero k t prefix_id f e h = refl
seen-lost (suc n) k t prefix_id f e h =
    let sl = tomb_slot t.mask prefix_id k in
    elim (Bool-cases (get_or t.keys sl 0 == 0 || get_or t.keys sl 0 == prefix_id)) [
      | inl c ↦ let e' : some sl ≡ none = rw c at e in absurd (cc e')
      | inr c ↦
          let e' : tomb_find n (k + 1) t prefix_id ≡ none = rw c at e in
          let same : get_or (set t.keys f prefix_id) sl 0 ≡ get_or t.keys sl 0 =
            get_or-set_ne t.keys f sl prefix_id 0 (h k (omega arith) (omega arith)) in
          let g : (get_or t.keys sl 0 == prefix_id) ≡ false = ground (arith, c) in
          rw (same, g)
            (seen-lost n (k + 1) t prefix_id f e'
              (λ d p q. h d (omega (arith, p)) (omega (arith, q))))
    ]

-- In a table of a power of two slots, an id other than 0 is found right after its tomb_insert,
-- if one of its four slots was empty or held it.
pub tomb_lookup-tomb_insert :
    (now_ns prefix_id i : ℕ) (t : Tombs)
    → IsTable t
    → prefix_id ≢ 0
    → tomb_find 4 0 t prefix_id ≡ some i
    → tomb_lookup (tomb_insert now_ns (some t) prefix_id) prefix_id ≡ true
unfolding tomb_lookup tomb_insert
tomb_lookup-tomb_insert now_ns prefix_id i t w n e =
    let z : (prefix_id == 0) ≡ false = ground (arith, n) in
    rw (z, e, z) (seen-found 4 0 t prefix_id i w e)

-- When the four slots that tomb_lookup probes all hold other ids, and the slot that the clock
-- chooses is none of the four, tomb_lookup does not find the id that tomb_insert has just put
-- in.
pub tomb_lookup_lost :
    (now_ns prefix_id : ℕ) (t : Tombs)
    → prefix_id ≢ 0
    → tomb_find 4 0 t prefix_id ≡ none
    → ((d : ℕ)
        → d < 4
        → tomb_slot t.mask prefix_id (now_ns / 2 ^ 20) ≢ tomb_slot t.mask prefix_id d)
    → tomb_lookup (tomb_insert now_ns (some t) prefix_id) prefix_id ≡ false
unfolding tomb_lookup tomb_insert
tomb_lookup_lost now_ns prefix_id t n e h =
    let z : (prefix_id == 0) ≡ false = ground (arith, n) in
    rw (z, e, z)
      (seen-lost 4 0 t prefix_id (tomb_slot t.mask prefix_id (now_ns / 2 ^ 20)) e
        (λ d p q. h d (omega (arith, q))))
