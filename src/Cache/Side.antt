-- ===== src/Cache/Side.antt =====
-- The side table of src/cache.cpp: open addressing from a key to its node in the radix tree. A
-- node is a number that stands for its address.
pub mod Lookup
use kvtier.Prelude.{
  ℕ, zero, suc, ◌+◌, ◌-◌, ◌*◌, ◌%◌, ◌^◌, ◌≤◌, ◌<◌, ◌≡◌, ◌≢◌, refl, ◌∙◌, ap, sym, subst, bit_and,
  bit_xor, Bool, true, false, ◌||◌, ◌&&◌, not, Option, none, some, List, [], ◌∷◌, ◌==◌, ==_iff, leb,
  ltb, ltb→lt, if◌then◌else◌, length, get_or, set, get_or-set_self, get_or-set_ne, ◌⊎◌, length-set,
  replicate, Bool-cases, Option-cases, inl, inr, arith,
}
use native.Mathlib.Nat.{mod-lt, one-le-pow, mod-eq_of_lt, mod_self, pow-le-pow_right}
use kvtier.Common.{u32, u64}
use kvtier.Bits.{bit_and_mask}
use kvtier.Probing.{probe}
use kvtier.Hash.{hash_mix64}

pub record SideSlot : Type 0 where
  pub prefix_id : ℕ
  pub group_idx : ℕ
  pub node : ℕ
  pub used : Bool

pub record SideTbl : Type 0 where
  pub cap_slots : ℕ
  pub count : ℕ
  pub slots : List SideSlot

abbrev pub empty_slot : SideSlot
empty_slot = record { prefix_id = 0; group_idx = 0; node = 0; used = false }

-- KV_SIDE_INIT_CAP
abbrev pub side_init_cap : ℕ
side_init_cap = 4096

unfoldable pub side_init : SideTbl
side_init = record {
  cap_slots = side_init_cap;
  count = 0;
  slots = replicate side_init_cap empty_slot;
}

-- `static_cast<uint32_t>(h) & mask`
unfoldable pub side_start : ℕ → ℕ → ℕ → ℕ
side_start mask prefix_id group_idx =
    bit_and (u32 (hash_mix64 (bit_xor prefix_id (u64 (group_idx * 2 ^ 32))))) mask

abbrev pub same_key : ℕ → ℕ → SideSlot → Bool
same_key prefix_id group_idx s = s.prefix_id == prefix_id && s.group_idx == group_idx

-- where the loops of `side_put` and `side_get` end
abbrev pub stops_at : ℕ → ℕ → SideSlot → Bool
stops_at prefix_id group_idx s = not s.used || same_key prefix_id group_idx s

-- the copy of one used slot into the new table
unfoldable pub side_copy : ℕ → SideSlot → List SideSlot → List SideSlot
side_copy ncap s ns =
    elim (probe empty_slot (λ x. not x.used) ncap (side_start (ncap - 1) s.prefix_id s.group_idx)
      (ncap - 1) ns) [ none ↦ ns | some j ↦ set ns j s ]

-- the loop of `side_grow` over the old slots
unfoldable pub side_rehash : ℕ → List SideSlot → List SideSlot → List SideSlot
side_rehash ncap [] ns = ns
side_rehash ncap (s ∷ old) ns = side_rehash ncap old (if s.used then side_copy ncap s ns else ns)

unfoldable pub side_grow : SideTbl → SideTbl
side_grow t =
    let ncap = u32 (t.cap_slots * 2) in
    record t { cap_slots = ncap; slots = side_rehash ncap t.slots (replicate ncap empty_slot) }

abbrev pub side_grown : SideTbl → SideTbl
side_grown t = if leb (u32 (t.cap_slots * 7)) (u32 (t.count * 10)) then side_grow t else t

-- what `side_put` does at the slot where its loop ended
unfoldable pub side_store : SideTbl → ℕ → ℕ → ℕ → ℕ → SideTbl
side_store t prefix_id group_idx node j =
    let s = get_or t.slots j empty_slot in
    if s.used then record t { slots = set t.slots j (record s { node = node }) } else record t {
      slots =
          set t.slots j
            (record { prefix_id = prefix_id; group_idx = group_idx; node = node; used = true });
      count = u32 (t.count + 1);
    }

-- the slot that a key's loop ends at
unfoldable pub side_find : SideTbl → ℕ → ℕ → Option ℕ
side_find t prefix_id group_idx =
    probe empty_slot (stops_at prefix_id group_idx) t.cap_slots
      (side_start (t.cap_slots - 1) prefix_id group_idx) (t.cap_slots - 1) t.slots

unfoldable pub side_put : SideTbl → ℕ → ℕ → ℕ → SideTbl
side_put t prefix_id group_idx node =
    let t' = side_grown t in
    elim (side_find t' prefix_id group_idx) [
      | none ↦ t'
      | some j ↦ side_store t' prefix_id group_idx node j
    ]

unfoldable pub side_get : SideTbl → ℕ → ℕ → Option ℕ
side_get t prefix_id group_idx =
    if t.cap_slots == 0 then none else elim (side_find t prefix_id group_idx) [
      | none ↦ none
      | some j ↦
          if (get_or t.slots j empty_slot).used
          then some (get_or t.slots j empty_slot).node
          else none
    ]
