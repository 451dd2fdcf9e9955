-- ===== src/Gc.antt =====
-- The choice of a region in src/gc.cpp: the victim that `cache_force_free_region` drops when no
-- frozen region is empty. What dropping does to the index is not here.
pub mod Victim
mod Examples
use kvtier.Prelude.{
  ℕ, zero, suc, ◌+◌, ◌-◌, ◌^◌, Bool, true, false, ◌||◌, ◌&&◌, Option, none, some, List, [], ◌∷◌,
  ◌==◌, ltb, if◌then◌else◌, ℤ, pos, negsuc, eq_ℤ,
}
use kvtier.Region.{RegionHdrSh, RegionMgr, kv_rg_free, kv_rg_frozen}

-- `<` on `int64_t`
abbrev pub lt_ℤ : ℤ → ℤ → Bool
lt_ℤ (pos a) (pos b) = ltb a b
lt_ℤ (pos a) (negsuc b) = false
lt_ℤ (negsuc a) (pos b) = true
lt_ℤ (negsuc a) (negsuc b) = ltb b a

-- `i == avoid`, where `none` is an `avoid` of -1
abbrev pub is_avoided : Option ℕ → ℕ → Bool
is_avoided none i = false
is_avoided (some a) i = i == a

-- the first loop, from region `i` on: a frozen region without live bytes
unfoldable pub empty_region : Option ℕ → ℕ → List RegionHdrSh → Option ℕ
empty_region avoid i [] = none
empty_region avoid i (sh ∷ rg) =
    let rest = empty_region avoid (i + 1) rg in
    if is_avoided avoid i || sh.state == kv_rg_free
    then rest
    else if sh.state == kv_rg_frozen && eq_ℤ sh.live_bytes (pos 0)
    then some i
    else rest

-- the second loop, from region `i` on, with the least live bytes so far and where they are
unfoldable pub least_live : Option ℕ → ℕ → List RegionHdrSh → ℤ → Option ℕ → Option ℕ
least_live avoid i [] best victim = victim
least_live avoid i (sh ∷ rg) best victim =
    let keep = least_live avoid (i + 1) rg best victim in
    let take_it = least_live avoid (i + 1) rg sh.live_bytes (some i) in
    if is_avoided avoid i || sh.state == kv_rg_free
    then keep
    else if sh.state == kv_rg_frozen && lt_ℤ sh.live_bytes best
    then take_it
    else keep

-- the region that `cache_force_free_region` trims; `none` is -1
unfoldable pub freed_region : RegionMgr → Option ℕ → Option ℕ
freed_region rm avoid = elim (empty_region avoid 0 rm.rg) [
  | some i ↦ some i
  | none ↦ least_live avoid 0 rm.rg (pos (2 ^ 63 - 1)) none
]
