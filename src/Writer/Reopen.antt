-- ===== src/Writer/Reopen.antt =====
-- The regions when src/cache.cpp opens a cache that was in use: `cache_open_impl` settles the state
-- of each region from its live bytes, and opens one region for the writer of the device.
pub mod Leak
use kvtier.Prelude.{
  ℕ, zero, suc, ◌+◌, ◌-◌, ◌^◌, Bool, ◌&&◌, not, Option, none, some, List, [], ◌∷◌, ◌==◌, ltb,
  if◌then◌else◌, ℤ, pos, eq_ℤ,
}
use kvtier.Region.{RegionHdrSh, RegionMgr, kv_rg_free, kv_rg_open, kv_rg_frozen, page_base}
use kvtier.Region.Manager.{first_free}
use kvtier.Writer.Rotate.{rg_at, store_region, with_live, open_region}

unfoldable pub settled : RegionHdrSh → RegionHdrSh
settled sh =
    if eq_ℤ sh.live_bytes (pos 0) && not (sh.state == kv_rg_open)
    then record sh { state = kv_rg_free }
    else if not (sh.state == kv_rg_open)
    then record sh { state = kv_rg_frozen }
    else sh

-- the loop over the regions of one device: `n` regions from `i` on
unfoldable pub settle_regions : ℕ → ℕ → RegionMgr → RegionMgr
settle_regions zero i rm = rm
settle_regions (suc n) i rm = settle_regions n (i + 1) (store_region rm i (settled (rg_at rm i)))

-- the frozen region of the least epoch, from region `i` on; `none` is -1
unfoldable pub oldest_frozen : ℕ → List RegionHdrSh → ℕ → Option ℕ → Option ℕ
oldest_frozen i [] oldest opened = opened
oldest_frozen i (sh ∷ rg) oldest opened =
    let keep = oldest_frozen (i + 1) rg oldest opened in
    let take_it = oldest_frozen (i + 1) rg sh.epoch (some i) in
    if sh.state == kv_rg_frozen && not (sh.epoch == 0) && ltb sh.epoch oldest then take_it else keep

-- the region to open; what dropping the leaves of a region leaves as live bytes is `dropped`
unfoldable pub choose_open : (ℕ → RegionMgr → ℕ → ℤ) → RegionMgr → RegionMgr × ℕ
choose_open dropped rm = elim (first_free 0 rm.rg) [
  | some i ↦ (rm, i)
  | none ↦ elim (oldest_frozen 0 rm.rg (2 ^ 64 - 1) none) [
    | some v ↦ (record rm { rg = with_live (dropped v rm) 0 rm.rg }, v)
    | none ↦ (rm, 0)
  ]
]

-- the regions, and that of the cursor
unfoldable pub reopen : (ℕ → RegionMgr → ℕ → ℤ) → RegionMgr → ℕ → RegionMgr × ℕ
reopen dropped rm now_s =
    let (rm', i) = choose_open dropped (settle_regions rm.region_cnt 0 rm) in
    (open_region rm' i now_s, i)
