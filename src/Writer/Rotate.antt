-- ===== src/Writer/Rotate.antt =====
-- The change of region in src/writer.cpp: `writer_freeze_and_rotate` and
-- `writer_flush_watermark`, with `trim_region` of src/cache.cpp and `cache_force_free_region` of
-- src/gc.cpp. The device is one, reached through `rm` and `jour`. What trimming leaves on the
-- device is the environment's (`trim`). `cache_drop_region` changes of the regions the live bytes;
-- which it leaves is a parameter (`dropped`). What it does besides, to the leaves, the journal, the
-- DRAM cache and the tombstones, is left out. The clock is an argument.

pub mod Regions
pub mod Rotation
pub mod Shard
mod Examples
use kvtier.Prelude.{
  ℕ, zero, suc, ◌+◌, ◌-◌, ◌%◌, ◌^◌, Bool, true, false, not, Option, none, some, List, [], ◌∷◌, ◌==◌,
  ltb, if◌then◌else◌, get_or, set, ℤ, pos, neg,
}
use kvtier.Common.{kv_eok, kv_efull, u32, u64}
use kvtier.Device.{Device}
use kvtier.Region.{
  RegionHdrSh, RegionMgr, fresh_region, page_base, kv_rg_free, kv_rg_open, kv_rg_frozen, sb_write,
}
use kvtier.Region.Manager.{write_header}
use kvtier.Gc.{empty_region, least_live}
use kvtier.Journal.{Journal}
use kvtier.Journal.Log.{journal_trim, journal_flush}

-- the fields of `shard_writer` that name the place for the next batch; `rotations` is the cache's
-- `stat_rotations`
pub record ShardWriter : Type 0 where
  pub rm : RegionMgr
  pub jour : Journal
  pub region : ℕ
  pub next_page : ℕ
  pub confirmed_page : ℕ
  pub since_wm : ℕ
  pub rotations : ℕ

abbrev pub rg_at : RegionMgr → ℕ → RegionHdrSh
rg_at rm i = get_or rm.rg i fresh_region

-- `rg[i] = sh` and `write_header(i)`
abbrev pub store_region : RegionMgr → ℕ → RegionHdrSh → RegionMgr
store_region rm i sh = (write_header (record rm { rg = set rm.rg i sh }) i).0

abbrev pub trimmed : RegionHdrSh → RegionHdrSh
trimmed sh = record sh {
  state = kv_rg_free;
  live_bytes = pos 0;
  epoch = 0;
  close_ts = 0;
  watermark_page = 1;
}

-- the regions from index `i` on, with other live bytes
unfoldable pub with_live : (ℕ → ℤ) → ℕ → List RegionHdrSh → List RegionHdrSh
with_live live i [] = []
with_live live i (sh ∷ rg) = record sh { live_bytes = live i } ∷ with_live live (i + 1) rg

-- a region that is opened, with the next epoch
abbrev pub opened_region : RegionMgr → ℕ → RegionHdrSh → RegionHdrSh
opened_region rm now_s sh = record sh {
  epoch = u64 (rm.epoch_counter + 1);
  base_ts = now_s;
  close_ts = 0;
  watermark_page = 1;
  live_bytes = pos 0;
  state = kv_rg_open;
}

unfoldable pub open_region : RegionMgr → ℕ → ℕ → RegionMgr
open_region rm i now_s =
    let rm' : RegionMgr = record rm { epoch_counter = u64 (rm.epoch_counter + 1) } in
    (sb_write (store_region rm' i (opened_region rm now_s (rg_at rm i))) now_s).0

abbrev pub frozen_region : RegionHdrSh → ℕ → ℕ → RegionHdrSh
frozen_region sh rel now_s = record sh {
  watermark_page = rel;
  close_ts = now_s;
  state = kv_rg_frozen;
}

unfoldable pub writer_flush_watermark : ShardWriter → ShardWriter
writer_flush_watermark w =
    let base = page_base w.rm w.region in
    let rel = w.confirmed_page - base in
    let rel' = if ltb w.rm.region_size_pages rel then w.rm.region_size_pages else rel in
    if ltb w.confirmed_page base then w else record w {
      rm = store_region w.rm w.region (record (rg_at w.rm w.region) { watermark_page = rel' });
    }

-- the second half, with the next region if there is one
unfoldable pub move_cursor : ShardWriter → ℕ → RegionMgr × Option ℕ → ShardWriter × ℤ
move_cursor w now_s (rm, none) = (record w { rm = rm }, neg kv_efull)
move_cursor w now_s (rm, some next) = (
  record w {
    rm = open_region rm next now_s;
    region = next;
    next_page = 1;
    confirmed_page = page_base rm next + 1;
    since_wm = 0;
    rotations = u64 (w.rotations + 1);
  },
  kv_eok,
)

module _ (trim : Device → ℕ → ℕ → Device) (dropped : ℕ → RegionMgr → ℕ → ℤ) where
  unfoldable pub trim_region : RegionMgr → ℕ → RegionMgr
  trim_region rm i =
      let dev = trim rm.dev (page_base rm i + 1) (u32 (rm.region_size_pages - 1)) in
      store_region (record rm { dev = dev }) i (trimmed (rg_at rm i))

  -- `none` is -1
  unfoldable pub cache_force_free_region : RegionMgr → Option ℕ → RegionMgr × Option ℕ
  cache_force_free_region rm avoid = elim (empty_region avoid 0 rm.rg) [
    | some i ↦ (trim_region rm i, some i)
    | none ↦ elim (least_live avoid 0 rm.rg (pos (2 ^ 63 - 1)) none) [
      | some v ↦ (trim_region (record rm { rg = with_live (dropped v rm) 0 rm.rg }) v, some v)
      | none ↦ (rm, none)
    ]
  ]

  -- the region to write next: the one after `old` if it is free
  unfoldable pub next_region : RegionMgr → ℕ → RegionMgr × Option ℕ
  next_region rm old =
      let next = (old + 1) % rm.region_cnt in
      let freed = cache_force_free_region rm (some old) in
      if not ((rg_at rm next).state == kv_rg_free) then freed else (rm, some next)

  -- the first half: the old region is frozen, and the journal takes its record
  unfoldable pub freeze : ShardWriter → ℕ → ShardWriter
  freeze w now_s =
      let old = w.region in
      let base = page_base w.rm old in
      let rel = if ltb base w.confirmed_page then w.confirmed_page - base else 1 in
      let rm = store_region w.rm old (frozen_region (rg_at w.rm old) rel now_s) in
      let (j, _) = journal_trim (record w.jour { dev = rm.dev }) (u32 old) (rg_at rm old).epoch in
      let (j', _) = journal_flush j in record w { rm = record rm { dev = j'.dev }; jour = j' }

  unfoldable pub writer_freeze_and_rotate : ShardWriter → ℕ → ShardWriter × ℤ
  writer_freeze_and_rotate w now_s =
      let w' = freeze w now_s in move_cursor w' now_s (next_region w'.rm w.region)
