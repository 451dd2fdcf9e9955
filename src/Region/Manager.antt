-- ===== src/Region/Manager.antt =====
-- src/region.cpp: the region headers on the device, `load`, `format` and `next_free`.
use kvtier.Prelude.{
  ℕ, zero, suc, ◌+◌, ◌-◌, Bool, ◌&&◌, ◌||◌, not, Option, none, some, List, [], ◌∷◌, ◌++◌, ◌==◌, ltb,
  ◌^◌, if◌then◌else◌, get_or, set, take, drop, replicate, ℤ, pos, neg, eq_ℤ, pos_part,
}
use kvtier.Common.{kv_page_size, kv_rg_magic, kv_eok, kv_einval}
use kvtier.Common.Bytes.{le_bytes, field}
use kvtier.Crc.{crc32_partial}
use kvtier.Device.{read_page, write_page}
use kvtier.Region.{
  Superblock, RegionHeader, RegionHdrSh, RegionMgr, ok, err, fresh_region, page_base, kv_rg_free,
  sb_load, sb_write,
}

-- the whole page: the fields, and the padding
unfoldable pub rg_bytes : RegionHeader → List ℕ
unfolding le_bytes
rg_bytes h =
    le_bytes 4 h.magic
    ++ (le_bytes 4 h.crc32
        ++ (le_bytes 8 h.epoch
            ++ (le_bytes 8 h.base_ts
                ++ (le_bytes 8 h.close_ts
                    ++ (le_bytes 8 h.watermark_page
                        ++ (le_bytes 8 h.live_bytes_hint
                            ++ (le_bytes 1 h.state ++ replicate (kv_page_size - 49) 0)))))))

unfoldable pub rg_of : List ℕ → RegionHeader
unfolding field
rg_of page = record {
  magic = field page 0 4;
  crc32 = field page 4 4;
  epoch = field page 8 8;
  base_ts = field page 16 8;
  close_ts = field page 24 8;
  watermark_page = field page 32 8;
  live_bytes_hint = field page 40 8;
  state = field page 48 1;
}

-- over the bytes of the page but the four of `crc32`
unfoldable pub rg_crc : List ℕ → ℕ
rg_crc page = crc32_partial (crc32_partial 0 (take 4 page)) (drop 8 page)

-- the header that `write_header` builds, before its CRC
unfoldable pub header_draft : RegionHdrSh → RegionHeader
header_draft sh = record {
  magic = kv_rg_magic;
  crc32 = 0;
  epoch = sh.epoch;
  base_ts = sh.base_ts;
  close_ts = sh.close_ts;
  watermark_page = sh.watermark_page;
  live_bytes_hint = pos_part sh.live_bytes;
  state = sh.state;
}

unfoldable pub rg_set_crc : RegionHeader → RegionHeader
rg_set_crc h = record h { crc32 = rg_crc (rg_bytes h) }

unfoldable pub write_header : RegionMgr → ℕ → RegionMgr × ℤ
write_header rm idx =
    let h = rg_set_crc (header_draft (get_or rm.rg idx fresh_region)) in
    let (dev, rc) = write_page rm.dev (page_base rm idx) (rg_bytes h) in
    (record rm { dev = dev }, rc)

unfoldable pub rg_valid : List ℕ → Bool
rg_valid page = (rg_of page).magic == kv_rg_magic && rg_crc page == (rg_of page).crc32

-- `static_cast<int64_t>` of a 64-bit word
abbrev pub as_int64 : ℕ → ℤ
as_int64 x = if ltb x (2 ^ 63) then pos x else neg (pos (2 ^ 64 - x))

-- what `load` puts into `rg[i]` for the page read
unfoldable pub load_region : List ℕ → RegionHdrSh → RegionHdrSh
load_region page sh =
    let h = rg_of page in
    if rg_valid page
    then record {
      epoch = h.epoch;
      base_ts = h.base_ts;
      close_ts = h.close_ts;
      watermark_page = h.watermark_page;
      live_bytes = as_int64 h.live_bytes_hint;
      state = h.state;
    }
    else record sh { state = kv_rg_free; epoch = 0; watermark_page = 1 }

-- the loop of `load`: `n` regions from `i` on; a failed read ends it with the regions read so far
unfoldable pub load_regions : ℕ → ℕ → RegionMgr → RegionMgr × ℤ
load_regions zero i rm = (rm, kv_eok)
load_regions (suc n) i rm =
    let (rc, page) = read_page rm.dev (page_base rm i) in
    let rm' : RegionMgr = record rm {
      rg = set rm.rg i (load_region page (get_or rm.rg i fresh_region));
    } in
    let rest = load_regions n (i + 1) rm' in if eq_ℤ rc kv_eok then rest else (rm, rc)

unfoldable pub load_sized : RegionMgr → Superblock → RegionMgr × ℤ
load_sized rm sb =
    let (rm', rc) = load_regions rm.region_cnt 0 rm in
    if not (sb.region_cnt == rm.region_cnt) || not (sb.region_size_pages == rm.region_size_pages)
    then (rm, neg kv_einval)
    else if eq_ℤ rc kv_eok
    then (record rm' { epoch_counter = sb.cur_epoch }, kv_eok)
    else (rm', rc)

unfoldable pub load : RegionMgr → RegionMgr × ℤ
load rm = elim (sb_load rm.dev) [ ok sb ↦ load_sized rm sb | err rc ↦ (rm, rc) ]

-- the loop of `format`, which a failed header write ends
unfoldable pub format_regions : ℕ → ℕ → ℕ → RegionMgr → RegionMgr × ℤ
format_regions zero i cur_epoch rm = (rm, kv_eok)
format_regions (suc n) i cur_epoch rm =
    let fresh : RegionHdrSh = record fresh_region { epoch = cur_epoch } in
    let (rm', rc) = write_header (record rm { rg = set rm.rg i fresh }) i in
    let rest = format_regions n (i + 1) cur_epoch rm' in if eq_ℤ rc kv_eok then rest else (rm', rc)

unfoldable pub format : RegionMgr → ℕ → ℕ → RegionMgr × ℤ
format rm cur_epoch now_s =
    let (rm', rc) =
      format_regions rm.region_cnt 0 cur_epoch (record rm { epoch_counter = cur_epoch }) in
    if eq_ℤ rc kv_eok then sb_write rm' now_s else (rm', rc)

-- the first free region of a list that starts at index `i`; `none` is -1
unfoldable pub first_free : ℕ → List RegionHdrSh → Option ℕ
first_free i [] = none
first_free i (sh ∷ rg) =
    let rest = first_free (i + 1) rg in if sh.state == kv_rg_free then some i else rest

unfoldable pub next_free : RegionMgr → Option ℕ
next_free rm = first_free 0 rm.rg
