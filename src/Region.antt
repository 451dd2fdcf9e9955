-- ===== src/Region.antt =====
-- src/region.hpp and src/region.cpp: the superblock in pages 0 and 1, the region headers, and
-- `RegionMgr`. A packed struct is the list of its bytes; `field` reads a field back. The clock
-- (`now_s`) is an argument. `cur_open` is set and never read, and `rotate_mtx` makes a rotation
-- atomic; both are left out.
pub mod Layout
pub mod Recovery
pub mod Manager
pub mod Headers
pub mod Pages
mod Examples
use kvtier.Prelude.{
  ℕ, zero, suc, ◌+◌, ◌-◌, ◌*◌, ◌/◌, ◌%◌, Bool, true, false, ◌&&◌, ◌||◌, not, Option, none, some,
  List, [], ◌∷◌, ◌++◌, ◌==◌, ltb, if◌then◌else◌, length, get_or, set, take, drop, replicate, ℤ, pos,
  negsuc, neg, eq_ℤ, pos_part,
}
use kvtier.Common.{kv_page_size, kv_sb_magic, kv_rg_magic, kv_eok, kv_enoent, kv_einval, u16, u64}
use kvtier.Common.Bytes.{le_bytes, field}
use kvtier.Crc.{crc32_partial}
use kvtier.Device.{Device, read_page, write_page}

-- `enum` of region states in include/kvtier.h
abbrev pub kv_rg_free : ℕ
kv_rg_free = 0

abbrev pub kv_rg_open : ℕ
kv_rg_open = 1

abbrev pub kv_rg_frozen : ℕ
kv_rg_frozen = 2

pub record Superblock : Type 0 where
  pub magic : ℕ
  pub crc32 : ℕ
  pub fmt_ts : ℕ
  pub dev_id : ℕ
  pub version : ℕ
  pub region_cnt : ℕ
  pub region_size_pages : ℕ
  pub region_base_page : ℕ
  pub journal_page : ℕ
  pub journal_pages : ℕ
  pub cur_epoch : ℕ

pub record RegionHeader : Type 0 where
  pub magic : ℕ
  pub crc32 : ℕ
  pub epoch : ℕ
  pub base_ts : ℕ
  pub close_ts : ℕ
  pub watermark_page : ℕ
  pub live_bytes_hint : ℕ
  pub state : ℕ

abbrev pub region_base_page : ℕ
region_base_page = 2

pub record RegionHdrSh : Type 0 where
  pub epoch : ℕ
  pub base_ts : ℕ
  pub close_ts : ℕ
  pub watermark_page : ℕ
  pub live_bytes : ℤ
  pub state : ℕ

pub record RegionMgr : Type 0 where
  pub dev : Device
  pub region_cnt : ℕ
  pub region_size_pages : ℕ
  pub rg : List RegionHdrSh
  pub epoch_counter : ℕ

-- the member initialisers of `RegionHdrSh`
abbrev pub fresh_region : RegionHdrSh
fresh_region = record {
  epoch = 0;
  base_ts = 0;
  close_ts = 0;
  watermark_page = 1;
  live_bytes = pos 0;
  state = kv_rg_free;
}

pub init : Device → ℕ → ℕ → RegionMgr
init dev region_cnt region_size_pages = record {
  dev = dev;
  region_cnt = region_cnt;
  region_size_pages = region_size_pages;
  rg = replicate region_cnt fresh_region;
  epoch_counter = 0;
}

unfoldable pub page_base : RegionMgr → ℕ → ℕ
page_base rm i = region_base_page + i * rm.region_size_pages

-- `region_of_page` of src/cache.hpp; `none` is -1
unfoldable pub region_of_page : RegionMgr → ℕ → Option ℕ
region_of_page rm page =
    if ltb page region_base_page
    then none
    else some ((page - region_base_page) / rm.region_size_pages)

-- the struct's bytes: the fields, and the padding to 512 bytes
unfoldable pub sb_bytes : Superblock → List ℕ
unfolding le_bytes
sb_bytes sb =
    le_bytes 4 sb.magic
    ++ (le_bytes 4 sb.crc32
        ++ (le_bytes 8 sb.fmt_ts
            ++ (le_bytes 2 sb.dev_id
                ++ (le_bytes 2 sb.version
                    ++ (le_bytes 4 sb.region_cnt
                        ++ (le_bytes 8 sb.region_size_pages
                            ++ (le_bytes 8 sb.region_base_page
                                ++ (le_bytes 8 sb.journal_page
                                    ++ (le_bytes 8 sb.journal_pages
                                        ++ (le_bytes 8 sb.cur_epoch ++ replicate 448 0))))))))))

-- `reinterpret_cast<Superblock *>(page)`
unfoldable pub sb_of : List ℕ → Superblock
unfolding field
sb_of page = record {
  magic = field page 0 4;
  crc32 = field page 4 4;
  fmt_ts = field page 8 8;
  dev_id = field page 16 2;
  version = field page 18 2;
  region_cnt = field page 20 4;
  region_size_pages = field page 24 8;
  region_base_page = field page 32 8;
  journal_page = field page 40 8;
  journal_pages = field page 48 8;
  cur_epoch = field page 56 8;
}

-- over the bytes of the struct but the four of `crc32`
unfoldable pub sb_crc : List ℕ → ℕ
sb_crc page = crc32_partial (crc32_partial 0 (take 4 page)) (take 504 (drop 8 page))

unfoldable pub sb_valid : List ℕ → Bool
sb_valid page = (sb_of page).magic == kv_sb_magic && sb_crc page == (sb_of page).crc32

-- `sb1` is the better copy
unfoldable pub sb_newer : Superblock → Superblock → Bool
sb_newer sb₁ best =
    ltb best.cur_epoch sb₁.cur_epoch
    || (sb₁.cur_epoch == best.cur_epoch && ltb best.fmt_ts sb₁.fmt_ts)

pub data Result {ℓ} (A : Type ℓ) : Type ℓ where
  ok : A → Result A
  err : ℤ → Result A

-- the copy on one page, if it can be read and is valid
unfoldable pub sb_copy : Device → ℕ → Option Superblock
unfolding read_page
sb_copy dev p =
    let (rc, page) = read_page dev p in
    if eq_ℤ rc kv_eok && sb_valid page then some (sb_of page) else none

sb_choose : Option Superblock → Option Superblock → Result Superblock
sb_choose none none = err (neg kv_enoent)
sb_choose (some sb₀) none = ok sb₀
sb_choose none (some sb₁) = ok sb₁
sb_choose (some sb₀) (some sb₁) = if sb_newer sb₁ sb₀ then ok sb₁ else ok sb₀

unfoldable pub sb_load : Device → Result Superblock
unfolding sb_choose
sb_load dev = sb_choose (sb_copy dev 0) (sb_copy dev 1)

-- the superblock that `sb_write` builds, before `sb_set_crc`
unfoldable pub sb_draft : RegionMgr → ℕ → Superblock
sb_draft rm now_s = record {
  magic = kv_sb_magic;
  crc32 = 0;
  fmt_ts =
      if (get_or rm.rg 0 fresh_region).base_ts == 0
      then now_s
      else (get_or rm.rg 0 fresh_region).base_ts;
  dev_id = u16 rm.dev.dev_id;
  version = 1;
  region_cnt = rm.region_cnt;
  region_size_pages = rm.region_size_pages;
  region_base_page = region_base_page;
  journal_page = 0;
  journal_pages = 0;
  cur_epoch = rm.epoch_counter;
}

unfoldable pub sb_set_crc : Superblock → Superblock
sb_set_crc sb = record sb { crc32 = sb_crc (sb_bytes sb) }

-- a page that starts with the struct and is zero after it
unfoldable pub sb_page : Superblock → List ℕ
sb_page sb = sb_bytes sb ++ replicate (kv_page_size - 512) 0

unfoldable pub sb_write : RegionMgr → ℕ → RegionMgr × ℤ
sb_write rm now_s =
    let dst = if rm.epoch_counter % 2 == 0 then 0 else 1 in
    let (dev, rc) = write_page rm.dev dst (sb_page (sb_set_crc (sb_draft rm now_s))) in
    (record rm { dev = dev }, rc)
