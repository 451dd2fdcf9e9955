-- ===== src/Region/Layout.antt =====
-- The superblock's bytes read back as the superblock.
use kvtier.Prelude.{ℕ, ◌^◌, ◌<◌, ◌≡◌, refl, List, arith}
use kvtier.Common.Bytes.{le_value-le_bytes}
use kvtier.Crc.Append.{crc32_partial-lt}
use kvtier.Region.{Superblock, sb_bytes, sb_of, sb_crc, sb_set_crc, sb_page}

-- every field fits its width
pub record Fits (sb : Superblock) : Type 0 where
  pub magic : sb.magic < 256 ^ 4
  pub crc32 : sb.crc32 < 256 ^ 4
  pub fmt_ts : sb.fmt_ts < 256 ^ 8
  pub dev_id : sb.dev_id < 256 ^ 2
  pub version : sb.version < 256 ^ 2
  pub region_cnt : sb.region_cnt < 256 ^ 4
  pub region_size_pages : sb.region_size_pages < 256 ^ 8
  pub region_base_page : sb.region_base_page < 256 ^ 8
  pub journal_page : sb.journal_page < 256 ^ 8
  pub journal_pages : sb.journal_pages < 256 ^ 8
  pub cur_epoch : sb.cur_epoch < 256 ^ 8

-- A superblock whose fields fit their widths reads back unchanged from the page it is laid out
-- on.
pub sb_of-sb_page : (sb : Superblock) → Fits sb → sb_of (sb_page sb) ≡ sb
unfolding sb_of sb_page sb_bytes
sb_of-sb_page sb f = λ i. record {
  magic = le_value-le_bytes 4 sb.magic f.magic i;
  crc32 = le_value-le_bytes 4 sb.crc32 f.crc32 i;
  fmt_ts = le_value-le_bytes 8 sb.fmt_ts f.fmt_ts i;
  dev_id = le_value-le_bytes 2 sb.dev_id f.dev_id i;
  version = le_value-le_bytes 2 sb.version f.version i;
  region_cnt = le_value-le_bytes 4 sb.region_cnt f.region_cnt i;
  region_size_pages = le_value-le_bytes 8 sb.region_size_pages f.region_size_pages i;
  region_base_page = le_value-le_bytes 8 sb.region_base_page f.region_base_page i;
  journal_page = le_value-le_bytes 8 sb.journal_page f.journal_page i;
  journal_pages = le_value-le_bytes 8 sb.journal_pages f.journal_pages i;
  cur_epoch = le_value-le_bytes 8 sb.cur_epoch f.cur_epoch i;
}

-- the stored CRC is no part of what it covers
pub sb_crc-set : (sb : Superblock) → sb_crc (sb_page (sb_set_crc sb)) ≡ sb_crc (sb_bytes sb)
unfolding sb_crc sb_page sb_bytes sb_set_crc
sb_crc-set sb = refl

pub sb_crc-lt : (page : List ℕ) → sb_crc page < 2 ^ 32
unfolding sb_crc
sb_crc-lt page = crc32_partial-lt _ _ (crc32_partial-lt 0 _ (omega arith))
