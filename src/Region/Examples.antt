-- ===== src/Region/Examples.antt =====
-- src/region.cpp on a device of three regions, and on one whose next superblock write fails.
use kvtier.Prelude.{◌≡◌, refl, false, ◌==◌, if◌then◌else◌, none, [], ◌∷◌, pos, neg, arith}
use kvtier.Common.{kv_eok, kv_efull}
use kvtier.Common.Bytes.{field, le_value}
use kvtier.Device.{Device, write_page}
use kvtier.Region.{
  Superblock, RegionHdrSh, RegionMgr, ok, fresh_region, kv_rg_free, kv_rg_frozen, page_base,
  region_of_page, sb_load, sb_write, sb_copy, sb_valid, sb_of, sb_draft, sb_page,
}
use kvtier.Region.Manager.{write_header, load_region, rg_valid, rg_of}
use kvtier.Region.Layout.{sb_of-sb_page}
use kvtier.Region.Recovery.{sb_load-sb_write, sb_load_torn, written, next_epoch}
use kvtier.Region.Headers.{
  load_region-write_header, load_region_invalid, kept, next_free_lem, BusyBelow,
}

abbrev disk : Device
disk = record {
  dev_id = 1;
  pages = λ p. [];
  read_rc = λ p. kv_eok;
  write_rc = λ p. if p == 1 then neg kv_efull else kv_eok;
  torn = λ p bytes. [];
}

abbrev frozen : RegionHdrSh
frozen = record {
  epoch = 4;
  base_ts = 9;
  close_ts = 20;
  watermark_page = 17;
  live_bytes = pos 8192;
  state = kv_rg_frozen;
}

abbrev manager : RegionMgr
manager = record {
  dev = disk;
  region_cnt = 3;
  region_size_pages = 64;
  rg = frozen ∷ fresh_region ∷ frozen ∷ [];
  epoch_counter = 4;
}

draft-Fits : kvtier.Region.Layout.Fits (sb_draft manager 100)
unfolding sb_draft
draft-Fits = record {
  magic = omega arith;
  crc32 = omega arith;
  fmt_ts = omega arith;
  dev_id = omega arith;
  version = omega arith;
  region_cnt = omega arith;
  region_size_pages = omega arith;
  region_base_page = omega arith;
  journal_page = omega arith;
  journal_pages = omega arith;
  cur_epoch = omega arith;
}

frozen-Fits : kvtier.Region.Headers.Fits frozen
frozen-Fits = record {
  epoch = omega arith;
  base_ts = omega arith;
  close_ts = omega arith;
  watermark_page = omega arith;
  live_bytes = omega arith;
  state = omega arith;
}

empty_page : sb_valid [] ≡ false
unfolding sb_valid sb_of field le_value
empty_page = refl

no_copy : sb_copy disk 1 ≡ none
unfolding sb_copy
no_copy = rw empty_page refl

sb_load-sb_write_example : sb_load (sb_write manager 100).0.dev ≡ ok (written manager 100)
sb_load-sb_write_example = sb_load-sb_write manager 100 draft-Fits refl refl (rw no_copy tt)

sb_load_torn_example :
    sb_load (sb_write (next_epoch (sb_write manager 100).0) 200).0.dev ≡ ok (written manager 100)
sb_load_torn_example =
    sb_load_torn manager 100 200 draft-Fits refl refl (λ e. cc e) (λ bytes. empty_page)

write_ok : (write_header manager 2).1 ≡ kv_eok
unfolding write_header write_page page_base
write_ok = refl

load_region-write_header_example :
    load_region ((write_header manager 2).0.dev.pages (page_base manager 2)) fresh_region
    ≡ kept frozen
load_region-write_header_example =
    load_region-write_header manager 2 fresh_region frozen-Fits write_ok

empty_header : rg_valid [] ≡ false
unfolding rg_valid rg_of field le_value
empty_header = refl
