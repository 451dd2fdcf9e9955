-- ===== src/Writer/Rotate/Examples.antt =====
-- src/writer.cpp and src/cache.cpp on a device of three regions, the first of which is open.
use kvtier.Prelude.{ℕ, zero, suc, ◌≡◌, ◌≢◌, refl, ◌⊎◌, List, [], ◌∷◌, replicate, ℤ, pos, neg, arith}
use kvtier.Common.{kv_eok, kv_efull}
use kvtier.Device.{Device}
use kvtier.Region.{RegionHdrSh, RegionMgr, fresh_region, kv_rg_open, kv_rg_frozen}
use kvtier.Chunk.{payload_npages}
use kvtier.Writer.Rotate.{ShardWriter, writer_freeze_and_rotate}
use kvtier.Writer.Rotate.Regions.{state_at}
use kvtier.Writer.Rotate.Rotation.{IsShard}
use kvtier.Writer.Rotate.Shard.{Rotated, Stuck, writer_freeze_and_rotate_cases}
use kvtier.Writer.Batch.{PutReq, BatchBuf, put_bytes, concat, need_pages, writer_submit_batch}
use kvtier.Writer.Batch.Placed.{AllSized}
use kvtier.Writer.Batch.Submit.{Outcome, writer_submit_batch-Outcome}
use kvtier.Writer.Batch.Gathered.{Gathered}
use kvtier.Writer.Reopen.{reopen}
use kvtier.Writer.Reopen.Leak.{reopen_keeps_open}

abbrev disk : Device
disk = record {
  dev_id = 0;
  pages = λ p. [];
  read_rc = λ p. kv_eok;
  write_rc = λ p. kv_eok;
  torn = λ p bytes. bytes;
}

abbrev keep_pages : Device → ℕ → ℕ → Device
keep_pages d p n = d

abbrev none_live : ℕ → RegionMgr → ℕ → ℤ
none_live v rm i = pos 0

abbrev open_first : RegionHdrSh
open_first = record fresh_region { epoch = 2; live_bytes = pos 4096; state = kv_rg_open }

abbrev frozen_old : RegionHdrSh
frozen_old = record fresh_region { epoch = 1; live_bytes = pos 8192; state = kv_rg_frozen }

abbrev manager : RegionMgr
manager = record {
  dev = disk;
  region_cnt = 3;
  region_size_pages = 64;
  rg = open_first ∷ frozen_old ∷ frozen_old ∷ [];
  epoch_counter = 2;
}

abbrev writer : ShardWriter
writer = record {
  rm = manager;
  jour = record {
    dev = disk;
    journal_page = 200;
    journal_pages = 8;
    cur_page = 0;
    cur_off = 0;
    stage = replicate 4096 0;
    dropped = 0;
    bytes_written = 0;
  };
  region = 0;
  next_page = 63;
  confirmed_page = 60;
  since_wm = 0;
  rotations = 0;
}

only_first : (i : ℕ) → state_at manager i ≡ kv_rg_open → i ≡ 0
only_first zero e = refl
only_first (suc zero) e = absurd (omega (arith, e))
only_first (suc (suc zero)) e = absurd (omega (arith, e))
only_first (suc (suc (suc i))) e = absurd (omega (arith, e))

writer-IsShard : IsShard writer
writer-IsShard = record {
  cnt = refl;
  two = omega arith;
  below = omega arith;
  is_open = refl;
  only = only_first;
}

writer_freeze_and_rotate_cases_example :
    (((writer_freeze_and_rotate keep_pages none_live writer 100).1 ≡ kv_eok)
      × Rotated writer 100 (writer_freeze_and_rotate keep_pages none_live writer 100).0)
    ⊎ (((writer_freeze_and_rotate keep_pages none_live writer 100).1 ≡ neg kv_efull)
        × Stuck writer (writer_freeze_and_rotate keep_pages none_live writer 100).0)
writer_freeze_and_rotate_cases_example =
    writer_freeze_and_rotate_cases keep_pages none_live writer 100 writer-IsShard

-- three bytes in two records
abbrev small_put : PutReq
small_put = record {
  flags = 0;
  data_len = 3;
  recs = (1 ∷ 2 ∷ []) ∷ (3 ∷ []) ∷ [];
  slice = [];
  page_no = 0;
  npages = 0;
  crc = 0;
}

abbrev two_puts : List PutReq
two_puts = small_put ∷ small_put ∷ []

abbrev batch : BatchBuf
batch = record {
  buf = [];
  used = 8192;
  start_page = 0;
  npages = 0;
  reqs = two_puts;
  last_page = 0;
  region = 0;
}

two_puts-AllSized : AllSized two_puts
unfolding put_bytes concat
two_puts-AllSized = (
  record { small = omega arith; bytes = refl },
  (record { small = omega arith; bytes = refl }, tt),
)

one_page : payload_npages 3 ≡ 1
unfolding payload_npages
one_page = refl

two_pages : need_pages two_puts ≡ 2
unfolding need_pages
two_pages = omega (arith, one_page)

writer_submit_batch-Outcome_example :
    Outcome keep_pages none_live writer batch
      (writer_submit_batch keep_pages none_live writer batch 100)
writer_submit_batch-Outcome_example =
    writer_submit_batch-Outcome keep_pages none_live writer batch 100 writer-IsShard (omega arith)
      (omega (arith, two_pages)) (omega arith) two_puts-AllSized

reopen_keeps_open_example :
    (state_at (reopen none_live manager 100).0 (reopen none_live manager 100).1 ≡ kv_rg_open)
    × ((state_at manager (reopen none_live manager 100).1 ≢ kv_rg_open)
        ⊎ ((reopen none_live manager 100).1 ≡ 0))
    × ((i : ℕ)
        → state_at manager i ≡ kv_rg_open
        → state_at (reopen none_live manager 100).0 i ≡ kv_rg_open)
reopen_keeps_open_example = reopen_keeps_open none_live manager 100 refl (omega arith)
