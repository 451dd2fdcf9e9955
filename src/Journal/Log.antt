-- ===== src/Journal/Log.antt =====
-- The writing half of src/journal.cpp: pages are filled in `stage` and written when they are full
-- or flushed.
use kvtier.Prelude.{
  ℕ, zero, suc, ◌+◌, Option, none, some, List, [], ◌++◌, ◌==◌, ltb, leb, if◌then◌else◌, length,
  take, drop, ℤ, neg, eq_ℤ,
}
use kvtier.Common.{u16, u32, u64, kv_page_size, kv_eok, kv_einval, kv_efull}
use kvtier.Common.Bytes.{le_bytes}
use kvtier.Device.{Device, write_page}
use kvtier.Journal.{
  JournalRec, Journal, Addr, jrec_bytes, jrec_n_lens, jrec_crc, jrec_total, words_bytes, zero_page,
  kv_jop_put, kv_jop_del, kv_jop_trim,
}

-- `stage` is allocated; an allocation does not fail
unfoldable pub journal_init : Device → ℕ → ℕ → Journal
journal_init dev journal_page journal_pages = record {
  dev = dev;
  journal_page = journal_page;
  journal_pages = journal_pages;
  cur_page = 0;
  cur_off = 0;
  stage = zero_page;
  dropped = 0;
  bytes_written = 0;
}

unfoldable pub journal_flush_page : Journal → Journal × ℤ
journal_flush_page j =
    let (dev, rc) = write_page j.dev (u64 (j.journal_page + j.cur_page)) j.stage in
    if j.cur_off == 0 then (j, kv_eok) else (record j { dev = dev }, rc)

unfoldable pub journal_next_page : Journal → Journal × ℤ
journal_next_page j =
    let (j', rc) = journal_flush_page j in
    if eq_ℤ rc kv_eok
    then (record j' { cur_page = u32 (j'.cur_page + 1); cur_off = 0; stage = zero_page }, kv_eok)
    else (j', rc)

-- `memcpy` of `bytes` to `stage + off`
unfoldable pub memcpy_at : List ℕ → ℕ → List ℕ → List ℕ
memcpy_at stage off bytes = take off stage ++ (bytes ++ drop (off + length bytes) stage)

-- the record with its device and CRC filled in
unfoldable pub sealed : Journal → JournalRec → ℕ → List ℕ → List ℕ → JournalRec
sealed j r data_crc lens path =
    let r' : JournalRec = record r { dev_id = u16 j.dev.dev_id; crc32 = 0 } in
    record r' {
      crc32 =
          jrec_crc (jrec_bytes r') (r'.op == kv_jop_put) data_crc (take (jrec_n_lens r') lens)
            (take r'.path_len path);
    }

-- what `journal_append` copies behind one another
unfoldable pub entry_image : JournalRec → ℕ → List ℕ → List ℕ → List ℕ
entry_image r data_crc lens path =
    jrec_bytes r
    ++ ((if r.op == kv_jop_put then le_bytes 4 data_crc else [])
        ++ (words_bytes 4 (take (jrec_n_lens r) lens) ++ words_bytes 8 (take r.path_len path)))

-- the end of `journal_append`, from `uint8_t *dst` on
unfoldable pub journal_store : Journal → JournalRec → ℕ → List ℕ → List ℕ → Journal × ℤ
journal_store j r data_crc lens path = (
  record j {
    stage = memcpy_at j.stage j.cur_off (entry_image r data_crc lens path);
    cur_off = u32 (j.cur_off + jrec_total r);
    bytes_written = u64 (j.bytes_written + jrec_total r);
  },
  kv_eok,
)

abbrev pub journal_drop : Journal → Journal × ℤ
journal_drop j = (record j { dropped = u32 (j.dropped + 1) }, kv_efull)

unfoldable pub journal_append : Journal → JournalRec → ℕ → List ℕ → List ℕ → Journal × ℤ
journal_append j r data_crc lens path =
    let r' = sealed j r data_crc lens path in
    let total = jrec_total r' in
    let (j', rc) = journal_next_page j in
    if ltb kv_page_size total
    then (j, neg kv_einval)
    else if leb j.journal_pages j.cur_page
    then journal_drop j
    else if ltb kv_page_size (j.cur_off + total)
    then if eq_ℤ rc kv_eok
      then if leb j'.journal_pages j'.cur_page
        then journal_drop j'
        else journal_store j' r' data_crc lens path
      else (j', rc)
    else journal_store j r' data_crc lens path

-- `memset(&r, 0, sizeof(r))`
abbrev pub zero_rec : JournalRec
zero_rec = record {
  op = 0;
  dev_id = 0;
  prefix_id = 0;
  group_idx = 0;
  ver = 0;
  addr_dev = 0;
  addr_page = 0;
  addr_off = 0;
  addr_len = 0;
  stripe_idx = 0;
  stripe_cnt = 0;
  flags = 0;
  expire_ts = 0;
  crc32 = 0;
  path_len = 0;
  n_recs = 0;
}

-- the arguments of `journal_put` but the address and the arrays
pub record PutArgs : Type 0 where
  pub prefix_id : ℕ
  pub group_idx : ℕ
  pub ver : ℕ
  pub expire_ts : ℕ
  pub stripe_idx : ℕ
  pub stripe_cnt : ℕ
  pub flags : ℕ
  pub n_recs : ℕ
  pub data_len : ℕ
  pub path_len : ℕ

abbrev pub put_rec : PutArgs → JournalRec
put_rec a = record zero_rec {
  op = kv_jop_put;
  prefix_id = a.prefix_id;
  group_idx = a.group_idx;
  ver = a.ver;
  expire_ts = a.expire_ts;
  stripe_idx = a.stripe_idx;
  stripe_cnt = a.stripe_cnt;
  flags = a.flags;
  path_len = u16 a.path_len;
  n_recs = a.n_recs;
}

unfoldable pub journal_put : Journal → PutArgs → Option Addr → List ℕ → List ℕ → Journal × ℤ
journal_put j a none rec_lens path = journal_append j (put_rec a) 0 rec_lens path
journal_put j a (some addr) rec_lens path =
    let r : JournalRec = record (put_rec a) {
      addr_dev = addr.dev_id;
      addr_page = addr.page_no;
      addr_off = a.data_len;
      addr_len = addr.len_pages;
    } in
    journal_append j r addr.crc rec_lens path

unfoldable pub journal_del : Journal → ℕ → ℕ → Journal × ℤ
journal_del j prefix_id group_idx =
    journal_append j
      (record zero_rec { op = kv_jop_del; prefix_id = prefix_id; group_idx = group_idx }) 0 [] []

unfoldable pub journal_trim : Journal → ℕ → ℕ → Journal × ℤ
journal_trim j region_idx epoch =
    journal_append j
      (record zero_rec { op = kv_jop_trim; addr_page = region_idx; addr_len = u32 epoch }) 0 [] []

-- the loop of `journal_reset`: `n` pages from `p` on
unfoldable pub clear_pages : ℕ → ℕ → Journal → Journal × ℤ
clear_pages zero p j = (j, kv_eok)
clear_pages (suc n) p j =
    let (dev, rc) = write_page j.dev (u64 (j.journal_page + p)) zero_page in
    let j' : Journal = record j { dev = dev } in
    let rest = clear_pages n (p + 1) j' in if eq_ℤ rc kv_eok then rest else (j', rc)

unfoldable pub journal_reset : Journal → Journal × ℤ
journal_reset j =
    let (j', rc) = clear_pages j.journal_pages 0 j in
    if eq_ℤ rc kv_eok
    then (record j' { cur_page = 0; cur_off = 0; stage = zero_page }, kv_eok)
    else (j', rc)

unfoldable pub journal_flush : Journal → Journal × ℤ
journal_flush j = journal_flush_page j
