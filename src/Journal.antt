-- ===== src/Journal.antt =====
-- src/journal.hpp and src/journal.cpp up to `journal_flush`: the log of puts, deletions and trims.
-- Its page in memory is `stage`. The mutex makes each operation atomic. The checkpoint file of the
-- same source is not here. An array that may be null is a list, empty for null.
pub mod Entry
pub mod Words
pub mod Append
pub mod Replay
pub mod Log
pub mod Roundtrip
mod Examples
use kvtier.Prelude.{
  ℕ, zero, suc, ◌+◌, ◌-◌, ◌*◌, ◌%◌, ◌^◌, Bool, ◌||◌, List, [], ◌∷◌, ◌++◌, ◌==◌, ltb, leb, not,
  if◌then◌else◌, bit_and, length, take, drop, replicate, ℤ, pos, neg, eq_ℤ,
}
use kvtier.Common.{u16, u32, kv_page_size, kv_eok, kv_einval, kv_efull, kv_max_layers_cap}
use kvtier.Common.Bytes.{le_bytes, le_value, field}
use kvtier.Crc.{crc32_partial}
use kvtier.Device.{Device, read_page, write_page}

-- the operations of include/kvtier.h
abbrev pub kv_jop_put : ℕ
kv_jop_put = 1

abbrev pub kv_jop_del : ℕ
kv_jop_del = 2

abbrev pub kv_jop_trim : ℕ
kv_jop_trim = 3

abbrev pub kv_journal_rec_size : ℕ
kv_journal_rec_size = 64

abbrev pub kv_jflag_uniform : ℕ
kv_jflag_uniform = 1024

-- `_pad` is always written as zero
pub record JournalRec : Type 0 where
  pub op : ℕ
  pub dev_id : ℕ
  pub prefix_id : ℕ
  pub group_idx : ℕ
  pub ver : ℕ
  pub addr_dev : ℕ
  pub addr_page : ℕ
  pub addr_off : ℕ
  pub addr_len : ℕ
  pub stripe_idx : ℕ
  pub stripe_cnt : ℕ
  pub flags : ℕ
  pub expire_ts : ℕ
  pub crc32 : ℕ
  pub path_len : ℕ
  pub n_recs : ℕ

pub record Journal : Type 0 where
  pub dev : Device
  pub journal_page : ℕ
  pub journal_pages : ℕ
  pub cur_page : ℕ
  pub cur_off : ℕ
  pub stage : List ℕ
  pub dropped : ℕ
  pub bytes_written : ℕ

-- the fields of `kv_addr` that `journal_put` reads
pub record Addr : Type 0 where
  pub dev_id : ℕ
  pub page_no : ℕ
  pub len_pages : ℕ
  pub crc : ℕ

abbrev pub zero_page : List ℕ
zero_page = replicate kv_page_size 0

unfoldable pub jrec_bytes : JournalRec → List ℕ
unfolding le_bytes
jrec_bytes r =
    le_bytes 1 r.op
    ++ (le_bytes 1 0
        ++ (le_bytes 2 r.dev_id
            ++ (le_bytes 8 r.prefix_id
                ++ (le_bytes 4 r.group_idx
                    ++ (le_bytes 4 r.ver
                        ++ (le_bytes 4 r.addr_dev
                            ++ (le_bytes 8 r.addr_page
                                ++ (le_bytes 4 r.addr_off
                                    ++ (le_bytes 4 r.addr_len
                                        ++ (le_bytes 4 r.stripe_idx
                                            ++ (le_bytes 4 r.stripe_cnt
                                                ++ (le_bytes 4 r.flags
                                                    ++ (le_bytes 4 r.expire_ts
                                                        ++ (le_bytes 4 r.crc32
                                                            ++ (le_bytes 2 r.path_len
                                                            ++ le_bytes 2 r.n_recs)))))))))))))))

-- `reinterpret_cast<journal_rec *>(page + off)`, on the bytes from `off` on
unfoldable pub jrec_of : List ℕ → JournalRec
unfolding field
jrec_of raw = record {
  op = field raw 0 1;
  dev_id = field raw 2 2;
  prefix_id = field raw 4 8;
  group_idx = field raw 12 4;
  ver = field raw 16 4;
  addr_dev = field raw 20 4;
  addr_page = field raw 24 8;
  addr_off = field raw 32 4;
  addr_len = field raw 36 4;
  stripe_idx = field raw 40 4;
  stripe_cnt = field raw 44 4;
  flags = field raw 48 4;
  expire_ts = field raw 52 4;
  crc32 = field raw 56 4;
  path_len = field raw 60 2;
  n_recs = field raw 62 2;
}

-- an array of words of `w` bytes
unfoldable pub words_bytes : ℕ → List ℕ → List ℕ
words_bytes w [] = []
words_bytes w (x ∷ xs) = le_bytes w x ++ words_bytes w xs

unfoldable pub words_of : ℕ → ℕ → List ℕ → List ℕ
words_of zero w bytes = []
words_of (suc n) w bytes = le_value (take w bytes) ∷ words_of n w (drop w bytes)

unfoldable pub jrec_n_lens : JournalRec → ℕ
jrec_n_lens r =
    if not (r.op == kv_jop_put) || r.n_recs == 0
    then 0
    else if bit_and r.flags kv_jflag_uniform == 0
    then r.n_recs
    else 1

-- Over the record's bytes `raw` but its CRC, and the arrays. A piece that is left out is an empty
-- one.
unfoldable pub jrec_crc : List ℕ → Bool → ℕ → List ℕ → List ℕ → ℕ
jrec_crc raw is_put data_crc lens path =
    let crc₁ = crc32_partial (crc32_partial 0 (take 56 raw)) (take 4 (drop 60 raw)) in
    let crc₂ = crc32_partial crc₁ (if is_put then le_bytes 4 data_crc else []) in
    crc32_partial (crc32_partial crc₂ (words_bytes 4 lens)) (words_bytes 8 path)

-- `dlen`
abbrev pub data_crc_len : JournalRec → ℕ
data_crc_len r = if r.op == kv_jop_put then 4 else 0

unfoldable pub jrec_total : JournalRec → ℕ
jrec_total r = kv_journal_rec_size + data_crc_len r + jrec_n_lens r * 4 + r.path_len * 8
