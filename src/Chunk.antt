-- ===== src/Chunk.antt =====
-- src/chunk.hpp and src/chunk.cpp: a chunk on disk is a header of 64 bytes, the records or a slice
-- of a stripe, and zeros up to a whole number of pages. A `kv_data_ref` is the bytes it points to.
pub mod Layout
pub mod Validate
pub mod Parse
mod Examples
use kvtier.Prelude.{
  ℕ, zero, suc, ◌+◌, ◌-◌, ◌*◌, ◌/◌, ◌%◌, ◌^◌, Bool, true, false, List, [], ◌∷◌, ◌++◌, ◌==◌, ltb,
  if◌then◌else◌, bit_and, length, take, drop, replicate, ℤ, pos, neg, eq_ℤ, Option, none, some, not,
}
use kvtier.Common.{
  u16, u32, u64, kv_page_size, kv_chunk_hdr_size, kv_ck_magic, kv_eok, kv_ecrc, kv_einval,
  page_align,
}
use kvtier.Common.Bytes.{le_bytes, field}
use kvtier.Crc.{crc32, crc32_partial}

-- the two words of `pad` are always zero
pub record ChunkHdr : Type 0 where
  pub magic : ℕ
  pub crc32 : ℕ
  pub prefix_id : ℕ
  pub epoch : ℕ
  pub group_idx : ℕ
  pub n_tokens : ℕ
  pub ver : ℕ
  pub expire_ts : ℕ
  pub n_records : ℕ
  pub flags : ℕ
  pub total_len : ℕ
  pub stripe_idx : ℕ
  pub stripe_cnt : ℕ

-- `recs` and `slice` hold the bytes; their lengths are `n_records` and `slice_len`
pub record ChunkBuild : Type 0 where
  pub prefix_id : ℕ
  pub epoch : ℕ
  pub group_idx : ℕ
  pub n_tokens : ℕ
  pub ver : ℕ
  pub expire_ts : ℕ
  pub flags : ℕ
  pub stripe_idx : ℕ
  pub stripe_cnt : ℕ
  pub recs : List (List ℕ)
  pub slice : List ℕ

pub record RecDesc : Type 0 where
  pub layer_id : ℕ
  pub off : ℕ
  pub len : ℕ

abbrev pub record_hdr_size : ℕ
record_hdr_size = 8

-- KV_CHUNK_F_STRIPE
abbrev pub kv_chunk_f_stripe : ℕ
kv_chunk_f_stripe = 2

unfoldable pub chunk_len_pages : ℕ → ℕ
chunk_len_pages total_len = u32 (page_align (kv_chunk_hdr_size + total_len) / kv_page_size)

unfoldable pub payload_npages : ℕ → ℕ
payload_npages payload_len = u32 (u64 (payload_len + kv_page_size - 1) / kv_page_size)

unfoldable pub pages_crc : List ℕ → ℕ → ℕ
pages_crc buf npages = crc32 (take (npages * kv_page_size) buf)

-- `none` is a null `buf`
unfoldable pub pages_validate : Option (List ℕ) → ℕ → ℕ → ℤ
pages_validate none npages expected_crc = neg kv_einval
pages_validate (some buf) npages expected_crc =
    if npages == 0
    then neg kv_einval
    else if pages_crc buf npages == expected_crc
    then kv_eok
    else neg kv_ecrc

-- the sum of the loop of `chunk_build_total_len`
unfoldable pub records_len : List (List ℕ) → ℕ
records_len [] = 0
records_len (r ∷ rs) = record_hdr_size + length r + records_len rs

abbrev pub is_stripe : ChunkBuild → Bool
is_stripe b = not (bit_and b.flags kv_chunk_f_stripe == 0)

unfoldable pub chunk_build_total_len : ChunkBuild → ℕ
chunk_build_total_len b = if is_stripe b then length b.slice else u32 (records_len b.recs)

unfoldable pub hdr_bytes : ChunkHdr → List ℕ
unfolding le_bytes
hdr_bytes h =
    le_bytes 4 h.magic
    ++ (le_bytes 4 h.crc32
        ++ (le_bytes 8 h.prefix_id
            ++ (le_bytes 8 h.epoch
                ++ (le_bytes 4 h.group_idx
                    ++ (le_bytes 4 h.n_tokens
                        ++ (le_bytes 4 h.ver
                            ++ (le_bytes 4 h.expire_ts
                                ++ (le_bytes 2 h.n_records
                                    ++ (le_bytes 2 h.flags
                                        ++ (le_bytes 4 h.total_len
                                            ++ (le_bytes 4 h.stripe_idx
                                                ++ (le_bytes 4 h.stripe_cnt
                                                    ++ replicate 8 0))))))))))))

-- `reinterpret_cast<const ChunkHdr *>(buf)`
unfoldable pub hdr_of : List ℕ → ChunkHdr
unfolding field
hdr_of buf = record {
  magic = field buf 0 4;
  crc32 = field buf 4 4;
  prefix_id = field buf 8 8;
  epoch = field buf 16 8;
  group_idx = field buf 24 4;
  n_tokens = field buf 28 4;
  ver = field buf 32 4;
  expire_ts = field buf 36 4;
  n_records = field buf 40 2;
  flags = field buf 42 2;
  total_len = field buf 44 4;
  stripe_idx = field buf 48 4;
  stripe_cnt = field buf 52 4;
}

-- the bytes of the `RecordHdr` of record `i`
unfoldable pub record_hdr : ℕ → ℕ → List ℕ
unfolding le_bytes
record_hdr i len = le_bytes 2 (u16 i) ++ (le_bytes 2 0 ++ le_bytes 4 len)

-- the loop of `chunk_encode` from record `i` on
unfoldable pub records_bytes : ℕ → List (List ℕ) → List ℕ
records_bytes i [] = []
records_bytes i (r ∷ rs) = record_hdr i (length r) ++ (r ++ records_bytes (i + 1) rs)

-- the header that `chunk_encode` fills in before it computes the CRC
unfoldable pub draft_hdr : ChunkBuild → ChunkHdr
draft_hdr b = record {
  magic = kv_ck_magic;
  crc32 = 0;
  prefix_id = b.prefix_id;
  epoch = b.epoch;
  group_idx = b.group_idx;
  n_tokens = b.n_tokens;
  ver = b.ver;
  expire_ts = b.expire_ts;
  n_records = if is_stripe b then 0 else length b.recs;
  flags = b.flags;
  total_len = chunk_build_total_len b;
  stripe_idx = b.stripe_idx;
  stripe_cnt = b.stripe_cnt;
}

unfoldable pub payload : ChunkBuild → List ℕ
payload b = if is_stripe b then b.slice else records_bytes 0 b.recs

-- past the header: the payload and the zeros of the `memset`
unfoldable pub chunk_body : ChunkBuild → List ℕ
chunk_body b =
    payload b
    ++ replicate
        (chunk_len_pages (chunk_build_total_len b) * kv_page_size
          - kv_chunk_hdr_size
          - length (payload b))
        0

abbrev pub hdr_set_crc : ChunkHdr → ℕ → ChunkHdr
hdr_set_crc h crc = record h { crc32 = crc }

-- the buffer `out`, and the number of pages that is returned
unfoldable pub chunk_encode : ChunkBuild → List ℕ × ℕ
chunk_encode b =
    let body = chunk_body b in
    let npages = chunk_len_pages (chunk_build_total_len b) in
    let draft = draft_hdr b in
    let crc = crc32 (hdr_bytes draft ++ body) in (hdr_bytes (hdr_set_crc draft crc) ++ body, npages)

-- the copy `tmp` of the header with its CRC zeroed
unfoldable pub tmp_hdr : List ℕ → List ℕ
unfolding le_bytes
tmp_hdr buf = take 4 buf ++ (le_bytes 4 0 ++ take 56 (drop 8 buf))

unfoldable pub chunk_crc : List ℕ → ℕ → ℕ
chunk_crc buf npages =
    crc32_partial (crc32_partial 0 (tmp_hdr buf))
      (take (npages * kv_page_size - kv_chunk_hdr_size) (drop 64 buf))

unfoldable pub chunk_validate : List ℕ → ℕ → ℤ
chunk_validate buf npages =
    let hdr = hdr_of buf in
    if not (hdr.magic == kv_ck_magic)
    then neg kv_ecrc
    else if not (npages == chunk_len_pages hdr.total_len)
    then neg kv_ecrc
    else if chunk_crc buf npages == hdr.crc32
    then kv_eok
    else neg kv_ecrc

-- The loop of `chunk_parse_records` with `left` rounds to go: the value returned, and what is
-- written to `recs` from entry `n` on. `off`, `len` and `avail` are `uint32_t`; the first test adds
-- a `size_t`, the second does not.
unfoldable pub parse_loop : ℕ → List ℕ → ℕ → ℕ → ℕ → ℕ → ℤ × List RecDesc
parse_loop zero buf avail off n room = (pos n, [])
parse_loop (suc left) buf avail off n room =
    let layer = field buf off 2 in
    let len = field buf (off + 4) 4 in
    let data_off = u32 (off + record_hdr_size) in
    let next = u32 (data_off + len) in
    let rest = parse_loop left buf avail next (n + 1) room in
    if ltb (u32 (kv_chunk_hdr_size + avail)) (off + record_hdr_size)
    then (neg kv_einval, [])
    else if ltb (u32 (kv_chunk_hdr_size + avail)) next
    then (neg kv_einval, [])
    else (
      rest.0,
      if ltb n room
          then record { layer_id = layer; off = data_off; len = len } ∷ rest.1
          else rest.1,
    )

unfoldable pub chunk_parse_records : List ℕ → ℕ → ℤ × List RecDesc
chunk_parse_records buf room =
    let hdr = hdr_of buf in parse_loop hdr.n_records buf hdr.total_len kv_chunk_hdr_size 0 room

-- the value returned, and `*n_parts_out` where it is written
unfoldable pub stripe_split : ℕ → ℕ → ℤ × Option ℕ
stripe_split total_len unit =
    let n = u32 (u64 (total_len + unit - 1) / unit) in
    if unit == 0 then (neg kv_einval, none) else (kv_eok, some (if n == 0 then 1 else n))
