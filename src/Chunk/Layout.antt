-- ===== src/Chunk/Layout.antt =====
-- The header of a chunk reads back, and a chunk fills its pages.
use kvtier.Prelude.{
  ℕ, ◌+◌, ◌-◌, ◌*◌, ◌/◌, ◌^◌, ◌<◌, ◌≤◌, ◌≡◌, refl, List, [], ◌∷◌, ◌++◌, arith, replicate, length,
  length-append, length-replicate, Bool-cases, inl, inr,
}
use native.Mathlib.Nat.{mod-eq_of_lt, mod-lt}
use kvtier.Common.{u32}
use kvtier.Common.Align.{page_align_lem}
use kvtier.Common.Bytes.{le_value-le_bytes}
use kvtier.Chunk.{
  ChunkHdr, ChunkBuild, hdr_bytes, hdr_of, draft_hdr, hdr_set_crc, chunk_len_pages, records_len,
  records_bytes, record_hdr, payload, chunk_body, chunk_build_total_len, is_stripe,
}

-- every field fits its width
pub record FitsHdr (h : ChunkHdr) : Type 0 where
  pub magic : h.magic < 256 ^ 4
  pub crc32 : h.crc32 < 256 ^ 4
  pub prefix_id : h.prefix_id < 256 ^ 8
  pub epoch : h.epoch < 256 ^ 8
  pub group_idx : h.group_idx < 256 ^ 4
  pub n_tokens : h.n_tokens < 256 ^ 4
  pub ver : h.ver < 256 ^ 4
  pub expire_ts : h.expire_ts < 256 ^ 4
  pub n_records : h.n_records < 256 ^ 2
  pub flags : h.flags < 256 ^ 2
  pub total_len : h.total_len < 256 ^ 4
  pub stripe_idx : h.stripe_idx < 256 ^ 4
  pub stripe_cnt : h.stripe_cnt < 256 ^ 4

-- a header at the start of a buffer reads back
pub hdr_of-hdr_bytes : (h : ChunkHdr) (rest : List ℕ) → FitsHdr h → hdr_of (hdr_bytes h ++ rest) ≡ h
unfolding hdr_of hdr_bytes
hdr_of-hdr_bytes h rest f = λ i. record {
  magic = le_value-le_bytes 4 h.magic f.magic i;
  crc32 = le_value-le_bytes 4 h.crc32 f.crc32 i;
  prefix_id = le_value-le_bytes 8 h.prefix_id f.prefix_id i;
  epoch = le_value-le_bytes 8 h.epoch f.epoch i;
  group_idx = le_value-le_bytes 4 h.group_idx f.group_idx i;
  n_tokens = le_value-le_bytes 4 h.n_tokens f.n_tokens i;
  ver = le_value-le_bytes 4 h.ver f.ver i;
  expire_ts = le_value-le_bytes 4 h.expire_ts f.expire_ts i;
  n_records = le_value-le_bytes 2 h.n_records f.n_records i;
  flags = le_value-le_bytes 2 h.flags f.flags i;
  total_len = le_value-le_bytes 4 h.total_len f.total_len i;
  stripe_idx = le_value-le_bytes 4 h.stripe_idx f.stripe_idx i;
  stripe_cnt = le_value-le_bytes 4 h.stripe_cnt f.stripe_cnt i;
}

-- a chunk is built of numbers that fit their fields and of a length below 2^32
pub record FitsBuild (b : ChunkBuild) : Type 0 where
  pub prefix_id : b.prefix_id < 256 ^ 8
  pub epoch : b.epoch < 256 ^ 8
  pub group_idx : b.group_idx < 256 ^ 4
  pub n_tokens : b.n_tokens < 256 ^ 4
  pub ver : b.ver < 256 ^ 4
  pub expire_ts : b.expire_ts < 256 ^ 4
  pub flags : b.flags < 256 ^ 2
  pub stripe_idx : b.stripe_idx < 256 ^ 4
  pub stripe_cnt : b.stripe_cnt < 256 ^ 4
  pub n_records : length b.recs < 256 ^ 2
  pub records : records_len b.recs < 256 ^ 4
  pub slice : length b.slice < 256 ^ 4

pub length-hdr_bytes : (h : ChunkHdr) → length (hdr_bytes h) ≡ 64
unfolding hdr_bytes
length-hdr_bytes h = refl

pub length-record_hdr : (i len : ℕ) → length (record_hdr i len) ≡ 8
unfolding record_hdr
length-record_hdr i len = refl

length-records_bytes : (i : ℕ) (rs : List (List ℕ)) → length (records_bytes i rs) ≡ records_len rs
unfolding records_bytes records_len
length-records_bytes i [] = refl
length-records_bytes i (r ∷ rs) = omega (
  arith,
  length-append (record_hdr i (length r)) (r ++ records_bytes (i + 1) rs),
  length-append r (records_bytes (i + 1) rs),
  length-record_hdr i (length r),
  length-records_bytes (i + 1) rs,
)

-- the payload is as long as the header says
pub length-payload : (b : ChunkBuild) → FitsBuild b → length (payload b) ≡ chunk_build_total_len b
unfolding payload chunk_build_total_len
length-payload b f = elim (Bool-cases (is_stripe b)) [
  | inl s ↦ rw s refl
  | inr s ↦ rw (s, mod-eq_of_lt f.records) (length-records_bytes 0 b.recs)
]

-- the pages of a chunk hold its header and its payload, and less than a page more
pub chunk_len_pages_lem :
    (n : ℕ)
    → n < 256 ^ 4
    → (n + 64 ≤ chunk_len_pages n * 4096) × (chunk_len_pages n * 4096 < n + 64 + 4096)
unfolding chunk_len_pages
chunk_len_pages_lem n h =
    let a = page_align_lem (64 + n) (omega (arith, h)) in
    let e : u32 ((64 + n + 4095) / 4096 * 4096 / 4096) ≡ (64 + n + 4095) / 4096 =
      omega (arith, h) in
    rw (a, e) (omega (arith, h), omega (arith, h))

pub total_len-lt : (b : ChunkBuild) → FitsBuild b → chunk_build_total_len b < 256 ^ 4
unfolding chunk_build_total_len
total_len-lt b f = elim (Bool-cases (is_stripe b)) [
  | inl s ↦ rw s f.slice
  | inr s ↦ rw s (omega (arith, mod-lt (records_len b.recs) {m = 256 ^ 4} (omega arith)))
]

-- the body fills the pages past the header
pub length-chunk_body :
    (b : ChunkBuild)
    → FitsBuild b
    → length (chunk_body b) ≡ chunk_len_pages (chunk_build_total_len b) * 4096 - 64
unfolding chunk_body
length-chunk_body b f = omega (
  arith,
  length-payload b f,
  chunk_len_pages_lem (chunk_build_total_len b) (total_len-lt b f),
  length-append (payload b)
      (replicate (chunk_len_pages (chunk_build_total_len b) * 4096 - 64 - length (payload b)) 0),
  length-replicate {A = ℕ}
      (chunk_len_pages (chunk_build_total_len b) * 4096 - 64 - length (payload b)) 0,
)

pub draft-FitsHdr :
    (b : ChunkBuild) (crc : ℕ)
    → FitsBuild b
    → crc < 2 ^ 32
    → FitsHdr (hdr_set_crc (draft_hdr b) crc)
unfolding draft_hdr
draft-FitsHdr b crc f h = record {
  magic = omega arith;
  crc32 = h;
  prefix_id = f.prefix_id;
  epoch = f.epoch;
  group_idx = f.group_idx;
  n_tokens = f.n_tokens;
  ver = f.ver;
  expire_ts = f.expire_ts;
  n_records = elim (Bool-cases (is_stripe b)) [
    | inl s ↦ rw s (omega arith)
    | inr s ↦ rw s f.n_records
  ];
  flags = f.flags;
  total_len = total_len-lt b f;
  stripe_idx = f.stripe_idx;
  stripe_cnt = f.stripe_cnt;
}
