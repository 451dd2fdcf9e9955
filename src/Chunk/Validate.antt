-- ===== src/Chunk/Validate.antt =====
-- `chunk_validate` accepts what `chunk_encode` writes, and nothing of another length.
use kvtier.Prelude.{
  ℕ, ◌-◌, ◌*◌, ◌^◌, ◌<◌, ◌≡◌, refl, ◌∙◌, sym, true, List, ◌++◌, arith, drop, length, take_all, ◌==◌,
  ==_iff,
}
use kvtier.Common.{kv_ck_magic, kv_eok}
use kvtier.Crc.{crc32, crc32_partial}
use kvtier.Crc.Append.{crc32_partial-append, crc32_partial-lt}
use kvtier.Chunk.{
  ChunkHdr, ChunkBuild, hdr_bytes, draft_hdr, hdr_set_crc, chunk_len_pages, chunk_body,
  chunk_build_total_len, chunk_encode, chunk_validate, chunk_crc, tmp_hdr,
}
use kvtier.Chunk.Layout.{FitsHdr, FitsBuild, draft-FitsHdr, hdr_of-hdr_bytes, length-chunk_body}

-- the copy with its CRC zeroed is the header without one
tmp_hdr-hdr_bytes :
    (h : ChunkHdr) (crc : ℕ) (rest : List ℕ)
    → tmp_hdr (hdr_bytes (hdr_set_crc h crc) ++ rest) ≡ hdr_bytes (hdr_set_crc h 0)
unfolding tmp_hdr hdr_bytes
tmp_hdr-hdr_bytes h crc rest = refl

drop-hdr_bytes : (h : ChunkHdr) (rest : List ℕ) → drop 64 (hdr_bytes h ++ rest) ≡ rest
unfolding hdr_bytes
drop-hdr_bytes h rest = refl

crc32_lem : (bytes : List ℕ) → crc32 bytes ≡ crc32_partial 0 bytes
unfolding crc32
crc32_lem bytes = refl

-- the CRC of the buffer with the header's CRC zeroed, however it was stored
chunk_crc-hdr :
    (h : ChunkHdr) (crc npages : ℕ) (body : List ℕ)
    → length body ≡ npages * 4096 - 64
    → chunk_crc (hdr_bytes (hdr_set_crc h crc) ++ body) npages
      ≡ crc32 (hdr_bytes (hdr_set_crc h 0) ++ body)
unfolding chunk_crc
chunk_crc-hdr h crc npages body e =
    rw
      (
        tmp_hdr-hdr_bytes h crc body,
        drop-hdr_bytes (hdr_set_crc h crc) body,
        take_all (npages * 4096 - 64) body e,
        crc32_lem (hdr_bytes (hdr_set_crc h 0) ++ body),
      )
      (crc32_partial-append 0 (hdr_bytes (hdr_set_crc h 0)) body (omega arith))

pub crc32-lt : (bytes : List ℕ) → crc32 bytes < 2 ^ 32
crc32-lt bytes = rw (crc32_lem bytes) (crc32_partial-lt 0 bytes (omega arith))

-- a header and a body are valid when the stored CRC is the one of the buffer with that field zero
validate-hdr :
    (h : ChunkHdr) (npages crc : ℕ) (body : List ℕ)
    → FitsHdr (hdr_set_crc h crc)
    → h.magic ≡ kv_ck_magic
    → npages ≡ chunk_len_pages h.total_len
    → length body ≡ npages * 4096 - 64
    → crc ≡ crc32 (hdr_bytes (hdr_set_crc h 0) ++ body)
    → chunk_validate (hdr_bytes (hdr_set_crc h crc) ++ body) npages ≡ kv_eok
unfolding chunk_validate
validate-hdr h npages crc body f m n l c =
    let a : h.magic == kv_ck_magic ≡ true = (==_iff h.magic kv_ck_magic).1 m in
    let d : npages == chunk_len_pages h.total_len ≡ true = (==_iff npages _).1 n in
    let e : chunk_crc (hdr_bytes (hdr_set_crc h crc) ++ body) npages == crc ≡ true =
      (==_iff _ crc).1 (chunk_crc-hdr h crc npages body l ∙ sym c) in
    rw (hdr_of-hdr_bytes (hdr_set_crc h crc) body f, a, d, e) refl

-- A chunk that chunk_encode wrote from fields that fit is valid in the number of pages that
-- chunk_encode returned.
pub chunk_validate-chunk_encode :
    (b : ChunkBuild) → FitsBuild b → chunk_validate (chunk_encode b).0 (chunk_encode b).1 ≡ kv_eok
unfolding chunk_encode draft_hdr
chunk_validate-chunk_encode b f =
    let crc = crc32 (hdr_bytes (draft_hdr b) ++ chunk_body b) in
    validate-hdr (draft_hdr b) (chunk_len_pages (chunk_build_total_len b)) crc (chunk_body b)
      (draft-FitsHdr b crc f (crc32-lt _)) refl refl (length-chunk_body b f) refl
