-- ===== src/Writer/Batch.antt =====
-- Batches of src/writer.cpp: the inner loop of `writer_thread`, which takes requests from the queue
-- until the batch is full, and the part of `writer_submit_batch` that gives each request its pages
-- and fills the buffer. The queue is the list of the requests that `mpsc_pop` gives, with
-- `mpsc_push` at its end. The buffer is not in use, and the statistics are left out.

pub mod Placed
pub mod Submit
pub mod Gathered
use kvtier.Prelude.{
  ℕ, zero, suc, ◌+◌, ◌-◌, ◌*◌, Bool, true, false, ◌&&◌, ◌||◌, not, Option, none, some, List, [],
  ◌∷◌, ◌++◌, ◌==◌, ltb, leb, if◌then◌else◌, length, take, replicate, bit_and, ℤ, eq_ℤ, neg,
}
use kvtier.Common.{kv_page_size, kv_eok, u32, u64}
use kvtier.Chunk.{kv_chunk_f_stripe, payload_npages, pages_crc}
use kvtier.Device.{Device}
use kvtier.Region.{RegionMgr, page_base}
use kvtier.Writer.Rotate.{ShardWriter, writer_freeze_and_rotate}

-- the fields of `put_req` that a batch reads and sets; `recs` and `slice` are the bytes that the
-- pointers lead to
pub record PutReq : Type 0 where
  pub flags : ℕ
  pub data_len : ℕ
  pub recs : List (List ℕ)
  pub slice : List ℕ
  pub page_no : ℕ
  pub npages : ℕ
  pub crc : ℕ

pub record BatchBuf : Type 0 where
  pub buf : List ℕ
  pub used : ℕ
  pub start_page : ℕ
  pub npages : ℕ
  pub reqs : List PutReq
  pub last_page : ℕ
  pub region : ℕ

abbrev pub kv_batch_max_reqs : ℕ
kv_batch_max_reqs = 512

-- over the configuration's `stripe_threshold` and the layout's `stripe_unit`
unfoldable pub batch_buf_size : ℕ → ℕ → ℕ
batch_buf_size stripe_threshold stripe_unit =
    let m = if ltb stripe_threshold stripe_unit then stripe_unit else stripe_threshold in
    u32 (u64 (m + 4 * kv_page_size))

abbrev pub is_part : PutReq → Bool
is_part r = not (bit_and r.flags kv_chunk_f_stripe == 0)

unfoldable pub concat : List (List ℕ) → List ℕ
concat [] = []
concat (xs ∷ xss) = xs ++ concat xss

-- the bytes of a request: its part of a stripe, or its records one after the other
unfoldable pub put_bytes : PutReq → List ℕ
put_bytes r = if is_part r then take r.data_len r.slice else concat r.recs

-- with zeros to the end of the last page
unfoldable pub pad_pages : List ℕ → ℕ → List ℕ
pad_pages bytes npages = bytes ++ replicate (npages * kv_page_size - length bytes) 0

-- one turn of the loop that fills the buffer: the request, and the bytes it adds
unfoldable pub place_req : ℕ → PutReq → PutReq × List ℕ
place_req abs_page r =
    let bytes = put_bytes r in
    let n = payload_npages (length bytes) in
    let part = pad_pages bytes (payload_npages r.data_len) in
    let whole = pad_pages bytes n in
    if is_part r
    then (record r { page_no = abs_page; npages = payload_npages r.data_len }, part)
    else (
      record r {
        data_len = u32 (length bytes);
        page_no = abs_page;
        npages = n;
        crc = pages_crc whole n;
      },
      whole,
    )

-- from page `abs_page` on, with the number of pages in all
unfoldable pub place_reqs : ℕ → List PutReq → List PutReq × List ℕ × ℕ
place_reqs abs_page [] = ([], [], 0)
place_reqs abs_page (r ∷ rs) =
    let (r', bytes) = place_req abs_page r in
    let (rs', rest, total) = place_reqs (abs_page + r'.npages) rs in
    (r' ∷ rs', bytes ++ rest, u32 (r'.npages + total))

unfoldable pub need_pages : List PutReq → ℕ
need_pages [] = 0
need_pages (r ∷ rs) = payload_npages r.data_len + need_pages rs

-- the buffer filled for the region of the cursor, which moves past the batch
unfoldable pub fill_batch : ShardWriter → BatchBuf → ShardWriter × BatchBuf
fill_batch w bb =
    let start_page = page_base w.rm w.region + w.next_page in
    let (reqs, bytes, total) = place_reqs start_page bb.reqs in
    (
      record w { next_page = w.next_page + total },
      record bb {
        buf = bytes;
        start_page = start_page;
        npages = total;
        reqs = reqs;
        last_page = start_page + total;
        region = w.region;
      },
    )

-- what `writer_submit_batch` does: nothing, refuse the requests, or write the batch
pub data Submitted : Type 0 where
  empty : Submitted
  refused : (rc : ℤ) → List PutReq → Submitted
  write : BatchBuf → Submitted

-- the room for a batch: a region is changed where the cursor's has too few pages left
unfoldable pub has_room : ShardWriter → BatchBuf → Bool
has_room w bb = leb (w.next_page + need_pages bb.reqs) w.rm.region_size_pages

abbrev pub write_batch : ShardWriter × BatchBuf → ShardWriter × Submitted
write_batch (w, bb) = (w, write bb)

unfoldable pub writer_submit_batch :
    (Device → ℕ → ℕ → Device)
    → (ℕ → RegionMgr → ℕ → ℤ)
    → ShardWriter
    → BatchBuf
    → ℕ
    → ShardWriter × Submitted
writer_submit_batch trim dropped w bb now_s =
    let (w', rc) = writer_freeze_and_rotate trim dropped w now_s in
    if length bb.reqs == 0
    then (w, empty)
    else if has_room w bb
    then write_batch (fill_batch w bb)
    else if eq_ℤ rc kv_eok
    then write_batch (fill_batch w' bb)
    else (w', refused rc bb.reqs)

-- What the inner loop of `writer_thread` leaves: the batch, the queue, and a request that it took
-- from the queue and dropped.
pub record Gathering : Type 0 where
  pub reqs : List PutReq
  pub used : ℕ
  pub queue : List PutReq
  pub lost : Option PutReq

-- The loop once `first` is `nullptr`, over the queue `q`. A request that does not fit goes to the
-- end of the queue, if `push_ok`; the loop does not look at the result of that `mpsc_push`.
unfoldable pub gather :
    (push_ok : Bool) → (min_bytes buf_size : ℕ) → List PutReq → ℕ → List PutReq → Gathering
gather push_ok min_bytes buf_size reqs used [] = record {
  reqs = reqs;
  used = used;
  queue = [];
  lost = none;
}
gather push_ok min_bytes buf_size reqs used (r ∷ q) =
    let used' = u32 (used + u32 (payload_npages r.data_len * kv_page_size)) in
    let rest = gather push_ok min_bytes buf_size (reqs ++ (r ∷ [])) used' q in
    let stop : Gathering = record { reqs = reqs; used = used; queue = r ∷ q; lost = none } in
    if leb kv_batch_max_reqs (length reqs)
    then stop
    else if leb min_bytes used
    then stop
    else if ltb 0 (length reqs) && ltb buf_size used'
    then (if push_ok
        then record { reqs = reqs; used = used; queue = q ++ (r ∷ []); lost = none }
        else record { reqs = reqs; used = used; queue = q; lost = some r })
    else rest

-- The loop with `first` taken from the queue, which is `q` then: its tests come before `first` is
-- looked at, and where one holds `first` is dropped; otherwise `first` is the next request. The
-- thread starts the loop with an empty batch, and its configuration has a minimum above 0.
unfoldable pub gather_first :
    (push_ok : Bool) → (min_bytes buf_size : ℕ) → List PutReq → ℕ → PutReq → List PutReq → Gathering
gather_first push_ok min_bytes buf_size reqs used first q =
    if leb kv_batch_max_reqs (length reqs) || leb min_bytes used
    then record { reqs = reqs; used = used; queue = q; lost = some first }
    else gather push_ok min_bytes buf_size reqs used (first ∷ q)
