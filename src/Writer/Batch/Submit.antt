-- ===== src/Writer/Batch/Submit.antt =====
-- `writer_submit_batch` of src/writer.cpp with the change of region: where a batch goes.
use kvtier.Prelude.{
  ℕ, ◌+◌, ◌*◌, ◌^◌, ◌≤◌, ◌<◌, ◌≡◌, refl, inl, inr, true, Bool-cases, List, [], ◌∷◌, ◌==◌, leb→le,
  length, eq_ℤ, eq_ℤ_iff, ℤ, neg, arith,
}
use kvtier.Common.{kv_eok, kv_efull}
use kvtier.Device.{Device}
use kvtier.Region.{RegionMgr, page_base}
use kvtier.Writer.Rotate.{ShardWriter, writer_freeze_and_rotate}
use kvtier.Writer.Rotate.Rotation.{IsShard}
use kvtier.Writer.Rotate.Shard.{Stuck, writer_freeze_and_rotate_cases}
use kvtier.Writer.Batch.{
  PutReq, BatchBuf, need_pages, fill_batch, Submitted, empty, refused, write, has_room,
  writer_submit_batch,
}
use kvtier.Writer.Batch.Placed.{AllSized, IsPlaced, place_reqs-IsPlaced}

no_reqs : (rs : List PutReq) → (length rs == 0) ≡ true → rs ≡ []
no_reqs [] e = refl
no_reqs (r ∷ rs) e = absurd (ground (arith, e))

-- The batch `bb`, of the requests `reqs`, lies in the data pages of the region that is open.
pub record IsWritten (reqs : List PutReq) (w : ShardWriter) (bb : BatchBuf) : Type 0 where
  pub shard : IsShard w
  pub region : bb.region ≡ w.region
  pub start : page_base w.rm w.region < bb.start_page
  pub stop : bb.start_page + bb.npages ≤ page_base w.rm w.region + w.rm.region_size_pages
  pub cursor : bb.start_page + bb.npages ≡ page_base w.rm w.region + w.next_page
  pub placed : IsPlaced bb.start_page reqs bb.reqs bb.buf
  pub bytes : length bb.buf ≡ bb.npages * 4096

fill_batch-IsWritten :
    (w : ShardWriter) (bb : BatchBuf)
    → IsShard w
    → 1 ≤ w.next_page
    → w.next_page + need_pages bb.reqs ≤ w.rm.region_size_pages
    → w.rm.region_size_pages < 2 ^ 32
    → AllSized bb.reqs
    → IsWritten bb.reqs (fill_batch w bb).0 (fill_batch w bb).1
unfolding fill_batch
fill_batch-IsWritten w bb s one room small sized =
    let (placed, bytes, total) =
      place_reqs-IsPlaced (page_base w.rm w.region + w.next_page) bb.reqs sized
        (omega (arith, room, small)) in
    record {
      shard = record {
        cnt = s.cnt;
        two = s.two;
        below = s.below;
        is_open = s.is_open;
        only = s.only;
      };
      region = refl;
      start = omega (arith, one);
      stop = omega (arith, total, room);
      cursor = omega arith;
      placed = placed;
      bytes = bytes;
    }

module _ (trim : Device → ℕ → ℕ → Device) (dropped : ℕ → RegionMgr → ℕ → ℤ) where
  -- what comes of the batch `bb`
  pub data Outcome (w : ShardWriter) (bb : BatchBuf) : ShardWriter × Submitted → Type 0 where
    nothing : bb.reqs ≡ [] → Outcome w bb (w, empty)
    written :
        (w' : ShardWriter) (bb' : BatchBuf)
        → IsWritten bb.reqs w' bb'
        → Outcome w bb (w', write bb')
    full : (w' : ShardWriter) → Stuck w w' → Outcome w bb (w', refused (neg kv_efull) bb.reqs)

  -- writer_submit_batch, from a state in which exactly one region is open, that of the cursor,
  -- the cursor is past the region's header, the batch fits a region, of fewer than 2^32 pages,
  -- and the requests have the lengths that they name: it does nothing for an empty batch; or it
  -- writes the batch to data pages of the region that is then the only open one, the requests
  -- one after the other with their bytes, up to the new cursor; or it refuses the requests with
  -- -KV_EFULL, and no region is open.
  pub writer_submit_batch-Outcome :
      (w : ShardWriter) (bb : BatchBuf) (now_s : ℕ)
      → IsShard w
      → 1 ≤ w.next_page
      → 1 + need_pages bb.reqs ≤ w.rm.region_size_pages
      → w.rm.region_size_pages < 2 ^ 32
      → AllSized bb.reqs
      → Outcome w bb (writer_submit_batch trim dropped w bb now_s)
  unfolding writer_submit_batch
  writer_submit_batch-Outcome w bb now_s s one fits small sized =
      elim (Bool-cases (length bb.reqs == 0)) [
        | inl t ↦ rw t (nothing (no_reqs bb.reqs t))
        | inr t ↦ elim (Bool-cases (has_room w bb)) [
          | inl r ↦
              rw (t, r)
                (written _ _
                  (fill_batch-IsWritten w bb s one (unfold has_room in leb→le _ _ r) small sized))
          | inr r ↦ elim (writer_freeze_and_rotate_cases trim dropped w now_s s) [
            | inl (e, o) ↦
                let ok : eq_ℤ (writer_freeze_and_rotate trim dropped w now_s).1 kv_eok ≡ true =
                  (eq_ℤ_iff _ _).1 e in
                rw (t, r, ok)
                  (written _ _ (
                    fill_batch-IsWritten _ bb o.shard (omega (arith, o.first_page))
                      (omega (arith, o.first_page, o.size, fits)) (omega (arith, o.size, small))
                      sized))
            | inr (e, o) ↦ rw (t, r, e) (full _ o)
          ]
        ]
      ]
