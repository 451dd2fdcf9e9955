-- ===== src/Writer/Rotate/Rotation.antt =====
-- Which regions are open, frozen and free around `writer_freeze_and_rotate` of src/writer.cpp.
use kvtier.Prelude.{
  ℕ, ◌+◌, ◌-◌, ◌≤◌, ◌<◌, ◌≡◌, ◌≢◌, refl, sym, ap, ◌∙◌, length, ltb, if◌then◌else◌, arith,
  ℕ_discrete, ℤ,
}
use kvtier.Common.{u64}
use kvtier.Device.{Device, write_page}
use kvtier.Region.{RegionHdrSh, RegionMgr, page_base, kv_rg_open, kv_rg_frozen, sb_write}
use kvtier.Writer.Rotate.{ShardWriter, rg_at, opened_region, open_region, frozen_region, freeze}
use kvtier.Writer.Rotate.Regions.{state_at, Same, store_region-Same, store_region_at}

-- Exactly one region is open, that of the cursor.
pub record IsShard (w : ShardWriter) : Type 0 where
  pub cnt : w.rm.region_cnt ≡ length w.rm.rg
  pub two : 2 ≤ w.rm.region_cnt
  pub below : w.region < w.rm.region_cnt
  pub is_open : state_at w.rm w.region ≡ kv_rg_open
  pub only : (i : ℕ) → state_at w.rm i ≡ kv_rg_open → i ≡ w.region

-- the regions of `w` after `freeze`
pub record IsFrozen (w : ShardWriter) (now_s : ℕ) (w' : ShardWriter) : Type 0 where
  pub same : Same w.region w.rm w'.rm
  pub at : state_at w'.rm w.region ≡ kv_rg_frozen
  pub place : (w'.region ≡ w.region) × (w'.next_page ≡ w.next_page)

module _ (trim : Device → ℕ → ℕ → Device) (dropped : ℕ → RegionMgr → ℕ → ℤ) where
  pub freeze-IsFrozen :
      (w : ShardWriter) (now_s : ℕ) → IsShard w → IsFrozen w now_s (freeze trim dropped w now_s)
  unfolding freeze
  freeze-IsFrozen w now_s s =
      let base : ℕ = page_base w.rm w.region in
      let rel : ℕ = if ltb base w.confirmed_page then w.confirmed_page - base else 1 in
      let sh : RegionHdrSh = frozen_region (rg_at w.rm w.region) rel now_s in
      let f = store_region-Same w.rm w.region sh in
      record {
        same = record {
          size = f.size;
          cnt = f.cnt;
          counter = f.counter;
          len = f.len;
          states = f.states;
        };
        at =
            ap (λ (x : RegionHdrSh). x.state)
              (store_region_at w.rm w.region sh (omega (arith, s.below, s.cnt)));
        place = (refl, refl);
      }

-- the regions after one is opened
pub record IsOpened (n now_s : ℕ) (rm rm' : RegionMgr) : Type 0 where
  pub cnt : rm'.region_cnt ≡ rm.region_cnt
  pub size : rm'.region_size_pages ≡ rm.region_size_pages
  pub len : length rm'.rg ≡ length rm.rg
  pub at : rg_at rm' n ≡ opened_region rm now_s (rg_at rm n)
  pub states : (i : ℕ) → i ≢ n → state_at rm' i ≡ state_at rm i

pub open_region-IsOpened :
    (rm : RegionMgr) (n now_s : ℕ) → n < length rm.rg → IsOpened n now_s rm (open_region rm n now_s)
unfolding open_region sb_write write_page
open_region-IsOpened rm n now_s l =
    let rm' : RegionMgr = record rm { epoch_counter = u64 (rm.epoch_counter + 1) } in
    let sh : RegionHdrSh = opened_region rm now_s (rg_at rm n) in
    let f = store_region-Same rm' n sh in
    record {
      cnt = f.cnt;
      size = f.size;
      len = f.len;
      at = store_region_at rm' n sh l;
      states = f.states;
    }

-- the step to the next region, from a frozen one
pub IsShard-opened :
    (w w' : ShardWriter) (rm₁ rm₂ : RegionMgr) (n now_s : ℕ)
    → IsShard w
    → Same w.region w.rm rm₁
    → state_at rm₁ w.region ≡ kv_rg_frozen
    → Same n rm₁ rm₂
    → n ≢ w.region
    → n < length rm₁.rg
    → IsOpened n now_s rm₂ w'.rm
    → w'.region ≡ n
    → IsShard w'
IsShard-opened w w' rm₁ rm₂ n now_s s f fr g ne l o at = record {
  cnt = omega (arith, o.cnt, g.cnt, f.cnt, s.cnt, o.len, g.len, f.len);
  two = omega (arith, o.cnt, g.cnt, f.cnt, s.two);
  below = omega (arith, at, l, o.cnt, g.cnt, f.cnt, s.cnt, f.len);
  is_open = ap (state_at w'.rm) at ∙ ap (λ (x : RegionHdrSh). x.state) o.at;
  only = λ i e. elim (ℕ_discrete i n) [
    | yes here ↦ here ∙ sym at
    | no other ↦
        let e₂ : state_at rm₁ i ≡ kv_rg_open =
          sym (g.states i other) ∙ sym (o.states i other) ∙ e in
        elim (ℕ_discrete i w.region) [
          | yes old ↦ absurd (omega (arith, ap (state_at rm₁) old, fr, e₂))
          | no else' ↦ absurd (else' (s.only i (sym (f.states i else') ∙ e₂)))
        ]
  ];
}
