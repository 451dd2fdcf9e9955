-- ===== src/Writer/Rotate/Shard.antt =====
-- `writer_freeze_and_rotate` of src/writer.cpp as a whole: what each of its two results leaves.
use kvtier.Prelude.{
  ℕ, ◌+◌, ◌<◌, ◌≡◌, ◌≢◌, refl, sym, ap, ◌∙◌, subst, ◌⊎◌, inl, inr, Option, some, length, arith,
  ℕ_discrete, ℤ, neg,
}
use kvtier.Common.{kv_eok, kv_efull, u64}
use kvtier.Device.{Device}
use kvtier.Region.{RegionHdrSh, RegionMgr, page_base, kv_rg_open, kv_rg_frozen, sb_write}
use kvtier.Region.Manager.{write_header}
use kvtier.Writer.Rotate.{
  ShardWriter, rg_at, open_region, next_region, freeze, move_cursor, writer_freeze_and_rotate,
}
use kvtier.Writer.Rotate.Regions.{state_at, Same, next_region-IsNext}
use kvtier.Writer.Rotate.Rotation.{
  IsShard, IsFrozen, freeze-IsFrozen, open_region-IsOpened, IsShard-opened,
}

-- The cursor is in the first data page of a region that is open; the old one is frozen.
pub record Rotated (w : ShardWriter) (now_s : ℕ) (w' : ShardWriter) : Type 0 where
  pub shard : IsShard w'
  pub other : w'.region ≢ w.region
  pub old_frozen : state_at w'.rm w.region ≡ kv_rg_frozen
  pub epoch : (rg_at w'.rm w'.region).epoch ≡ u64 (w.rm.epoch_counter + 1)
  pub size : w'.rm.region_size_pages ≡ w.rm.region_size_pages
  pub first_page : w'.next_page ≡ 1
  pub confirmed : w'.confirmed_page ≡ page_base w'.rm w'.region + 1

-- No region is open, and the cursor stays in the one that was, which is frozen.
pub record Stuck (w w' : ShardWriter) : Type 0 where
  pub none_open : (i : ℕ) → state_at w'.rm i ≢ kv_rg_open
  pub frozen : state_at w'.rm w'.region ≡ kv_rg_frozen
  pub place : (w'.region ≡ w.region) × (w'.next_page ≡ w.next_page)

module _ (trim : Device → ℕ → ℕ → Device) (dropped : ℕ → RegionMgr → ℕ → ℤ) where
  abbrev IsResult : ShardWriter → ℕ → ShardWriter × ℤ → Type 0
  IsResult w now_s r = ((r.1 ≡ kv_eok) × Rotated w now_s r.0) ⊎ ((r.1 ≡ neg kv_efull) × Stuck w r.0)

  frozen-Stuck :
      (w w' : ShardWriter) (now_s : ℕ) (rm : RegionMgr)
      → IsShard w
      → IsFrozen w now_s w'
      → rm ≡ w'.rm
      → Stuck w (record w' { rm = rm })
  frozen-Stuck w w' now_s rm s f e = record {
    none_open = λ i o.
        let o' : state_at w'.rm i ≡ kv_rg_open = ap (λ (m : RegionMgr). state_at m i) (sym e) ∙ o in
        elim (ℕ_discrete i w.region) [
          | yes here ↦ omega (arith, ap (state_at w'.rm) here, f.at, o')
          | no else' ↦ else' (s.only i (sym (f.same.states i else') ∙ o'))
        ];
    frozen = ap (λ (m : RegionMgr). state_at m w'.region) e ∙ ap (state_at w'.rm) f.place.0 ∙ f.at;
    place = f.place;
  }

  next-Rotated :
      (w w' : ShardWriter) (now_s n : ℕ) (rm : RegionMgr)
      → IsShard w
      → IsFrozen w now_s w'
      → Same n w'.rm rm
      → n ≢ w.region
      → n < length w'.rm.rg
      → Rotated w now_s (move_cursor w' now_s (rm, some n)).0
  unfolding move_cursor open_region page_base sb_write write_header
  next-Rotated w w' now_s n rm s f g ne l =
      let o = open_region-IsOpened rm n now_s (omega (arith, l, g.len)) in
      record {
        shard =
            IsShard-opened w (move_cursor w' now_s (rm, some n)).0 w'.rm rm n now_s s f.same f.at g
              ne l o refl;
        other = ne;
        old_frozen =
            o.states w.region (λ e. ne (sym e)) ∙ g.states w.region (λ e. ne (sym e)) ∙ f.at;
        epoch =
            ap (λ (x : RegionHdrSh). x.epoch) o.at
            ∙ ap (λ (c : ℕ). u64 (c + 1)) (g.counter ∙ f.same.counter);
        size = o.size ∙ g.size ∙ f.same.size;
        first_page = refl;
        confirmed = refl;
      }

  -- A change of region, from a state in which exactly one of at least two regions is open, that
  -- of the cursor, has one of two results. With KV_EOK again exactly one region is open, that of
  -- the cursor; it is another one, of the next epoch, with the cursor at its first data page,
  -- and the old one is frozen. With -KV_EFULL no region is open, and the cursor stays where it
  -- was, in a region that is now frozen.
  pub writer_freeze_and_rotate_cases :
      (w : ShardWriter) (now_s : ℕ)
      → IsShard w
      → (((writer_freeze_and_rotate trim dropped w now_s).1 ≡ kv_eok)
          × Rotated w now_s (writer_freeze_and_rotate trim dropped w now_s).0)
        ⊎ (((writer_freeze_and_rotate trim dropped w now_s).1 ≡ neg kv_efull)
            × Stuck w (writer_freeze_and_rotate trim dropped w now_s).0)
  unfolding writer_freeze_and_rotate move_cursor
  writer_freeze_and_rotate_cases w now_s s =
      let w' : ShardWriter = freeze trim dropped w now_s in
      let f : IsFrozen w now_s w' = freeze-IsFrozen trim dropped w now_s s in
      let len : w'.rm.region_cnt ≡ length w'.rm.rg = omega (arith, f.same.cnt, f.same.len, s.cnt) in
      let result : IsResult w now_s
          (move_cursor w' now_s (next_region trim dropped w'.rm w.region)) =
        elim (next_region-IsNext trim dropped w'.rm w.region len (omega (arith, f.same.cnt, s.two))
          (omega (arith, f.same.cnt, s.below))) [
            | inl e ↦
                subst (λ (r : RegionMgr × Option ℕ). IsResult w now_s (move_cursor w' now_s r))
                  (sym e) (inr (refl, frozen-Stuck w w' now_s w'.rm s f refl))
            | inr (rm, n, e, g, ne, l) ↦
                subst (λ (r : RegionMgr × Option ℕ). IsResult w now_s (move_cursor w' now_s r))
                  (sym e) (inl (refl, next-Rotated w w' now_s n rm s f g ne l))
          ] in
      result
