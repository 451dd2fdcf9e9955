-- ===== src/Gc/Examples.antt =====
-- src/gc.cpp on three frozen regions, the fullest of them to avoid.
use kvtier.Prelude.{ℕ, ◌≡◌, refl, some, [], ◌∷◌, pos}
use kvtier.Common.{kv_eok}
use kvtier.Region.{RegionHdrSh, RegionMgr, kv_rg_frozen}
use kvtier.Gc.{freed_region, empty_region, least_live}
use kvtier.Gc.Victim.{IsVictim, freed_region-IsVictim}

abbrev frozen : ℕ → RegionHdrSh
frozen live = record {
  epoch = 4;
  base_ts = 9;
  close_ts = 20;
  watermark_page = 17;
  live_bytes = pos live;
  state = kv_rg_frozen;
}

abbrev manager : RegionMgr
manager = record {
  dev = record {
    dev_id = 1;
    pages = λ p. [];
    read_rc = λ p. kv_eok;
    write_rc = λ p. kv_eok;
    torn = λ p bytes. [];
  };
  region_cnt = 3;
  region_size_pages = 64;
  rg = frozen 4096 ∷ frozen 12288 ∷ frozen 8192 ∷ [];
  epoch_counter = 4;
}

chosen : freed_region manager (some 0) ≡ some 2
unfolding freed_region empty_region least_live
chosen = refl

freed_region-IsVictim_example : IsVictim (some 0) 0 manager.rg 2
freed_region-IsVictim_example = freed_region-IsVictim manager (some 0) 2 chosen
