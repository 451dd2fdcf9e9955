-- ===== src/Cache/Examples.antt =====
-- src/cache.cpp on small tables: a free and a crowded tombstone table, a pool of two shapes, one
-- region, and a full journal.
use kvtier.Prelude.{
  ℕ, ◌*◌, ◌/◌, ◌^◌, ◌<◌, ◌≡◌, ◌≢◌, refl, true, false, some, none, List, [], ◌∷◌, replicate, arith,
  suc, zero,
}
use kvtier.Common.{kv_eok}
use kvtier.Hash.{hash_mix64}
use kvtier.Device.{Device}
use kvtier.Region.{RegionMgr, fresh_region}
use kvtier.Journal.{Journal, zero_page}
use kvtier.Journal.Log.{PutArgs}
use kvtier.Cache.Tombs.{
  Tombs, IsTable, tomb_insert, tomb_lookup, tomb_find, tomb_slot, tomb_start,
  tomb_lookup-tomb_insert, tomb_lookup_lost,
}
use kvtier.Cache.Shapes.{Shape, shape_pool_intern, shape_pool_intern_lem}
use kvtier.Cache.Side.{SideTbl, empty_slot, side_put, side_get}
use kvtier.Cache.Side.Lookup.{IsSide, side_get-side_put}
use kvtier.Cache.Publish.{leaf_journal, leaf_journal_unasked}

abbrev free : Tombs
free = record { keys = replicate 16 0; mask = 15 }

-- every slot has an id other than 9
abbrev crowded : Tombs
crowded = record { keys = replicate 16 5; mask = 15 }

free-IsTable : IsTable free
free-IsTable = record { bits = 4; mask = refl; slots = refl }

free_slot : tomb_find 4 0 free 9 ≡ some (tomb_slot 15 9 0)
unfolding tomb_find tomb_slot tomb_start hash_mix64
free_slot = refl

no_slot : tomb_find 4 0 crowded 9 ≡ none
unfolding tomb_find tomb_slot tomb_start hash_mix64
no_slot = refl

-- at this time the clock chooses the slot at distance 7
apart : (d : ℕ) → d < 4 → tomb_slot 15 9 (7 * 2 ^ 20 / 2 ^ 20) ≢ tomb_slot 15 9 d
unfolding tomb_slot tomb_start hash_mix64
apart zero h e = omega (arith, e)
apart (suc zero) h e = omega (arith, e)
apart (suc (suc zero)) h e = omega (arith, e)
apart (suc (suc (suc zero))) h e = omega (arith, e)
apart (suc (suc (suc (suc d)))) h e = omega arith

tomb_lookup-tomb_insert_example : tomb_lookup (tomb_insert 0 (some free) 9) 9 ≡ true
tomb_lookup-tomb_insert_example =
    tomb_lookup-tomb_insert 0 9 (tomb_slot 15 9 0) free free-IsTable (λ e. omega arith) free_slot

tomb_lookup_lost_example : tomb_lookup (tomb_insert (7 * 2 ^ 20) (some crowded) 9) 9 ≡ false
tomb_lookup_lost_example = tomb_lookup_lost (7 * 2 ^ 20) 9 crowded (λ e. omega arith) no_slot apart

abbrev pool : List Shape
pool = record { id = 0; lens = 4 ∷ [] } ∷ record { id = 1; lens = 4 ∷ 8 ∷ [] } ∷ []

shape_pool_intern_lem_example :
    ((shape_pool_intern pool (4 ∷ 8 ∷ [])).1.lens ≡ 4 ∷ 8 ∷ [])
    × (shape_pool_intern (shape_pool_intern pool (4 ∷ 8 ∷ [])).0 (4 ∷ 8 ∷ [])
        ≡ shape_pool_intern pool (4 ∷ 8 ∷ []))
shape_pool_intern_lem_example = shape_pool_intern_lem pool (4 ∷ 8 ∷ [])

abbrev disk : Device
disk = record {
  dev_id = 1;
  pages = λ p. [];
  read_rc = λ p. kv_eok;
  write_rc = λ p. kv_eok;
  torn = λ p bytes. [];
}

abbrev manager : RegionMgr
manager = record {
  dev = disk;
  region_cnt = 2;
  region_size_pages = 64;
  rg = fresh_region ∷ fresh_region ∷ [];
  epoch_counter = 1;
}

abbrev full_journal : Journal
full_journal = record {
  dev = disk;
  journal_page = 2;
  journal_pages = 4;
  cur_page = 4;
  cur_off = 0;
  stage = zero_page;
  dropped = 0;
  bytes_written = 0;
}

abbrev args : PutArgs
args = record {
  prefix_id = 77;
  group_idx = 0;
  ver = 1;
  expire_ts = 0;
  stripe_idx = 0;
  stripe_cnt = 0;
  flags = 0;
  n_recs = 0;
  data_len = 100;
  path_len = 1;
}

leaf_journal_unasked_example :
    (leaf_journal full_journal false args none
      (some (record { id = 0; lens = 4 ∷ 4 ∷ [] }))
      (7 ∷ [])).1
    ≡ false
leaf_journal_unasked_example =
    leaf_journal_unasked full_journal false args none (some (record { id = 0; lens = 4 ∷ 4 ∷ [] }))
      (7 ∷ []) (λ p. refl)

abbrev table : SideTbl
table = record {
  cap_slots = 4;
  count = 1;
  slots = record { prefix_id = 3; group_idx = 1; node = 50; used = true } ∷ replicate 3 empty_slot;
}

table-IsSide : IsSide table
table-IsSide = record { bits = 2; bits_le = omega arith; cap_slots = refl; slots = refl }

side_get-side_put_example : side_get (side_put table 3 2 60) 3 2 ≡ some 60
side_get-side_put_example = side_get-side_put table 3 2 60 2 table-IsSide (omega arith) refl
