-- ===== src/Chunk/Examples.antt =====
-- src/chunk.cpp on a chunk of two records.
use kvtier.Prelude.{◌≡◌, refl, [], ◌∷◌, arith, pos, ◌^◌, ◌<◌, ◌+◌}
use kvtier.Common.{kv_eok}
use kvtier.Chunk.{ChunkBuild, chunk_encode, chunk_validate, chunk_parse_records, records_len}
use kvtier.Chunk.Layout.{FitsBuild}
use kvtier.Chunk.Validate.{chunk_validate-chunk_encode}
use kvtier.Chunk.Parse.{chunk_parse_records-chunk_encode, records_at, read_records}

abbrev two_records : ChunkBuild
two_records = record {
  prefix_id = 77;
  epoch = 3;
  group_idx = 1;
  n_tokens = 32;
  ver = 5;
  expire_ts = 0;
  flags = 4;
  stripe_idx = 0;
  stripe_cnt = 0;
  recs = (10 ∷ 20 ∷ 30 ∷ []) ∷ (40 ∷ []) ∷ [];
  slice = [];
}

two_records-FitsBuild : FitsBuild two_records
unfolding records_len
two_records-FitsBuild = record {
  prefix_id = omega arith;
  epoch = omega arith;
  group_idx = omega arith;
  n_tokens = omega arith;
  ver = omega arith;
  expire_ts = omega arith;
  flags = omega arith;
  stripe_idx = omega arith;
  stripe_cnt = omega arith;
  n_records = omega arith;
  records = omega arith;
  slice = omega arith;
}

two_records-small : 64 + records_len two_records.recs < 2 ^ 32
unfolding records_len
two_records-small = omega arith

chunk_validate-chunk_encode_example :
    chunk_validate (chunk_encode two_records).0 (chunk_encode two_records).1 ≡ kv_eok
chunk_validate-chunk_encode_example = chunk_validate-chunk_encode two_records two_records-FitsBuild

chunk_parse_records-chunk_encode_example :
    (chunk_parse_records (chunk_encode two_records).0 256
      ≡ (pos 2, records_at 0 64 two_records.recs))
    × (read_records (chunk_encode two_records).0 (records_at 0 64 two_records.recs)
        ≡ two_records.recs)
chunk_parse_records-chunk_encode_example =
    chunk_parse_records-chunk_encode two_records 256 two_records-FitsBuild refl two_records-small
      (omega arith)
