-- ===== src/Cuckoo/Examples.antt =====
-- src/cuckoo.cpp on a small filter of four buckets.
use kvtier.Prelude.{
  ℕ, ◌^◌, ◌≤◌, ◌<◌, ◌*◌, ◌/◌, ◌%◌, ◌⊎◌, ◌≡◌, refl, true, inl, inr, some, replicate, pos, arith,
}
use kvtier.Cuckoo.{
  Cuckoo, alt_index, first_index, fp_of, kv_cuckoo_insert, kv_cuckoo_lookup, kv_cuckoo_init,
  buckets_needed, grow, place, insert_at, bucket_insert,
}
use kvtier.Hash.{hash_mix64}
use kvtier.Cuckoo.Kicks.{IsShaped}
use kvtier.Cuckoo.Insert.{lookup-insert}
use kvtier.Cuckoo.Shape.{IsValid, kv_cuckoo_insert-IsValid}
use kvtier.Cuckoo.Init.{empty-IsShaped, kv_cuckoo_init_lem}

abbrev empty : Cuckoo
empty = record { n_buckets = 4; count = 0; buckets = replicate 4 (replicate 4 0) }

abbrev one_key : Cuckoo
one_key = (kv_cuckoo_insert 0 empty 7).0

empty-IsValid : IsValid 2 empty
empty-IsValid = (refl, empty-IsShaped 2)

one_key-IsValid : IsValid 2 one_key
one_key-IsValid = kv_cuckoo_insert-IsValid 2 0 7 empty empty-IsValid

first_ok : (kv_cuckoo_insert 0 empty 7).1 ≡ pos 0
unfolding kv_cuckoo_insert place insert_at bucket_insert first_index hash_mix64
first_ok = refl

second_ok : (kv_cuckoo_insert 1 one_key 9).1 ≡ pos 0
unfolding kv_cuckoo_insert place insert_at bucket_insert fp_of first_index alt_index hash_mix64
second_ok = refl

first_found : kv_cuckoo_lookup one_key 7 ≡ true
first_found = lookup-insert 2 0 empty 7 7 refl (empty-IsShaped 2) first_ok (inr refl)

lookup-insert_example : kv_cuckoo_lookup (kv_cuckoo_insert 1 one_key 9).0 7 ≡ true
lookup-insert_example =
    lookup-insert 2 1 one_key 9 7 one_key-IsValid.0 one_key-IsValid.1 second_ok (inl first_found)

kv_cuckoo_init_lem_example :
    (cf : Cuckoo) × (k : ℕ) × (kv_cuckoo_init 100 ≡ some cf)
    × (cf.n_buckets ≡ 2 ^ k)
    × (100 / 4 * 100 % 2 ^ 32 < 85 * cf.n_buckets)
    × ((cf.n_buckets ≡ 16) ⊎ (85 * cf.n_buckets ≤ 2 * (100 / 4 * 100 % 2 ^ 32)))
    × (cf.count ≡ 0)
    × IsShaped k cf.buckets
kv_cuckoo_init_lem_example = kv_cuckoo_init_lem 100 (omega arith) (λ e. omega arith)

-- the least number of entries for which the product wraps
too_small : grow 32 (buckets_needed 171798692) 16 ≡ some 16
unfolding grow buckets_needed
too_small = refl
