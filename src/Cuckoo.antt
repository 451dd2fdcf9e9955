-- ===== src/Cuckoo.antt =====
-- src/cuckoo.cpp: a cuckoo filter of 8-bit fingerprints, four to a bucket. The mutex makes each
-- operation atomic, so an operation is a function on the filter. `kv_cuckoo_insert` reads the low
-- bit of the clock to choose a bucket; it is the argument `coin`.
pub mod Bucket
pub mod Index
pub mod Kicks
pub mod Insert
pub mod Shape
pub mod Init
mod Examples
use kvtier.Prelude.{
  ℕ, zero, suc, ◌+◌, ◌-◌, ◌*◌, ◌/◌, ◌%◌, ◌^◌, bit_and, bit_xor, Bool, true, false, ◌||◌, ◌&&◌,
  Option, none, some, List, [], ◌∷◌, ◌==◌, ltb, if◌then◌else◌, get_or, set, replicate, ℤ, pos,
  negsuc,
}
use kvtier.Common.{u8, u32, u64}
use kvtier.Hash.{hash_mix64}

-- `ck_bucket`: the array `fp[CK_BUCKET_SLOTS]`
abbrev pub Bucket : Type 0
Bucket = List ℕ

pub record Cuckoo : Type 0 where
  pub n_buckets : ℕ
  pub count : ℕ
  pub buckets : List Bucket

abbrev pub ck_bucket_slots : ℕ
ck_bucket_slots = 4

abbrev pub ck_max_kicks : ℕ
ck_max_kicks = 500

pub fp_of : ℕ → ℕ
fp_of key =
    let fp : ℕ = bit_and (u32 (hash_mix64 (bit_xor key 0x9e3779b97f4a7c15))) 0xff in
    if fp == 0 then 1 else fp

pub alt_index : ℕ → ℕ → ℕ → ℕ
alt_index i fp n_buckets = bit_and (bit_xor i (hash_mix64 fp)) (n_buckets - 1)

-- the bucket that a key hashes to first
pub first_index : ℕ → ℕ → ℕ
first_index key n_buckets = bit_and (hash_mix64 key) (n_buckets - 1)

pub bucket_has : Bucket → ℕ → Bool
bucket_has [] fp = false
bucket_has (x ∷ xs) fp = x == fp || bucket_has xs fp

-- `none` is the return value -1: no slot is free
pub bucket_insert : Bucket → ℕ → Option Bucket
bucket_insert [] fp = none
bucket_insert (x ∷ xs) fp =
    let rest = bucket_insert xs fp in
    if x == 0 then some (u8 fp ∷ xs) else elim rest [ none ↦ none | some ys ↦ some (x ∷ ys) ]

-- `none` is the return value false: the fingerprint is in no slot
pub bucket_remove : Bucket → ℕ → Option Bucket
bucket_remove [] fp = none
bucket_remove (x ∷ xs) fp =
    let rest = bucket_remove xs fp in
    if x == fp then some (0 ∷ xs) else elim rest [ none ↦ none | some ys ↦ some (x ∷ ys) ]

-- `bucket_insert(&cf->buckets[i], fp) == 0`, with the array that it leaves
pub insert_at : List Bucket → ℕ → ℕ → Option (List Bucket)
insert_at bs i fp = elim (bucket_insert (get_or bs i []) fp) [
  | none ↦ none
  | some b ↦ some (set bs i b)
]

pub remove_at : List Bucket → ℕ → ℕ → Option (List Bucket)
remove_at bs i fp = elim (bucket_remove (get_or bs i []) fp) [
  | none ↦ none
  | some b ↦ some (set bs i b)
]

-- the victim's slot in round `k`
pub kick_slot : ℕ → ℕ → ℕ
kick_slot key k = hash_mix64 (u64 (key + k)) % ck_bucket_slots

-- `b = &cf->buckets[cur & (cf->n_buckets - 1)]`
kicked : ℕ → List Bucket → ℕ → Bucket
kicked n bs cur = get_or bs (bit_and cur (n - 1)) []

-- the fingerprint in the victim's slot, and the array with `fp` written over it
pub victim : ℕ → List Bucket → ℕ → ℕ → ℕ
unfolding kicked
victim n bs cur slot = get_or (kicked n bs cur) slot 0

pub displace : ℕ → List Bucket → ℕ → ℕ → ℕ → List Bucket
unfolding kicked
displace n bs cur slot fp = set bs (bit_and cur (n - 1)) (set (kicked n bs cur) slot (u8 fp))

-- The `for` loop: `rounds` are left, and `k` have been made. The array comes back also when the
-- rounds run out (`false`): the last victim is then in no bucket.
pub kicks : ℕ → ℕ → ℕ → ℕ → List Bucket → ℕ → ℕ → List Bucket × Bool
kicks zero key k n bs fp cur = (bs, false)
kicks (suc rounds) key k n bs fp cur =
    let slot : ℕ = kick_slot key k in
    let bs' : List Bucket = displace n bs cur slot fp in
    let fp' : ℕ = victim n bs cur slot in
    let next : ℕ = alt_index cur fp' n in
    elim (insert_at bs' next fp') [
      | some done ↦ (done, true)
      | none ↦ kicks rounds key (k + 1) n bs' fp' next
    ]

-- the array after an insertion, and whether it succeeded
pub place : ℕ → ℕ → ℕ → List Bucket → List Bucket × Bool
place coin key n bs =
    let fp : ℕ = fp_of key in
    let i₁ : ℕ = first_index key n in
    let i₂ : ℕ = alt_index i₁ fp n in
    elim (insert_at bs i₁ fp) [
      | some done ↦ (done, true)
      | none ↦ elim (insert_at bs i₂ fp) [
        | some done ↦ (done, true)
        | none ↦ kicks ck_max_kicks key 0 n bs fp (if coin == 0 then i₂ else i₁)
      ]
    ]

pub kv_cuckoo_insert : ℕ → Cuckoo → ℕ → Cuckoo × ℤ
kv_cuckoo_insert coin cf key =
    let (bs, ok) = place coin key cf.n_buckets cf.buckets in
    if ok
    then (record cf { buckets = bs; count = u32 (cf.count + 1) }, pos 0)
    else (record cf { buckets = bs }, negsuc 0)

pub kv_cuckoo_lookup : Cuckoo → ℕ → Bool
kv_cuckoo_lookup cf key =
    let fp : ℕ = fp_of key in
    let i₁ : ℕ = first_index key cf.n_buckets in
    let i₂ : ℕ = alt_index i₁ fp cf.n_buckets in
    bucket_has (get_or cf.buckets i₁ []) fp || bucket_has (get_or cf.buckets i₂ []) fp

pub kv_cuckoo_delete : Cuckoo → ℕ → Cuckoo × Bool
kv_cuckoo_delete cf key =
    let fp : ℕ = fp_of key in
    let i₁ : ℕ = first_index key cf.n_buckets in
    let i₂ : ℕ = alt_index i₁ fp cf.n_buckets in
    let less : ℕ = if cf.count == 0 then 0 else cf.count - 1 in
    elim (remove_at cf.buckets i₁ fp) [
      | some bs ↦ (record cf { buckets = bs; count = less }, true)
      | none ↦ elim (remove_at cf.buckets i₂ fp) [
        | some bs ↦ (record cf { buckets = bs; count = less }, true)
        | none ↦ (cf, false)
      ]
    ]

-- `while (nb < need) nb <<= 1`, on fuel; `none` means that the fuel ran out
pub grow : ℕ → ℕ → ℕ → Option ℕ
grow zero need nb = none
grow (suc fuel) need nb =
    let more = grow fuel need (u32 (nb * 2)) in if ltb nb need then more else some nb

-- the number of buckets that `kv_cuckoo_init` allows for, over `uint32_t`
pub buckets_needed : ℕ → ℕ
buckets_needed n_entries = u32 (u32 (n_entries / ck_bucket_slots * 100) / 85 + 1)

-- `none` is the return value -1; allocation does not fail
pub kv_cuckoo_init : ℕ → Option Cuckoo
kv_cuckoo_init n_entries =
    if n_entries == 0 then none else elim (grow 32 (buckets_needed n_entries) 16) [
      | none ↦ none
      | some nb ↦ some (record {
        n_buckets = nb;
        count = 0;
        buckets = replicate nb (replicate ck_bucket_slots 0);
      })
    ]

pub kv_cuckoo_capacity : Cuckoo → ℕ
kv_cuckoo_capacity cf = u32 (cf.n_buckets * ck_bucket_slots)
