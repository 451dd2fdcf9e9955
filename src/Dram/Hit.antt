-- ===== src/Dram/Hit.antt =====
-- What `dram_get` of src/dram.cpp hands out.
use kvtier.Prelude.{
  ℕ, ◌<◌, ◌≤◌, ◌≡◌, ◌≢◌, refl, ◌∙◌, ap, true, false, some, List, ◌∷◌, if◌then◌else◌, ◌==◌, ==_iff,
  ltb, ◌⊎◌, inl, inr, Bool-cases, length, take, take_all, arith,
}
use native.Mathlib.Nat.{mod-lt}
use kvtier.Bits.{bit_and_mask}
use kvtier.Common.{u32, kv_eok}
use kvtier.Dram.Types.{DramEntry, DramCache, Block, entry_at, kv_dram_shard_buckets}
use kvtier.Dram.{bucket_of, key_hash}
use kvtier.Dram.Ops.{
  DramPut, DramHit, shard_of, shard_at, chain_find, entry_find, is_stale, dram_get, new_entry,
}

-- a cache that `dram_init` made: `n_shards` shards of 256 buckets
pub record IsCache (d : DramCache) : Type 0 where
  pub some_shard : 0 < d.n_shards
  pub shards : length d.shards ≡ d.n_shards
  pub buckets : (i : ℕ) → i < d.n_shards → length (shard_at d i).buckets ≡ kv_dram_shard_buckets

pub bucket_of-lt : (p g : ℕ) → bucket_of p g < kv_dram_shard_buckets
unfolding bucket_of
bucket_of-lt p g = omega (
  arith,
  bit_and_mask 8 (u32 (key_hash p g)),
  mod-lt (u32 (key_hash p g)) {m = 256} (omega arith),
)

pub shard_of-lt : (d : DramCache) (p g : ℕ) → 0 < d.n_shards → shard_of d p g < d.n_shards
unfolding shard_of
shard_of-lt d p g l = mod-lt (key_hash p g) {m = d.n_shards} l

pub chain_first :
    (heap : List DramEntry) (p pre grp : ℕ) (rest : List ℕ)
    → (entry_at heap p).prefix_id ≡ pre
    → (entry_at heap p).group_idx ≡ grp
    → chain_find heap (p ∷ rest) pre grp ≡ some p
unfolding chain_find
chain_first heap p pre grp rest a b =
    let t : ((entry_at heap p).prefix_id == pre) ≡ true =
      (==_iff (entry_at heap p).prefix_id pre).1 a in
    let u : ((entry_at heap p).group_idx == grp) ≡ true =
      (==_iff (entry_at heap p).group_idx grp).1 b in
    rw (t, u) refl

-- what `dram_get` hands out when it finds an entry that is not stale
unfoldable pub hit_of : ℕ → DramEntry → DramHit
hit_of rec_cap e = record {
  buf = take e.buf_len e.buf;
  recs = take (if ltb e.n_records rec_cap then e.n_records else rec_cap) e.recs;
}

pub get_found :
    (now : ℕ) (d : DramCache) (pre grp ver rec_cap p : ℕ)
    → entry_find d (shard_at d (shard_of d pre grp)) (bucket_of pre grp) pre grp ≡ some p
    → is_stale now ver (entry_at d.heap p) ≡ false
    → ((dram_get true now d pre grp ver rec_cap).0 ≡ kv_eok)
      × ((dram_get true now d pre grp ver rec_cap).1 ≡ some (hit_of rec_cap (entry_at d.heap p)))
unfolding dram_get hit_of
get_found now d pre grp ver rec_cap p f s = rw (f, dram_get, s) (refl, refl)

-- the request as its caller must make it
pub record IsRequest (now : ℕ) (rec_cap : ℕ) (r : DramPut) : Type 0 where
  pub some_bytes : r.buf_len ≢ 0
  pub buf : length r.buf ≡ r.buf_len
  pub recs : length r.recs ≡ r.n_recs
  pub recs_le : r.n_recs ≤ rec_cap
  pub expire : (r.expire_ts ≡ 0) ⊎ (now ≤ r.expire_ts)

recs_taken : (n rec_cap : ℕ) → n ≤ rec_cap → (if ltb n rec_cap then n else rec_cap) ≡ n
recs_taken n rec_cap l = elim (Bool-cases (ltb n rec_cap)) [
  | inl t ↦ rw t refl
  | inr t ↦ (let e : rec_cap ≡ n = ground (arith, t, l) in rw t e)
]

pub made_hit :
    (now rec_cap : ℕ) (r : DramPut) (cls : ℕ) (block : Block)
    → IsRequest now rec_cap r
    → hit_of rec_cap (new_entry r cls block) ≡ record { buf = r.buf; recs = r.recs }
unfolding hit_of
made_hit now rec_cap r cls block w =
    let b : take r.buf_len r.buf ≡ r.buf = take_all r.buf_len r.buf w.buf in
    let c : take r.n_recs r.recs ≡ r.recs = take_all r.n_recs r.recs w.recs in
    λ i. record {
      buf = (ap (take r.buf_len) b ∙ b) i;
      recs =
          (ap (λ (n : ℕ). take n (take r.n_recs r.recs)) (recs_taken r.n_recs rec_cap w.recs_le)
              ∙ ap (take r.n_recs) c
              ∙ c)
            i;
    }

pub not_stale :
    (now rec_cap : ℕ) (r : DramPut) (e : DramEntry)
    → IsRequest now rec_cap r
    → e.ver ≡ r.ver
    → e.expire_ts ≡ r.expire_ts
    → is_stale now r.ver e ≡ false
not_stale now rec_cap r e w v x =
    let t : (e.ver == r.ver) ≡ true = (==_iff e.ver r.ver).1 v in
    elim w.expire [
      | inl z ↦
          (let u : (e.expire_ts == 0) ≡ true = (==_iff e.expire_ts 0).1 (x ∙ z) in rw (t, u) refl)
      | inr l ↦
          let f : ltb e.expire_ts now ≡ false = ground (arith, l, x) in
          elim (Bool-cases (e.expire_ts == 0)) [
            | inl u ↦ rw (t, u) refl
            | inr u ↦ rw (t, u, f) refl
          ]
    ]
