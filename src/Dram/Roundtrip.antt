-- ===== src/Dram/Roundtrip.antt =====
-- `dram_get` after `dram_put` in src/dram.cpp.
use kvtier.Prelude.{
  ℕ, ◌%◌, ◌<◌, ◌≤◌, ◌^◌, ◌≡◌, refl, ◌∙◌, ap, true, false, Option, none, some, Bool, List, [], ◌∷◌,
  ◌==◌, ==_iff, ◌||◌, ltb, leb, inl, inr, Bool-cases, Option-cases, length, get_or, get_or-set_self,
  length-set, ℤ, arith,
}
use kvtier.Common.{kv_eok}
use kvtier.Dram.Types.{no_shard, DramEntry, DramShard, DramCache, entry_at, entry_size, entry_total}
use kvtier.Dram.{unlink, bucket_of, bucket_unlink, queue_unlink, key_hash, entry_free}
use kvtier.Dram.Ops.{
  DramPut, shard_of, shard_at, chain_find, entry_find, is_stale, put_shard, entry_drop, put_new,
  dram_get, dram_put,
}
use kvtier.Dram.Stays.{IsFrame, IsFrame-trans, entry_free-IsFrame}
use kvtier.Dram.Put.{IsPut, put_new_first}
use kvtier.Dram.Hit.{
  IsCache, bucket_of-lt, shard_of-lt, chain_first, hit_of, get_found, IsRequest, made_hit,
  not_stale,
}

module _ (now rec_cap : ℕ) (d : DramCache) (r : DramPut)
    (x : Option ℤ × (DramCache × DramShard)) where
  home : ℕ
  home = shard_of d r.prefix_id r.group_idx

  stored : DramCache
  stored = put_shard home x.1

  stored-home : IsFrame d x.1.0 → shard_of stored r.prefix_id r.group_idx ≡ home
  unfolding stored home shard_of
  stored-home f = ap (λ (n : ℕ). key_hash r.prefix_id r.group_idx % n) f.n_shards

  stored_shard : IsCache d → IsFrame d x.1.0 → shard_at stored home ≡ x.1.1
  unfolding stored home
  stored_shard w f =
      get_or-set_self x.1.0.shards (shard_of d r.prefix_id r.group_idx) x.1.1 no_shard (
        omega
          (arith, ap length f.shards, w.shards, shard_of-lt d r.prefix_id r.group_idx w.some_shard))

  stored_heap : stored.heap ≡ x.1.0.heap
  unfolding stored home
  stored_heap = refl

  stored_found :
      IsCache d
      → (q : IsPut d r x)
      → entry_find stored
          (shard_at stored (shard_of stored r.prefix_id r.group_idx))
          (bucket_of r.prefix_id r.group_idx)
          r.prefix_id
          r.group_idx
        ≡ some q.p
  unfolding entry_find
  stored_found w q =
      let e = q.first.entry in
      ap
        (λ (i : ℕ).
          chain_find stored.heap
            (get_or (shard_at stored i).buckets (bucket_of r.prefix_id r.group_idx) []) r.prefix_id
            r.group_idx)
        (stored-home q.frame)
      ∙ ap
          (λ (s : DramShard).
            chain_find stored.heap (get_or s.buckets (bucket_of r.prefix_id r.group_idx) [])
              r.prefix_id r.group_idx)
          (stored_shard w q.frame)
      ∙ ap (λ (c : List ℕ). chain_find stored.heap c r.prefix_id r.group_idx) q.first.bucket
      ∙ ap (λ (h : List DramEntry). chain_find h (q.p ∷ q.first.rest) r.prefix_id r.group_idx)
          stored_heap
      ∙ chain_first x.1.0.heap q.p r.prefix_id r.group_idx q.first.rest
          (ap (λ (y : DramEntry). y.prefix_id) e) (ap (λ (y : DramEntry). y.group_idx) e)

  stored_get :
      IsCache d
      → IsRequest now rec_cap r
      → IsPut d r x
      → ((dram_get true now stored r.prefix_id r.group_idx r.ver rec_cap).0 ≡ kv_eok)
        × ((dram_get true now stored r.prefix_id r.group_idx r.ver rec_cap).1
            ≡ some (record { buf = r.buf; recs = r.recs }))
  unfolding hit_of
  stored_get w v q =
      let e = q.first.entry in
      let y = entry_at x.1.0.heap q.p in
      let fresh : is_stale now r.ver (entry_at stored.heap q.p) ≡ false = rw stored_heap (
        not_stale now rec_cap r y v (ap (λ (z : DramEntry). z.ver) e)
          (ap (λ (z : DramEntry). z.expire_ts) e)) in
      let (rc, hit) =
        get_found now stored r.prefix_id r.group_idx r.ver rec_cap q.p (stored_found w q) fresh in
      (
        rc,
        hit
            ∙ ap some (
                ap (λ (h : List DramEntry). hit_of rec_cap (entry_at h q.p)) stored_heap
                ∙ ap (hit_of rec_cap) e
                ∙ made_hit now rec_cap r q.cls q.block v),
      )

dropped_buckets :
    (d : DramCache) (sh : DramShard) (p : ℕ)
    → length (entry_drop d sh p).1.buckets ≡ length sh.buckets
unfolding entry_drop entry_free queue_unlink bucket_unlink
dropped_buckets d sh p =
    let e = entry_at d.heap p in
    let b = bucket_of e.prefix_id e.group_idx in
    length-set sh.buckets b (unlink p (get_or sh.buckets b []))

dropped-IsFrame : (d : DramCache) (sh : DramShard) (p : ℕ) → IsFrame d (entry_drop d sh p).0
unfolding entry_drop
dropped-IsFrame d sh p = entry_free-IsFrame d (queue_unlink (bucket_unlink d sh p) p) p

-- `dram_put` refuses the request
abbrev pub is_refused : DramCache → DramPut → Bool
is_refused d r =
    (r.buf_len == 0)
    || ltb d.entry_max (entry_total r.n_recs r.buf_len)
    || ltb d.budget (entry_total r.n_recs r.buf_len)

-- the entry of the key, in its shard
abbrev pub present : DramCache → DramPut → Option ℕ
present d r =
    entry_find d (shard_at d (shard_of d r.prefix_id r.group_idx))
      (bucket_of r.prefix_id r.group_idx) r.prefix_id r.group_idx

abbrev put_done : DramCache → DramPut → Option ℤ × (DramCache × DramShard) → Option ℤ × DramCache
put_done d r x = (x.0, put_shard (shard_of d r.prefix_id r.group_idx) x.1)

put_none :
    (d : DramCache) (r : DramPut)
    → is_refused d r ≡ false
    → present d r ≡ none
    → dram_put true d r
      ≡ put_done d r (put_new true d (shard_at d (shard_of d r.prefix_id r.group_idx)) r)
unfolding dram_put
put_none d r t f = rw (t, f, dram_put) refl

put_older :
    (d : DramCache) (r : DramPut) (old : ℕ)
    → is_refused d r ≡ false
    → present d r ≡ some old
    → leb r.ver (entry_at d.heap old).ver ≡ false
    → dram_put true d r
      ≡ put_done d r (
          put_new true
            (entry_drop d (shard_at d (shard_of d r.prefix_id r.group_idx)) old).0
            (entry_drop d (shard_at d (shard_of d r.prefix_id r.group_idx)) old).1
            r)
unfolding dram_put
put_older d r old t f v = rw (t, f, v, dram_put) refl

-- On a cache of n_shards shards of 256 buckets each, dram_put of an entry whose size does not
-- wrap at 2^32 and is within entry_max and the budget, that is not empty, and of which the shard
-- has no equal or newer version, succeeds when memory can be had; dram_get of its version then
-- hands out its bytes and records, if it has not expired, its buffers have the lengths it names,
-- and the caller's array takes all records.
pub dram_get-dram_put :
    (now rec_cap : ℕ) (d : DramCache) (r : DramPut)
    → IsCache d
    → IsRequest now rec_cap r
    → entry_size r.n_recs r.buf_len < 2 ^ 32
    → entry_total r.n_recs r.buf_len ≤ d.entry_max
    → entry_total r.n_recs r.buf_len ≤ d.budget
    → ((old : ℕ) → present d r ≡ some old → (entry_at d.heap old).ver < r.ver)
    → ((dram_put true d r).0 ≡ some kv_eok)
      × ((dram_get true now (dram_put true d r).1 r.prefix_id r.group_idx r.ver rec_cap).0 ≡ kv_eok)
      × ((dram_get true now (dram_put true d r).1 r.prefix_id r.group_idx r.ver rec_cap).1
          ≡ some (record { buf = r.buf; recs = r.recs }))
unfolding stored home
dram_get-dram_put now rec_cap d r w v no_wrap a b newer =
    let sh = shard_at d (shard_of d r.prefix_id r.group_idx) in
    let room : bucket_of r.prefix_id r.group_idx < length sh.buckets = omega (
      arith,
      bucket_of-lt r.prefix_id r.group_idx,
      w.buckets (shard_of d r.prefix_id r.group_idx)
          (shard_of-lt d r.prefix_id r.group_idx w.some_shard),
    ) in
    let t : is_refused d r ≡ false =
      (let z : (r.buf_len == 0) ≡ false = (elim (Bool-cases (r.buf_len == 0)) [
        | inl e ↦ absurd (v.some_bytes ((==_iff r.buf_len 0).0 e))
        | inr e ↦ e
      ]) in
        let y : ltb d.entry_max (entry_total r.n_recs r.buf_len) ≡ false = ground (arith, a) in
        let x : ltb d.budget (entry_total r.n_recs r.buf_len) ≡ false = ground (arith, b) in
        rw (z, y, x) refl) in
    elim (Option-cases (present d r)) [
      | inl f ↦
          let q = put_new_first d sh r no_wrap room in
          let (g, k) = stored_get now rec_cap d r (put_new true d sh r) w v q in
          rw (put_none d r t f) (q.rc, g, k)
      | inr (old, f) ↦
          let older : leb r.ver (entry_at d.heap old).ver ≡ false = ground (arith, newer old f) in
          let k = entry_drop d sh old in
          let q = put_new_first k.0 k.1 r no_wrap (omega (arith, room, dropped_buckets d sh old)) in
          let q' : IsPut d r (put_new true k.0 k.1 r) = record {
            p = q.p;
            block = q.block;
            cls = q.cls;
            rc = q.rc;
            frame = IsFrame-trans (dropped-IsFrame d sh old) q.frame;
            first = q.first;
          } in
          let (g, j) = stored_get now rec_cap d r (put_new true k.0 k.1 r) w v q' in
          rw (put_older d r old t f older) (q.rc, g, j)
    ]
