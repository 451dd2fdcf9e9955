-- ===== src/Cuckoo/Insert.antt =====
-- `kv_cuckoo_insert`, `kv_cuckoo_lookup` and `kv_cuckoo_delete` of src/cuckoo.cpp.
use kvtier.Prelude.{
  ◌↔◌, ℕ, ◌^◌, ◌<◌, ◌≡◌, sym, ◌≢◌, ◌⊎◌, inl, inr, true, List, arith, Option-cases, Bool-cases, pos,
  ◌==◌,
}
use kvtier.Cuckoo.{
  Cuckoo, Bucket, fp_of, alt_index, first_index, insert_at, place, ck_max_kicks, kv_cuckoo_insert,
  kv_cuckoo_lookup,
}
use kvtier.Cuckoo.Index.{alt_index-lt, first_index-lt, fp_of_bounds}
use kvtier.Cuckoo.Kicks.{IsShaped, Present, Tracked, Tracked-insert_at, kicks-Present}

module _ (k : ℕ) where
  -- `q` is found by the lookup
  abbrev pub Found : List Bucket → ℕ → Type 0
  Found bs q = Present k bs (fp_of q) (first_index q (2 ^ k))

  first-Tracked :
      (fp i₁ : ℕ) (bs : List Bucket) (f i : ℕ)
      → Present k bs f i ⊎ (f ≡ fp) × (i ≡ i₁)
      → Tracked k bs f i fp i₁
  first-Tracked fp i₁ bs f i (inl p) = inl p
  first-Tracked fp i₁ bs f i (inr (p, q)) = inr (p, inl (sym q))

  second-Tracked :
      (fp i₁ : ℕ) (bs : List Bucket) (f i : ℕ)
      → Present k bs f i ⊎ (f ≡ fp) × (i ≡ i₁)
      → Tracked k bs f i fp (alt_index i₁ fp (2 ^ k))
  second-Tracked fp i₁ bs f i (inl p) = inl p
  second-Tracked fp i₁ bs f i (inr (p, q)) = inr (p, inr (rw (p, q)))

  -- The insertion of `key`, from the point of view of a fingerprint that is already present or is
  -- the key's own.
  place-Present :
      (coin key : ℕ) (bs : List Bucket) {bs' : List Bucket}
      → IsShaped k bs
      → place coin key (2 ^ k) bs ≡ (bs', true)
      → (f i : ℕ) → f ≢ 0
      → i < 2 ^ k
      → Present k bs f i ⊎ (f ≡ fp_of key) × (i ≡ first_index key (2 ^ k))
      → Present k bs' f i
  unfolding place
  place-Present coin key bs {bs'} s e f i n hi t =
      let n' = 2 ^ k in
      let fp = fp_of key in
      let i₁ = first_index key n' in
      let i₂ = alt_index i₁ fp n' in
      let small = (fp_of_bounds key).1 in
      let h₁ = first_index-lt k key in
      let h₂ = alt_index-lt k i₁ fp in
      let t₁ = first-Tracked fp i₁ bs f i t in
      let t₂ = second-Tracked fp i₁ bs f i t in
      elim (Option-cases (insert_at bs i₁ fp)) [
        | inr (done, e₁) ↦
            let eq : done ≡ bs' = ground (arith, rw (e₁, place) at e) in
            rw (← eq) (Tracked-insert_at k bs f i fp i₁ h₁ small s n e₁ t₁)
        | inl e₁ ↦ elim (Option-cases (insert_at bs i₂ fp)) [
          | inr (done, e₂) ↦
              let eq : done ≡ bs' = ground (arith, rw (e₁, e₂, place) at e) in
              rw (← eq) (Tracked-insert_at k bs f i fp i₂ h₂ small s n e₂ t₂)
          | inl e₂ ↦ elim (Bool-cases (coin == 0)) [
            | inl c ↦
                kicks-Present k ck_max_kicks key 0 bs fp i₂ h₂ small s (rw (e₁, e₂, c, place) at e)
                  f i n hi t₂
            | inr c ↦
                kicks-Present k ck_max_kicks key 0 bs fp i₁ h₁ small s (rw (e₁, e₂, c, place) at e)
                  f i n hi t₁
          ]
        ]
      ]

  lookup-iff-Found :
      (cf : Cuckoo) (q : ℕ)
      → cf.n_buckets ≡ 2 ^ k
      → (kv_cuckoo_lookup cf q ≡ true) ↔ Found cf.buckets q
  unfolding kv_cuckoo_lookup
  lookup-iff-Found cf q w = rw w (ground arith)

  -- On a well-formed filter of 2^k buckets, after an insertion that returns 0 the inserted key
  -- is found, and every key that was found before is still found, whatever fingerprints were
  -- kicked.
  pub lookup-insert :
      (coin : ℕ) (cf : Cuckoo) (key q : ℕ)
      → cf.n_buckets ≡ 2 ^ k
      → IsShaped k cf.buckets
      → (kv_cuckoo_insert coin cf key).1 ≡ pos 0
      → (kv_cuckoo_lookup cf q ≡ true) ⊎ (q ≡ key)
      → kv_cuckoo_lookup (kv_cuckoo_insert coin cf key).0 q ≡ true
  unfolding kv_cuckoo_insert
  lookup-insert coin cf key q w s e t =
      let r = place coin key cf.n_buckets cf.buckets in
      elim (Bool-cases r.1) [
        | inr no' ↦ ground (arith, no')
        | inl done ↦
            let after : Cuckoo = (kv_cuckoo_insert coin cf key).0 in
            let n : after.n_buckets ≡ 2 ^ k = ground (arith, done) in
            let b : after.buckets ≡ r.0 = ground (arith, done) in
            let e' : place coin key (2 ^ k) cf.buckets ≡ (r.0, true) =
              rw (← w) (ground (arith, done)) in
            let (pos_fp, _) = fp_of_bounds q in
            (lookup-iff-Found after q n).1 (
              rw b (
                place-Present coin key cf.buckets s e' (fp_of q) (first_index q (2 ^ k))
                  (omega arith) (first_index-lt k q) (from t)))
      ]
    where
      from :
          (kv_cuckoo_lookup cf q ≡ true) ⊎ (q ≡ key)
          → Found cf.buckets q
            ⊎ (fp_of q ≡ fp_of key) × (first_index q (2 ^ k) ≡ first_index key (2 ^ k))
      from (inl p) = inl ((lookup-iff-Found cf q w).0 p)
      from (inr p) = inr (rw p, rw p)
