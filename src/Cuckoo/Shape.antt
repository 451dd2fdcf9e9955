-- ===== src/Cuckoo/Shape.antt =====
-- Every operation of src/cuckoo.cpp keeps the bucket array well formed, also when it fails.
use kvtier.Prelude.{
  ℕ, zero, suc, ◌+◌, ◌^◌, ◌<◌, ◌≡◌, ◌∙◌, inl, inr, some, List, [], ◌∷◌, arith, Option-cases,
  Bool-cases, ◌==◌, length, get_or, set,
}
use kvtier.Cuckoo.{
  Cuckoo, Bucket, fp_of, alt_index, first_index, bucket_remove, insert_at, remove_at, victim,
  displace, kicks, kick_slot, place, ck_max_kicks, kv_cuckoo_insert, kv_cuckoo_delete,
}
use kvtier.Cuckoo.Bucket.{IsBytes}
use kvtier.Cuckoo.Index.{alt_index-lt, first_index-lt, fp_of_bounds}
use kvtier.Cuckoo.Kicks.{IsShaped, set-IsShaped, insert_at-IsShaped, displace-IsShaped, victim-lt}

length-remove :
    (b : Bucket) (v : ℕ) {b' : Bucket} → bucket_remove b v ≡ some b' → length b' ≡ length b
unfolding bucket_remove
length-remove [] v e = cc
length-remove (x ∷ b) v {b'} e = elim (Option-cases (bucket_remove b v)) [
  | inl e' ↦ ground arith
  | inr (ys, e') ↦ ground (arith, length-remove b v e')
]

remove-IsBytes :
    (b : Bucket) (v : ℕ) {b' : Bucket} → bucket_remove b v ≡ some b' → IsBytes b → IsBytes b'
unfolding bucket_remove
remove-IsBytes [] v e h t = cc
remove-IsBytes (x ∷ b) v {b'} e h zero = ground (arith, h 0)
remove-IsBytes (x ∷ b) v {b'} e h (suc t) = elim (Option-cases (bucket_remove b v)) [
  | inl e' ↦ ground (arith, h (suc t))
  | inr (ys, e') ↦ ground (arith, h (suc t), remove-IsBytes b v e' (λ u. h (suc u)) t)
]

module _ (k : ℕ) where
  kicks-IsShaped :
      (rounds key j : ℕ) (bs : List Bucket) (fp cur : ℕ)
      → cur < 2 ^ k
      → fp < 256
      → IsShaped k bs
      → IsShaped k (kicks rounds key j (2 ^ k) bs fp cur).0
  unfolding kicks
  kicks-IsShaped zero key j bs fp cur h small s = s
  kicks-IsShaped (suc rounds) key j bs fp cur h small s =
      let slot = kick_slot key j in
      let bs₁ = displace (2 ^ k) bs cur slot fp in
      let v = victim (2 ^ k) bs cur slot in
      let next = alt_index cur v (2 ^ k) in
      let s₁ = displace-IsShaped k bs cur slot fp h small s in
      let hn = alt_index-lt k cur v in
      elim (Option-cases (insert_at bs₁ next v)) [
        | inl e ↦
            rw (e, kicks)
              (kicks-IsShaped rounds key (j + 1) bs₁ v next hn (victim-lt k bs cur slot s) s₁)
        | inr (done, e) ↦ rw (e, kicks) (insert_at-IsShaped k bs₁ next v hn s₁ e)
      ]

  place-IsShaped :
      (coin key : ℕ) (bs : List Bucket) → IsShaped k bs → IsShaped k (place coin key (2 ^ k) bs).0
  unfolding place
  place-IsShaped coin key bs s =
      let fp = fp_of key in
      let i₁ = first_index key (2 ^ k) in
      let i₂ = alt_index i₁ fp (2 ^ k) in
      let small = (fp_of_bounds key).1 in
      let h₁ = first_index-lt k key in
      let h₂ = alt_index-lt k i₁ fp in
      elim (Option-cases (insert_at bs i₁ fp)) [
        | inr (done, e₁) ↦ rw (e₁, place) (insert_at-IsShaped k bs i₁ fp h₁ s e₁)
        | inl e₁ ↦ elim (Option-cases (insert_at bs i₂ fp)) [
          | inr (done, e₂) ↦ rw (e₁, e₂, place) (insert_at-IsShaped k bs i₂ fp h₂ s e₂)
          | inl e₂ ↦ elim (Bool-cases (coin == 0)) [
            | inl c ↦ rw (e₁, e₂, c, place) (kicks-IsShaped ck_max_kicks key 0 bs fp i₂ h₂ small s)
            | inr c ↦ rw (e₁, e₂, c, place) (kicks-IsShaped ck_max_kicks key 0 bs fp i₁ h₁ small s)
          ]
        ]
      ]

  remove_at-IsShaped :
      (bs : List Bucket) (i v : ℕ) {bs' : List Bucket}
      → i < 2 ^ k
      → IsShaped k bs
      → remove_at bs i v ≡ some bs'
      → IsShaped k bs'
  unfolding remove_at
  remove_at-IsShaped bs i v {bs'} h s e = elim (Option-cases (bucket_remove (get_or bs i []) v)) [
    | inl e' ↦ ground (arith, e')
    | inr (b, e') ↦
        let eq : bs' ≡ set bs i b = ground (arith, e') in
        rw eq (
          set-IsShaped k bs i b s (length-remove _ v e' ∙ s.slots i h)
            (remove-IsBytes _ v e' (s.bytes i)))
  ]

  -- the filter has 2^k buckets, all well formed
  abbrev pub IsValid : Cuckoo → Type 0
  IsValid cf = (cf.n_buckets ≡ 2 ^ k) × IsShaped k cf.buckets

  -- An insertion, successful or not, keeps a filter of 2^k buckets of four bytes each well
  -- formed.
  pub kv_cuckoo_insert-IsValid :
      (coin key : ℕ) (cf : Cuckoo) → IsValid cf → IsValid (kv_cuckoo_insert coin cf key).0
  unfolding kv_cuckoo_insert
  kv_cuckoo_insert-IsValid coin key cf (w, s) =
      let s' : IsShaped k (place coin key cf.n_buckets cf.buckets).0 =
        rw w (place-IsShaped coin key cf.buckets s) in
      elim (Bool-cases (place coin key cf.n_buckets cf.buckets).1) [
        | inl e ↦ rw e (w, s')
        | inr e ↦ rw e (w, s')
      ]

  -- A deletion, of a present key or not, keeps a filter of 2^k buckets of four bytes each well
  -- formed.
  pub kv_cuckoo_delete-IsValid :
      (key : ℕ) (cf : Cuckoo) → IsValid cf → IsValid (kv_cuckoo_delete cf key).0
  unfolding kv_cuckoo_delete
  kv_cuckoo_delete-IsValid key cf (w, s) =
      let fp = fp_of key in
      let i₁ = first_index key cf.n_buckets in
      let i₂ = alt_index i₁ fp cf.n_buckets in
      let h₁ : i₁ < 2 ^ k = rw w (first_index-lt k key) in
      let h₂ : i₂ < 2 ^ k = rw w (alt_index-lt k (first_index key (2 ^ k)) fp) in
      elim (Option-cases (remove_at cf.buckets i₁ fp)) [
        | inr (bs, e₁) ↦ rw (e₁, kv_cuckoo_delete) (w, remove_at-IsShaped cf.buckets i₁ fp h₁ s e₁)
        | inl e₁ ↦ elim (Option-cases (remove_at cf.buckets i₂ fp)) [
          | inr (bs, e₂) ↦
              rw (e₁, e₂, kv_cuckoo_delete) (w, remove_at-IsShaped cf.buckets i₂ fp h₂ s e₂)
          | inl e₂ ↦ rw (e₁, e₂, kv_cuckoo_delete) (w, s)
        ]
      ]
