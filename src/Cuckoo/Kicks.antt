-- ===== src/Cuckoo/Kicks.antt =====
-- The bucket array of src/cuckoo.cpp: each write keeps its shape, and the kick loop keeps every
-- fingerprint in one of its two buckets.
use kvtier.Prelude.{
  ℕ, zero, suc, ◌+◌, ◌%◌, ◌^◌, ◌<◌, ◌≡◌, sym, ap, ◌∙◌, ◌≢◌, ◌⊎◌, inl, inr, true, some, List, [],
  arith, length, get_or, set, length-set, get_or-set_self, get_or-set_ne, get_or-set_cases,
  Option-cases, ℕ_discrete, subst,
}
use kvtier.Cuckoo.{
  Bucket, alt_index, bucket_has, bucket_insert, insert_at, victim, displace, kicks, kick_slot,
}
use kvtier.Cuckoo.Bucket.{
  has-set_self, has-set, has-insert_self, has-insert, length-insert, IsBytes, set-IsBytes,
  insert-IsBytes,
}
use kvtier.Cuckoo.Index.{alt_index-lt, alt_index_twice, mask_of_lt}

abbrev pub Has : List Bucket → ℕ → ℕ → Type 0
Has bs i f = bucket_has (get_or bs i []) f ≡ true

module _ (k : ℕ) where
  -- 2^k buckets of four bytes each
  pub record IsShaped (bs : List Bucket) : Type 0 where
    pub width : length bs ≡ 2 ^ k
    pub slots : (i : ℕ) → i < 2 ^ k → length (get_or bs i []) ≡ 4
    pub bytes : (i : ℕ) → IsBytes (get_or bs i [])

  -- the fingerprint is in one of its two buckets
  abbrev pub Present : List Bucket → ℕ → ℕ → Type 0
  Present bs f i = Has bs i f ⊎ Has bs (alt_index i f (2 ^ k)) f

  pub set-IsShaped :
      (bs : List Bucket) (i : ℕ) (b : Bucket)
      → IsShaped bs
      → length b ≡ 4
      → IsBytes b
      → IsShaped (set bs i b)
  set-IsShaped bs i b s l v = record {
    width = length-set bs i b ∙ s.width;
    slots = λ j h. elim (get_or-set_cases bs i j b []) [
      | inl e ↦ ap length e ∙ l
      | inr e ↦ ap length e ∙ s.slots j h
    ];
    bytes = λ j t. elim (get_or-set_cases bs i j b []) [
      | inl e ↦ subst (λ c. get_or c t 0 < 256) (sym e) (v t)
      | inr e ↦ subst (λ c. get_or c t 0 < 256) (sym e) (s.bytes j t)
    ];
  }

  insert_at-set :
      (bs : List Bucket) (i v : ℕ) {bs' : List Bucket}
      → insert_at bs i v ≡ some bs'
      → (b : Bucket) × (bucket_insert (get_or bs i []) v ≡ some b) × (bs' ≡ set bs i b)
  unfolding insert_at
  insert_at-set bs i v e = elim (Option-cases (bucket_insert (get_or bs i []) v)) [
    | inl e' ↦ ground (arith, e')
    | inr (b, e') ↦ (b, e', ground (arith, e'))
  ]

  pub insert_at-IsShaped :
      (bs : List Bucket) (i v : ℕ) {bs' : List Bucket}
      → i < 2 ^ k
      → IsShaped bs
      → insert_at bs i v ≡ some bs'
      → IsShaped bs'
  insert_at-IsShaped bs i v h s e =
      let (b, e', eq) = insert_at-set bs i v e in
      rw eq (
        set-IsShaped bs i b s (length-insert _ v e' ∙ s.slots i h)
          (insert-IsBytes _ v e' (s.bytes i)))

  pub Has-insert_at_self :
      (bs : List Bucket) (i v : ℕ) {bs' : List Bucket}
      → i < 2 ^ k
      → v < 256
      → IsShaped bs
      → insert_at bs i v ≡ some bs'
      → Has bs' i v
  Has-insert_at_self bs i v h small s e =
      let (b, e', eq) = insert_at-set bs i v e in
      let at : get_or (set bs i b) i [] ≡ b = get_or-set_self bs i b [] (rw s.width h) in
      rw (eq, at) (has-insert_self _ v small e')

  pub Has-insert_at :
      (bs : List Bucket) (i v j f : ℕ) {bs' : List Bucket}
      → i < 2 ^ k
      → IsShaped bs
      → f ≢ 0
      → insert_at bs i v ≡ some bs'
      → Has bs j f
      → Has bs' j f
  Has-insert_at bs i v j f h s n e has =
      let (b, e', eq) = insert_at-set bs i v e in
      elim (ℕ_discrete i j) [
        | yes p ↦
            let at : get_or (set bs i b) j [] ≡ b =
              rw (← p) (get_or-set_self bs i b [] (rw s.width h)) in
            rw (eq, at) (has-insert _ v f n (rw p at e') has)
        | no p ↦ rw (eq, get_or-set_ne bs i j b [] p) has
      ]

  pub displace-IsShaped :
      (bs : List Bucket) (cur slot fp : ℕ)
      → cur < 2 ^ k
      → fp < 256
      → IsShaped bs
      → IsShaped (displace (2 ^ k) bs cur slot fp)
  unfolding displace
  displace-IsShaped bs cur slot fp h small s = rw (mask_of_lt k cur h) (
      set-IsShaped bs cur _ s (length-set _ slot _ ∙ s.slots cur h)
        (set-IsBytes _ slot _ (omega arith) (s.bytes cur)))

  Has-displace_self :
      (bs : List Bucket) (cur slot fp : ℕ)
      → cur < 2 ^ k
      → slot < 4
      → fp < 256
      → IsShaped bs
      → Has (displace (2 ^ k) bs cur slot fp) cur fp
  unfolding displace
  Has-displace_self bs cur slot fp h small byte s =
      let e : fp % 2 ^ 8 ≡ fp = omega arith in
      rw
        (
          mask_of_lt k cur h,
          e,
          get_or-set_self bs cur (set (get_or bs cur []) slot fp) [] (rw s.width h),
        )
        (has-set_self (get_or bs cur []) slot fp (rw (s.slots cur h) small))

  -- writing over a slot loses at most the fingerprint that was there
  Has-displace :
      (bs : List Bucket) (cur slot fp j f : ℕ)
      → cur < 2 ^ k
      → IsShaped bs
      → Has bs j f
      → Has (displace (2 ^ k) bs cur slot fp) j f ⊎ (cur ≡ j) × (victim (2 ^ k) bs cur slot ≡ f)
  unfolding displace victim
  Has-displace bs cur slot fp j f h s has = rw (mask_of_lt k cur h) (elim (ℕ_discrete cur j) [
    | no p ↦ inl (rw (get_or-set_ne bs cur j _ [] p) has)
    | yes p ↦ elim (has-set (get_or bs cur []) slot (fp % 2 ^ 8) f (rw p has)) [
      | inr e ↦ inr (p, e)
      | inl kept ↦ inl (rw (← p, get_or-set_self bs cur _ [] (rw s.width h)) kept)
    ]
  ])

  pub victim-lt : (bs : List Bucket) (cur slot : ℕ) → IsShaped bs → victim (2 ^ k) bs cur slot < 256
  unfolding victim
  victim-lt bs cur slot s = s.bytes _ slot

  -- What the loop keeps of a fingerprint `f` with buckets `i` and its alternative: it is present,
  -- or it is the one in hand, on its way to the bucket `cur`.
  abbrev pub Tracked : List Bucket → ℕ → ℕ → ℕ → ℕ → Type 0
  Tracked bs f i fp cur = Present bs f i ⊎ (f ≡ fp) × ((cur ≡ i) ⊎ (cur ≡ alt_index i f (2 ^ k)))

  pub Tracked-insert_at :
      (bs : List Bucket) (f i fp cur : ℕ) {bs' : List Bucket}
      → cur < 2 ^ k
      → fp < 256
      → IsShaped bs
      → f ≢ 0
      → insert_at bs cur fp ≡ some bs'
      → Tracked bs f i fp cur
      → Present bs' f i
  Tracked-insert_at bs f i fp cur h small s n e (inl (inl p)) =
      inl (Has-insert_at bs cur fp i f h s n e p)
  Tracked-insert_at bs f i fp cur h small s n e (inl (inr p)) =
      inr (Has-insert_at bs cur fp _ f h s n e p)
  Tracked-insert_at bs f i fp cur h small s n e (inr (p, inl q)) =
      let here = Has-insert_at_self bs cur fp h small s e in inl (rw (p, ← q) here)
  Tracked-insert_at bs f i fp cur h small s n e (inr (p, inr q)) =
      let here = Has-insert_at_self bs cur fp h small s e in inr (rw (← q, p) here)

  Tracked-displace :
      (bs : List Bucket) (f i fp cur slot : ℕ)
      → i < 2 ^ k
      → cur < 2 ^ k
      → slot < 4
      → fp < 256
      → IsShaped bs
      → Tracked bs f i fp cur
      → Tracked
          (displace (2 ^ k) bs cur slot fp)
          f
          i
          (victim (2 ^ k) bs cur slot)
          (alt_index cur (victim (2 ^ k) bs cur slot) (2 ^ k))
  Tracked-displace bs f i fp cur slot hi h hs small s (inl (inl p)) =
      elim (Has-displace bs cur slot fp i f h s p) [
        | inl kept ↦ inl (inl kept)
        | inr (e, v) ↦ inr (sym v, inr (rw (v, e)))
      ]
  Tracked-displace bs f i fp cur slot hi h hs small s (inl (inr p)) =
      elim (Has-displace bs cur slot fp _ f h s p) [
        | inl kept ↦ inl (inr kept)
        | inr (e, v) ↦ inr (sym v, inl (rw (v, e) (alt_index_twice k i f hi)))
      ]
  Tracked-displace bs f i fp cur slot hi h hs small s (inr (p, inl q)) =
      let here = Has-displace_self bs cur slot fp h hs small s in
      inl (
        inl (
          subst (λ t. Has (displace (2 ^ k) bs cur slot fp) t f) q
            (subst (λ t. Has (displace (2 ^ k) bs cur slot fp) cur t) (sym p) here)))
  Tracked-displace bs f i fp cur slot hi h hs small s (inr (p, inr q)) =
      let here = Has-displace_self bs cur slot fp h hs small s in
      inl (
        inr (
          subst (λ t. Has (displace (2 ^ k) bs cur slot fp) t f) q
            (subst (λ t. Has (displace (2 ^ k) bs cur slot fp) cur t) (sym p) here)))

  kick_slot-lt : (key j : ℕ) → kick_slot key j < 4
  unfolding kick_slot
  kick_slot-lt key j = omega arith

  -- A kick loop that succeeds has the shape it started with, and every tracked fingerprint present.
  pub kicks-Present :
      (rounds key j : ℕ) (bs : List Bucket) (fp cur : ℕ) {bs' : List Bucket}
      → cur < 2 ^ k
      → fp < 256
      → IsShaped bs
      → kicks rounds key j (2 ^ k) bs fp cur ≡ (bs', true)
      → (f i : ℕ) → f ≢ 0
      → i < 2 ^ k
      → Tracked bs f i fp cur
      → Present bs' f i
  unfolding kicks
  kicks-Present zero key j bs fp cur {bs'} h small s e f i n hi t = cc
  kicks-Present (suc rounds) key j bs fp cur {bs'} h small s e f i n hi t =
      let slot = kick_slot key j in
      let hs = kick_slot-lt key j in
      let bs₁ = displace (2 ^ k) bs cur slot fp in
      let v = victim (2 ^ k) bs cur slot in
      let next = alt_index cur v (2 ^ k) in
      let s₁ = displace-IsShaped bs cur slot fp h small s in
      let t₁ = Tracked-displace bs f i fp cur slot hi h hs small s t in
      let hn = alt_index-lt k cur v in
      let vs = victim-lt bs cur slot s in
      elim (Option-cases (insert_at bs₁ next v)) [
        | inl e' ↦
            kicks-Present rounds key (j + 1) bs₁ v next hn vs s₁ (rw (e', kicks) at e) f i n hi t₁
        | inr (done, e') ↦
            let eq : done ≡ bs' = ground (arith, e') in
            rw (← eq) (Tracked-insert_at bs₁ f i v next hn vs s₁ n e' t₁)
      ]
