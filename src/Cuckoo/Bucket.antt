-- ===== src/Cuckoo/Bucket.antt =====
-- One bucket of src/cuckoo.cpp: what `bucket_insert`, `bucket_remove` and an overwritten slot do to
-- `bucket_has`.
use kvtier.Prelude.{
  ℕ, zero, suc, ◌<◌, ◌≡◌, ◌≢◌, ◌⊎◌, inl, inr, true, none, some, [], ◌∷◌, arith, length, get_or, set,
  Option-cases,
}
use kvtier.Cuckoo.{Bucket, bucket_has, bucket_insert}

pub has-set_self : (b : Bucket) (s v : ℕ) → s < length b → bucket_has (set b s v) v ≡ true
unfolding bucket_has
has-set_self [] s v h = absurd (omega arith)
has-set_self (x ∷ b) zero v h = ground arith
has-set_self (x ∷ b) (suc s) v h = ground (arith, has-set_self b s v)

-- what a slot's new value can take away is only its old value
pub has-set :
    (b : Bucket) (s v f : ℕ)
    → bucket_has b f ≡ true
    → (bucket_has (set b s v) f ≡ true) ⊎ (get_or b s 0 ≡ f)
unfolding bucket_has
has-set [] s v f h = cc
has-set (x ∷ b) zero v f h = ground arith
has-set (x ∷ b) (suc s) v f h = ground (arith, has-set b s v f)

pub has-insert_self :
    (b : Bucket) (v : ℕ) {b' : Bucket}
    → v < 256
    → bucket_insert b v ≡ some b'
    → bucket_has b' v ≡ true
unfolding bucket_has bucket_insert
has-insert_self [] v h e = cc
has-insert_self (x ∷ b) v {b'} h e = elim (Option-cases (bucket_insert b v)) [
  | inl none' ↦ ground arith
  | inr (ys, e') ↦ ground (arith, has-insert_self b v h e')
]

pub has-insert :
    (b : Bucket) (v f : ℕ) {b' : Bucket}
    → f ≢ 0
    → bucket_insert b v ≡ some b'
    → bucket_has b f ≡ true
    → bucket_has b' f ≡ true
unfolding bucket_has bucket_insert
has-insert [] v f n e h = cc
has-insert (x ∷ b) v f {b'} n e h = elim (Option-cases (bucket_insert b v)) [
  | inl none' ↦ ground arith
  | inr (ys, e') ↦ ground (arith, has-insert b v f n e')
]

pub length-insert :
    (b : Bucket) (v : ℕ) {b' : Bucket} → bucket_insert b v ≡ some b' → length b' ≡ length b
unfolding bucket_insert
length-insert [] v e = cc
length-insert (x ∷ b) v {b'} e = elim (Option-cases (bucket_insert b v)) [
  | inl none' ↦ ground arith
  | inr (ys, e') ↦ ground (arith, length-insert b v e')
]

-- every fingerprint of a bucket is a byte
abbrev pub IsBytes : Bucket → Type 0
IsBytes b = (s : ℕ) → get_or b s 0 < 256

pub set-IsBytes : (b : Bucket) (s v : ℕ) → v < 256 → IsBytes b → IsBytes (set b s v)
set-IsBytes [] s v h k t = k t
set-IsBytes (x ∷ b) zero v h k zero = h
set-IsBytes (x ∷ b) zero v h k (suc t) = k (suc t)
set-IsBytes (x ∷ b) (suc s) v h k zero = k zero
set-IsBytes (x ∷ b) (suc s) v h k (suc t) = set-IsBytes b s v h (λ u. k (suc u)) t

pub insert-IsBytes :
    (b : Bucket) (v : ℕ) {b' : Bucket} → bucket_insert b v ≡ some b' → IsBytes b → IsBytes b'
unfolding bucket_insert
insert-IsBytes [] v e k t = cc
insert-IsBytes (x ∷ b) v {b'} e k zero = ground (arith, k 0)
insert-IsBytes (x ∷ b) v {b'} e k (suc t) = elim (Option-cases (bucket_insert b v)) [
  | inl none' ↦ ground (arith, k (suc t))
  | inr (ys, e') ↦ ground (arith, k (suc t), insert-IsBytes b v e' (λ u. k (suc u)) t)
]

-- a bucket that takes no more has no empty slot
pub full-get_or :
    (b : Bucket) (v s : ℕ) → bucket_insert b v ≡ none → s < length b → get_or b s 0 ≢ 0
unfolding bucket_insert
full-get_or [] v s e h = absurd (omega arith)
full-get_or (x ∷ b) v zero e h = ground arith
full-get_or (x ∷ b) v (suc s) e h = elim (Option-cases (bucket_insert b v)) [
  | inl e' ↦ full-get_or b v s e' (omega arith)
  | inr (ys, e') ↦ ground arith
]
