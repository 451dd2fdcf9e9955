-- ===== src/Cache/Shapes.antt =====
-- `shape_pool_intern` of src/cache.cpp: equal lists of record lengths share one shape. An
-- allocation does not fail.
use kvtier.Prelude.{
  ℕ, ◌≡◌, refl, ◌∙◌, ap, sym, Bool, true, false, ◌&&◌, Option, none, some, List, [], ◌∷◌, ◌++◌,
  ◌==◌, ==_iff, if◌then◌else◌, length, Bool-cases, Option-cases, inl, inr, arith,
}

pub record Shape : Type 0 where
  pub id : ℕ
  pub lens : List ℕ

-- the test on `n_recs` and the `memcmp`
unfoldable pub same_lens : List ℕ → List ℕ → Bool
same_lens [] [] = true
same_lens [] (y ∷ ys) = false
same_lens (x ∷ xs) [] = false
same_lens (x ∷ xs) (y ∷ ys) = x == y && same_lens xs ys

unfoldable pub find_shape : List Shape → List ℕ → Option Shape
find_shape [] lens = none
find_shape (s ∷ items) lens =
    let rest = find_shape items lens in if same_lens s.lens lens then some s else rest

-- the pool after the call, and the shape returned
unfoldable pub shape_pool_intern : List Shape → List ℕ → List Shape × Shape
shape_pool_intern items lens = elim (find_shape items lens) [
  | some s ↦ (items, s)
  | none ↦ let s : Shape = record { id = length items; lens = lens } in (items ++ (s ∷ []), s)
]

same_lens_refl : (xs : List ℕ) → same_lens xs xs ≡ true
unfolding same_lens
same_lens_refl [] = refl
same_lens_refl (x ∷ xs) = ground (arith, same_lens_refl xs)

same_lens_sound : (xs ys : List ℕ) → same_lens xs ys ≡ true → xs ≡ ys
unfolding same_lens
same_lens_sound [] [] e = refl
same_lens_sound [] (y ∷ ys) e = absurd (cc e)
same_lens_sound (x ∷ xs) [] e = absurd (cc e)
same_lens_sound (x ∷ xs) (y ∷ ys) e =
    let p : (x == y) ≡ true = ground (arith, e) in
    let q : same_lens xs ys ≡ true = ground (arith, e) in
    λ i. (==_iff x y).0 p i ∷ same_lens_sound xs ys q i

find_shape-lens :
    (items : List Shape) (lens : List ℕ) {s : Shape}
    → find_shape items lens ≡ some s
    → s.lens ≡ lens
unfolding find_shape
find_shape-lens [] lens e = absurd (cc e)
find_shape-lens (x ∷ items) lens {s} e = elim (Bool-cases (same_lens x.lens lens)) [
  | inl t ↦
      let e' : some x ≡ some s = rw t at e in
      let at : x ≡ s = cc e' in ap (λ (r : Shape). r.lens) (sym at) ∙ same_lens_sound x.lens lens t
  | inr t ↦ let e' : find_shape items lens ≡ some s = rw t at e in find_shape-lens items lens e'
]

find_shape-append :
    (items : List Shape) (s : Shape)
    → find_shape items s.lens ≡ none
    → find_shape (items ++ (s ∷ [])) s.lens ≡ some s
unfolding find_shape
find_shape-append [] s e = rw (same_lens_refl s.lens) refl
find_shape-append (x ∷ items) s e = elim (Bool-cases (same_lens x.lens s.lens)) [
  | inl t ↦ let e' : some x ≡ none = rw t at e in absurd (cc e')
  | inr t ↦
      let e' : find_shape items s.lens ≡ none = rw t at e in rw t (find_shape-append items s e')
]

intern_new :
    (items : List Shape) (lens : List ℕ)
    → find_shape items lens ≡ none
    → shape_pool_intern items lens ≡ (
      items ++ (record { id = length items; lens = lens } ∷ []),
      record { id = length items; lens = lens },
    )
unfolding shape_pool_intern
intern_new items lens e = rw (e, shape_pool_intern) refl

intern_old :
    (items : List Shape) (lens : List ℕ) {s : Shape}
    → find_shape items lens ≡ some s
    → shape_pool_intern items lens ≡ (items, s)
unfolding shape_pool_intern
intern_old items lens e = rw (e, shape_pool_intern) refl

-- shape_pool_intern returns a shape with the lengths asked for, and asking again gives the same
-- shape and leaves the pool as it is.
pub shape_pool_intern_lem :
    (items : List Shape) (lens : List ℕ)
    → ((shape_pool_intern items lens).1.lens ≡ lens)
      × (shape_pool_intern (shape_pool_intern items lens).0 lens ≡ shape_pool_intern items lens)
shape_pool_intern_lem items lens = elim (Option-cases (find_shape items lens)) [
  | inl e ↦ rw (intern_new items lens e) (refl, intern_old _ lens (find_shape-append items _ e))
  | inr (s, e) ↦
      rw (intern_old items lens e) (find_shape-lens items lens e, intern_old items lens e)
]
